-- ===== src/Go/Strings.antt =====
-- `strings.Split` and `strings.Join` for a separator of one byte, and `strings.Index`.
use mathlib.Core.Option
use regal.Base.{
  ℕ, suc, ◌+◌, ◌≤◌, ◌<◌, ◌≡◌, refl, ap, ◌≢◌, inl, inr, Bool, true, false, ◌&&◌, Option, none, some,
  List, [], ◌∷◌, ◌++◌, append-nil, arith, if◌then◌else◌, Bool-cases, Option-cases, length, drop,
  All, ◌==◌, Text, text_eq, nat_eq,
}

-- A byte that is no separator joins the first part.
unfoldable pub grow : ℕ → List Text → List Text
grow c [] = (c ∷ []) ∷ []
grow c (part ∷ parts) = (c ∷ part) ∷ parts

unfoldable pub split : Text → ℕ → List Text
unfolding grow
split [] sep = [] ∷ []
split (c ∷ s) sep = let parts = split s sep in if c == sep then [] ∷ parts else grow c parts

unfoldable pub join_rest : ℕ → List Text → Text
join_rest sep [] = []
join_rest sep (p ∷ ps) = sep ∷ (p ++ join_rest sep ps)

unfoldable pub join : List Text → ℕ → Text
unfolding join_rest
join [] sep = []
join (p ∷ ps) sep = p ++ join_rest sep ps

abbrev pub Lacks : ℕ → Text → Type 0
Lacks b = All (λ c. c ≢ b)

-- The position of the first `b`, and none for -1.
unfoldable pub index_byte : Text → ℕ → Option ℕ
index_byte [] b = none
index_byte (c ∷ s) b = if c == b then some 0 else Option.map suc (index_byte s b)

-- `strings.Count` of one byte
abbrev pub count_byte : ℕ → Text → ℕ
count_byte b [] = 0
count_byte b (c ∷ s) = (if c == b then 1 else 0) + count_byte b s

join-grow :
    (c sep : ℕ) (parts : List Text) → parts ≢ [] → join (grow c parts) sep ≡ c ∷ join parts sep
unfolding join grow
join-grow c sep [] h = absurd (h refl)
join-grow c sep (p ∷ ps) h = refl

grow-ne-nil : (c : ℕ) (parts : List Text) → grow c parts ≢ []
unfolding grow
grow-ne-nil c [] h = ground arith
grow-ne-nil c (p ∷ ps) h = ground arith

pub split-ne-nil : (s : Text) (sep : ℕ) → split s sep ≢ []
unfolding split
split-ne-nil [] sep h = ground arith
split-ne-nil (c ∷ s) sep h = ground (arith, grow-ne-nil c (split s sep))

join-nil-cons :
    (sep : ℕ) (parts : List Text) → parts ≢ [] → join ([] ∷ parts) sep ≡ sep ∷ join parts sep
unfolding join
join-nil-cons sep [] h = absurd (h refl)
join-nil-cons sep (p ∷ ps) h = refl

-- Joining the parts of a split gives the text back.
pub join-split : (s : Text) (sep : ℕ) → join (split s sep) sep ≡ s
unfolding split
join-split [] sep = unfold join in refl
join-split (c ∷ s) sep =
    let parts = split s sep in
    ground (
      arith,
      join-grow c sep parts (split-ne-nil s sep),
      join-nil-cons sep parts (split-ne-nil s sep),
      join-split s sep,
    )

split_last : (p : Text) (sep : ℕ) → Lacks sep p → split p sep ≡ p ∷ []
unfolding split
split_last [] sep h = refl
split_last (c ∷ p) sep (differ, h) = unfold grow in ground (arith, split_last p sep h)

split_first :
    (p rest : Text) (sep : ℕ) → Lacks sep p → split (p ++ sep ∷ rest) sep ≡ p ∷ split rest sep
unfolding split
split_first [] rest sep h = ground arith
split_first (c ∷ p) rest sep (differ, h) = unfold grow in ground (arith, split_first p rest sep h)

split-join_rest :
    (p : Text) (ps : List Text) (sep : ℕ)
    → Lacks sep p
    → All (Lacks sep) ps
    → split (p ++ join_rest sep ps) sep ≡ p ∷ ps
unfolding join
split-join_rest p [] sep h hs = rw append-nil (split_last p sep h)
split-join_rest p (q ∷ ps) sep h (hq, hs) =
    rw (split_first p _ sep h) (ap (λ r. p ∷ r) (split-join_rest q ps sep hq hs))

-- Splitting a join gives the parts back, if there is a part and none holds the separator.
pub split-join :
    (ps : List Text) (sep : ℕ) → ps ≢ [] → All (Lacks sep) ps → split (join ps sep) sep ≡ ps
unfolding join
split-join [] sep h all = absurd (h refl)
split-join (p ∷ ps) sep h (hp, hps) = split-join_rest p ps sep hp hps

grow-Lacks :
    (c sep : ℕ) (parts : List Text)
    → c ≢ sep
    → All (Lacks sep) parts
    → All (Lacks sep) (grow c parts)
unfolding grow
grow-Lacks c sep [] differ h = ((differ, tt), tt)
grow-Lacks c sep (p ∷ ps) differ (h, hs) = ((differ, h), hs)

pub split-Lacks : (s : Text) (sep : ℕ) → All (Lacks sep) (split s sep)
unfolding split
split-Lacks [] sep = (tt, tt)
split-Lacks (c ∷ s) sep = elim (Bool-cases (c == sep)) [
  | inl same ↦ rw same (tt, split-Lacks s sep)
  | inr differ ↦ rw differ (grow-Lacks c sep (split s sep) (ground arith) (split-Lacks s sep))
]

-- A byte that is found stands where it was found.
pub index_byte-some :
    (s : Text) (b i : ℕ)
    → index_byte s b ≡ some i
    → (rest : Text) × (drop i s ≡ b ∷ rest) × (i < length s)
unfolding index_byte
index_byte-some [] b i h = cc
index_byte-some (c ∷ s) b i h = elim (Bool-cases (c == b)) [
  | inl same ↦ let at : i ≡ 0 = ground arith in rw at (s, ground arith, omega arith)
  | inr differ ↦ elim (Option-cases (index_byte s b)) [
    | inl none_left ↦ ground arith
    | inr (n, found) ↦
        let at : i ≡ suc n = ground arith in
        let (rest, there, inside) = index_byte-some s b n found in rw at (rest, there, omega arith)
  ]
]

pub join_two :
    (p : Text) (ps : List Text) (sep : ℕ) → ps ≢ [] → join (p ∷ ps) sep ≡ p ++ sep ∷ join ps sep
unfolding join
join_two p [] sep h = absurd (h refl)
join_two p (q ∷ ps) sep h = refl

-- `strings.HasPrefix`
unfoldable pub has_prefix : Text → Text → Bool
has_prefix s [] = true
has_prefix [] (p ∷ ps) = false
has_prefix (c ∷ s) (p ∷ ps) = c == p && has_prefix s ps

pub has_prefix-append : (p rest : Text) → has_prefix (p ++ rest) p ≡ true
unfolding has_prefix
has_prefix-append [] rest = refl
has_prefix-append (c ∷ p) rest = ground (arith, has_prefix-append p rest)

pub has_prefix-le : (s p : Text) → has_prefix s p ≡ true → length p ≤ length s
unfolding has_prefix
has_prefix-le s [] h = omega arith
has_prefix-le [] (p ∷ ps) h = cc
has_prefix-le (c ∷ s) (p ∷ ps) h = ground (arith, has_prefix-le s ps)
