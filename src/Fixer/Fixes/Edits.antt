-- ===== src/Fixer/Fixes/Edits.antt =====
-- What the fixes that insert one byte into a line have in common: a relation between a text and its
-- edit, line by line.
use regal.Base.{
  ℕ, zero, suc, ◌≡◌, refl, sym, ap, subst, ◌≢◌, ◌⊎◌, inl, inr, Bool, true, false, none, some, List,
  [], ◌∷◌, ◌++◌, arith, length, get_elem?, set, take, drop, take-append-drop, All, All-append, Text,
  Outcome, ok, text_eq,
}
use regal.Go.Strings.{split, join, split-join, split-ne-nil, split-Lacks, Lacks}
use regal.Fixer.Fixes.{FixResult, newline, finish}

-- `m` is `l` with the byte `c` put in, any number of times, between texts that `P` allows.
pub data Edited (c : ℕ) (P : Text → Text → Type 0) (l : Text) : Text → Type 0 where
  same : Edited c P l l
  more :
      {m k : Text} (before after : Text)
      → Edited c P l m
      → m ≡ before ++ after
      → P before after
      → k ≡ before ++ c ∷ after
      → Edited c P l k

abbrev pub EachLine : (Text → Text → Type 0) → List Text → List Text → Type 0
EachLine R [] [] = Unit
EachLine R (x ∷ xs) (y ∷ ys) = R x y × EachLine R xs ys
EachLine R _ _ = ⊥

module _ (R : Text → Text → Type 0) where
  pub EachLine-refl : ((l : Text) → R l l) → (ls : List Text) → EachLine R ls ls
  EachLine-refl r [] = tt
  EachLine-refl r (l ∷ ls) = (r l, EachLine-refl r ls)

  pub EachLine-set :
      (xs ys : List Text) (i : ℕ) (l k : Text)
      → EachLine R xs ys
      → get_elem? ys i ≡ some l
      → ((x : Text) → R x l → R x k)
      → EachLine R xs (set ys i k)
  EachLine-set [] [] i l k h at step = h
  EachLine-set [] (y ∷ ys) i l k h at step = absurd h
  EachLine-set (x ∷ xs) [] i l k h at step = absurd h
  EachLine-set (x ∷ xs) (y ∷ ys) zero l k (r, h) at step =
      (step x (subst (λ z. R x z) (cc at) r), h)
  EachLine-set (x ∷ xs) (y ∷ ys) (suc i) l k (r, h) at step =
      (r, EachLine-set xs ys i l k h at step)

  pub length-EachLine : (xs ys : List Text) → EachLine R xs ys → length ys ≡ length xs
  length-EachLine [] [] h = refl
  length-EachLine [] (y ∷ ys) h = absurd h
  length-EachLine (x ∷ xs) [] h = absurd h
  length-EachLine (x ∷ xs) (y ∷ ys) (r, h) = ap suc (length-EachLine xs ys h)

  pub EachLine-Lacks :
      (b : ℕ) (xs ys : List Text)
      → ((x y : Text) → R x y → Lacks b x → Lacks b y)
      → EachLine R xs ys
      → All (Lacks b) xs
      → All (Lacks b) ys
  EachLine-Lacks b [] [] keep h all = tt
  EachLine-Lacks b [] (y ∷ ys) keep h all = absurd h
  EachLine-Lacks b (x ∷ xs) [] keep h all = absurd h
  EachLine-Lacks b (x ∷ xs) (y ∷ ys) keep (r, h) (a, all) =
      (keep x y r a, EachLine-Lacks b xs ys keep h all)

  pub EachLine-ne-nil : (xs ys : List Text) → EachLine R xs ys → xs ≢ [] → ys ≡ [] → ⊥
  EachLine-ne-nil [] ys h ne e = ne refl
  EachLine-ne-nil (x ∷ xs) [] h ne e = h
  EachLine-ne-nil (x ∷ xs) (y ∷ ys) h ne e = ground arith

Lacks-append : (b : ℕ) (xs ys : Text) → Lacks b (xs ++ ys) → Lacks b xs × Lacks b ys
Lacks-append b [] ys h = (tt, h)
Lacks-append b (x ∷ xs) ys (d, h) = let (hx, hy) = Lacks-append b xs ys h in ((d, hx), hy)

module _ {c : ℕ} {P : Text → Text → Type 0} where
  Edited-Lacks : (b : ℕ) (x y : Text) → c ≢ b → Edited c P x y → Lacks b x → Lacks b y
  Edited-Lacks b x y differ same h = h
  Edited-Lacks b x y differ (more {m} before after e split_at p result) h =
      let parts =
        Lacks-append b before after
          (subst (λ t. Lacks b t) split_at (Edited-Lacks b x m differ e h)) in
      subst (λ t. Lacks b t) (sym result)
        (All-append (λ t. t ≢ b) before (c ∷ after) parts.0 (differ, parts.1))

-- The lines of the text that a fix writes are its edited lines, since no line break was put in.
pub split-join-Edited :
    (c : ℕ) (P : Text → Text → Type 0) (contents : Text) (lines : List Text)
    → c ≢ newline
    → EachLine (Edited c P) (split contents newline) lines
    → split (join lines newline) newline ≡ lines
split-join-Edited c P contents lines differ h =
    split-join lines newline
      (EachLine-ne-nil (Edited c P) (split contents newline) lines h
        (split-ne-nil contents newline))
      (EachLine-Lacks (Edited c P) newline (split contents newline) lines
        (λ x y e. Edited-Lacks newline x y differ e) h (split-Lacks contents newline))

-- Putting the byte into one line is an edit of that line and leaves the others.
pub EachLine-insert :
    (c : ℕ) (P : Text → Text → Type 0) (start lines : List Text) (r n : ℕ) (line : Text)
    → EachLine (Edited c P) start lines
    → get_elem? lines r ≡ some line
    → P (take n line) (drop n line)
    → EachLine (Edited c P) start (set lines r (take n line ++ c ∷ drop n line))
EachLine-insert c P start lines r n line h found p =
    EachLine-set (Edited c P) start lines r line _ h found
      (λ x e. more (take n line) (drop n line) e (sym (take-append-drop n line)) p refl)

-- A fix answers with nothing, or with one result whose lines are those of `contents`, edited.
abbrev pub Answers : ℕ → (Text → Text → Type 0) → Text → Outcome (List FixResult) → Type 0
Answers c P contents answer =
    (answer ≡ ok [])
    ⊎ ((r : FixResult) × (answer ≡ ok (r ∷ []))
        × EachLine (Edited c P) (split contents newline) (split r.contents newline))

pub finish-Answers :
    (c : ℕ) (P : Text → Text → Type 0) (contents title root : Text) (s : List Text × Bool)
    → c ≢ newline
    → EachLine (Edited c P) (split contents newline) s.0
    → Answers c P contents (finish title root s)
unfolding finish
finish-Answers c P contents title root (lines, false) differ h = inl refl
finish-Answers c P contents title root (lines, true) differ h = inr (
  record { rename = none; title = title; root = root; contents = join lines newline },
  refl,
  subst (λ ls. EachLine (Edited c P) (split contents newline) ls)
      (sym (split-join-Edited c P contents lines differ h)) h,
)
