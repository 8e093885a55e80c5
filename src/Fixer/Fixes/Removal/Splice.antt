-- ===== src/Fixer/Fixes/Removal/Splice.antt =====
-- pkg/fixer/fixes/fixes.go: cutting from a point in one line to a point in another, as an operation
-- on the joined text.
use regal.Base.{
  ℕ, zero, suc, ◌+◌, ◌-◌, ◌≤◌, ◌≡◌, refl, sym, ap, ◌∙◌, some, List, [], ◌∷◌, ◌++◌, append_assoc,
  arith, get_elem?, take, drop, take-append-drop, Text, text_eq,
}
use regal.Go.Slices.{drop-drop, get_elem?-ne-nil, append_cons-ne-nil}
use regal.Go.Strings.{join, join_rest, join_two}
use regal.Fixer.Fixes.{newline}

-- The lines, with everything between the two points cut out and their lines joined.
abbrev pub splice :
    List Text → (start_row start_col end_row end_col : ℕ) → (first last : Text) → List Text
splice lines r c r' c' first last =
    take r lines ++ (take c first ++ drop c' last) ∷ drop (suc r') lines

-- `k` is `l` without one stretch of it.
abbrev pub Removes : Text → Text → Type 0
Removes l k = (before gone after : Text) × (l ≡ before ++ (gone ++ after)) × (k ≡ before ++ after)

Removes-prefix : (p l k : Text) → Removes l k → Removes (p ++ l) (p ++ k)
Removes-prefix p l k (before, gone, after, e, f) =
    (p ++ before, gone, after, rw (e, append_assoc) refl, rw (f, append_assoc) refl)

-- What lies behind the first `c'` bytes of line `e` ends the text.
join_rest-at :
    (rest : List Text) (e c' : ℕ) (last : Text)
    → get_elem? rest e ≡ some last
    → (x : Text) × (join_rest newline rest
        ≡ x ++ (drop c' last ++ join_rest newline (drop (suc e) rest)))
unfolding join_rest
join_rest-at [] e c' last h = cc
join_rest-at (l ∷ ls) zero c' last h =
    let same : l ≡ last = cc h in
    (
      newline ∷ take c' l,
      ap (λ t. newline ∷ t)
          (ap (λ t. t ++ join_rest newline ls) (sym (take-append-drop c' l))
            ∙ append_assoc (take c' l) (drop c' l) (join_rest newline ls)
            ∙ ap (λ t. take c' l ++ (drop c' t ++ join_rest newline ls)) same),
    )
join_rest-at (l ∷ ls) (suc e) c' last h =
    let (x, found) = join_rest-at ls e c' last h in
    (newline ∷ (l ++ x), ap (λ t. newline ∷ t) (ap (λ t. l ++ t) found ∙ sym (append_assoc l x _)))

take-gone-drop :
    (l : Text) (c c' : ℕ) → c ≤ c' → l ≡ take c l ++ (take (c' - c) (drop c l) ++ drop c' l)
take-gone-drop l c c' h =
    sym (take-append-drop c l)
    ∙ ap (λ t. take c l ++ t)
        (sym (take-append-drop (c' - c) (drop c l))
          ∙ ap (λ t. take (c' - c) (drop c l) ++ t)
              (drop-drop l c (c' - c) ∙ (let e : c + (c' - c) ≡ c' = omega arith in rw e)))

splice_first :
    (l : Text) (rest : List Text) (c r' c' : ℕ) (last : Text)
    → get_elem? (l ∷ rest) r' ≡ some last
    → (r' ≡ 0 → c ≤ c')
    → Removes (join (l ∷ rest) newline) (join (splice (l ∷ rest) 0 c r' c' l last) newline)
unfolding join
splice_first l rest c zero c' last h ordered =
    let same : l ≡ last = cc h in
    let end = join_rest newline rest in
    (
      take c l,
      take (c' - c) (drop c l),
      drop c' l ++ end,
      ap (λ t. t ++ end) (take-gone-drop l c c' (ordered refl)) ∙ simp append_assoc,
      rw (← same) (append_assoc (take c l) (drop c' l) end),
    )
splice_first l rest c (suc e) c' last h ordered =
    let (x, found) = join_rest-at rest e c' last h in
    let after = drop c' last ++ join_rest newline (drop (suc e) rest) in
    (
      take c l,
      drop c l ++ x,
      after,
      ap (λ t. l ++ t) found
          ∙ ap (λ t. t ++ (x ++ after)) (sym (take-append-drop c l))
          ∙ simp append_assoc,
      append_assoc (take c l) (drop c' last) (join_rest newline (drop (suc e) rest)),
    )

-- Cutting from one point of the lines to a later one takes one stretch out of the joined text.
pub splice-Removes :
    (lines : List Text) (r c r' c' : ℕ) (first last : Text)
    → get_elem? lines r ≡ some first
    → get_elem? lines r' ≡ some last
    → r ≤ r'
    → (r ≡ r' → c ≤ c')
    → Removes (join lines newline) (join (splice lines r c r' c' first last) newline)
splice-Removes [] r c r' c' first last h h' le ordered = cc
splice-Removes (l ∷ rest) zero c r' c' first last h h' le ordered =
    let same : l ≡ first = cc h in
    rw (← same) (splice_first l rest c r' c' last h' (λ e. ordered (sym e)))
splice-Removes (l ∷ rest) (suc r) c zero c' first last h h' le ordered = absurd (omega arith)
splice-Removes (l ∷ rest) (suc r) c (suc r') c' first last h h' le ordered =
    let inner =
      splice-Removes rest r c r' c' first last h h' (omega arith) (λ e. ordered (ap suc e)) in
    rw
      (
        join_two l rest newline (get_elem?-ne-nil rest r h),
        join_two l (splice rest r c r' c' first last) newline
            (append_cons-ne-nil (take r rest) _ _),
      )
      (Removes-prefix l _ _ (Removes-prefix (newline ∷ []) _ _ inner))
