-- ===== src/Semver/Cut.antt =====
-- internal/semver/semver.go `cut`: where it cuts.
use regal.Base.{
  ℕ, ◌≡◌, refl, ◌≢◌, inl, inr, none, List, [], ◌∷◌, ◌++◌, append-nil, arith, Option-cases, eq_iff,
  eq_refl, Text, text_eq, nat_eq,
}
use regal.Go.Strings.{Lacks, index_byte, join, join_two}
use regal.Semver.{cut}

index_byte-Lacks : (s : Text) (sep : ℕ) → Lacks sep s → index_byte s sep ≡ none
unfolding index_byte
index_byte-Lacks [] sep h = refl
index_byte-Lacks (c ∷ s) sep (h, hs) = ground (arith, index_byte-Lacks s sep hs, eq_iff c sep)

-- A text without the separator is not cut.
pub cut-Lacks : (s : Text) (sep : ℕ) → Lacks sep s → cut s sep ≡ (s, [])
unfolding cut
cut-Lacks s sep h = rw (index_byte-Lacks s sep h, cut) refl

cut-cons :
    (c : ℕ) (s : Text) (sep : ℕ) → c ≢ sep → cut (c ∷ s) sep ≡ (c ∷ (cut s sep).0, (cut s sep).1)
unfolding cut index_byte
cut-cons c s sep h = elim (Option-cases (index_byte s sep)) [
  | inl absent ↦ rw (absent, cut) (ground (arith, absent, eq_iff c sep))
  | inr (i, found) ↦ rw (found, cut) (ground (arith, found, eq_iff c sep))
]

-- A text is cut at the first separator.
pub cut-append : (s rest : Text) (sep : ℕ) → Lacks sep s → cut (s ++ sep ∷ rest) sep ≡ (s, rest)
cut-append [] rest sep h = unfold cut index_byte in ground (arith, eq_refl sep)
cut-append (c ∷ s) rest sep (h, hs) =
    rw (cut-cons c (s ++ sep ∷ rest) sep h, cut-append s rest sep hs) refl

-- What is in front of the first separator of a join is its first part.
pub cut-join :
    (x : Text) (ps : List Text) (sep : ℕ)
    → Lacks sep x
    → cut (join (x ∷ ps) sep) sep ≡ (x, join ps sep)
cut-join x [] sep h = unfold join in rw append-nil (cut-Lacks x sep h)
cut-join x (p ∷ ps) sep h =
    rw (join_two x (p ∷ ps) sep (λ e. cc)) (cut-append x (join (p ∷ ps) sep) sep h)
