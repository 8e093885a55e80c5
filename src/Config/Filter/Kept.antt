-- ===== src/Config/Filter/Kept.antt =====
-- pkg/config/filter.go: which files are kept.
use regal.Base.{
  ◌≡◌, refl, ap, inl, inr, Bool, not, ◌&&◌, List, [], ◌∷◌, arith, Bool-cases, ◌==◌, eq_iff,
  contains, Text, Outcome, ok, ◌>>=◌, wrap, text_eq, nat_eq,
}
use regal.Config.Filter.{compile_patterns, excluded, keep_files, filter_paths}

module _ {G : Type 0} (compile : Text → Outcome G) (matches : G → Text → Bool) where
  contains-keep_files :
      (patterns : List G) (path_prefix : Text) (fs : List Text) (f : Text)
      → contains (keep_files compile matches patterns path_prefix fs) f
        ≡ (contains fs f && not (excluded compile matches patterns f path_prefix))
  unfolding keep_files contains
  contains-keep_files patterns path_prefix [] f = refl
  contains-keep_files patterns path_prefix (g ∷ fs) f = elim (Bool-cases (g == f)) [
    | inl same ↦
        let alike =
          ap (λ x. excluded compile matches patterns x path_prefix) ((eq_iff g f).0 same) in
        ground (arith, contains-keep_files patterns path_prefix fs f, same, alike)
    | inr differ ↦ ground (arith, contains-keep_files patterns path_prefix fs f, differ)
  ]

  -- If the patterns compile, a path is kept exactly when it was given and none of them matches it.
  pub contains-filter_paths :
      (paths ignore : List Text) (path_prefix : Text) (patterns : List G)
      → compile_patterns compile matches ignore ≡ ok patterns
      → (out : List Text) × (filter_paths compile matches paths ignore path_prefix ≡ ok out)
        × ((f : Text)
            → contains out f
              ≡ (contains paths f && not (excluded compile matches patterns f path_prefix)))
  unfolding filter_paths
  contains-filter_paths paths ignore path_prefix patterns compiled = (
    keep_files compile matches patterns path_prefix paths,
    rw compiled (unfold ◌>>=◌ wrap in refl),
    contains-keep_files patterns path_prefix paths,
  )
