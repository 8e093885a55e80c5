-- ===== src/Lsp/Server/Fresh.antt =====
-- internal/lsp/server.go and internal/lsp/lint.go: the module that the cache has for a file, and the
-- file's contents.
mod Handled
mod FromDisk
pub mod Alone
use regal.Base.{
  ◌≡◌, refl, sym, subst, inl, inr, false, Option, none, some, List, [], ◌∷◌, arith, Bool-cases,
  Option-cases, ◌==◌, eq_iff, eq_refl, Text, Error, Outcome, ok, err, panicked, unfinished, text_eq,
  nat_eq,
}
use regal.Base.Dict.{Dict, lookup, insert, erase, lookup-insert, lookup-erase}
use regal.Lsp.Concurrent.{set_key, delete_key, get}
use regal.Lsp.Types.{Diagnostic}
use regal.Lsp.Diagnostics.{AstError, error_diagnostics, error_diagnostic}
use regal.Lsp.Cache.{
  Cache, set_file_contents, set_parse_errors, set_module, set_successful_parse_line_count,
  get_file_contents, delete,
}
use regal.Lsp.Server.{
  Env, State, Ref, Parsed, parsed, failed, unknown, ignore_uri, parse_uri, put_refs, put_module,
  take_parsed, update_parse, cached_module,
}

-- The module is what the parser makes of the text, unless it failed and gave no error of the engine.
abbrev pub Agrees : {A : Type 0} → Parsed A → A → Type 0
Agrees (parsed m') m = m' ≡ m
Agrees (failed []) m = Unit
Agrees (failed (_ ∷ _)) m = ⊥
Agrees (unknown _) m = Unit

-- Where the entries of two caches for a file are the same.
abbrev pub Same : {A : Type 0} → Text → Cache A → Cache A → Type 0
Same u c c' =
    (lookup u c.file_contents ≡ lookup u c'.file_contents)
    × (lookup u c.modules ≡ lookup u c'.modules)
    × (lookup u c.diagnostics_parse_errors ≡ lookup u c'.diagnostics_parse_errors)

module _ {M G : Type 0} (env : Env M G) where
  -- The entries of a file: a module without parse errors agrees with the contents.
  abbrev pub Fits : Text → Option Text → Option M → Option (List Diagnostic) → Type 0
  Fits u content none errors = Unit
  Fits u content (some m) none = Unit
  Fits u none (some m) (some []) = ⊥
  Fits u (some t) (some m) (some []) = Agrees (parse_uri env u t) m
  Fits u content (some m) (some (_ ∷ _)) = Unit

  abbrev pub FitsAt : Text → Cache M → Type 0
  FitsAt u c =
      Fits u (lookup u c.file_contents) (lookup u c.modules) (lookup u c.diagnostics_parse_errors)

  -- A file that is not ignored, and whose module is there without parse errors, has contents, and the
  -- module is what the parser makes of them, unless the parser failed without an error of the engine.
  abbrev pub IsFresh : Cache M → Type 0
  IsFresh c = (u : Text) → ignore_uri env u ≡ false → FitsAt u c

  -- The same for the files other than one.
  abbrev pub IsFreshBut : Text → Cache M → Type 0
  IsFreshBut uri c = (u : Text) → ignore_uri env u ≡ false → (uri == u) ≡ false → FitsAt u c

  pub FitsAt-Same : (u : Text) (c c' : Cache M) → Same u c c' → FitsAt u c → FitsAt u c'
  FitsAt-Same u c c' (p, q, r) h =
      subst (λ x. Fits u x (lookup u c'.modules) (lookup u c'.diagnostics_parse_errors)) p
        (subst (λ x. Fits u (lookup u c.file_contents) x (lookup u c'.diagnostics_parse_errors)) q
          (subst (λ x. Fits u (lookup u c.file_contents) (lookup u c.modules) x) r h))

  FitsAt-of :
      (u : Text) (c : Cache M) (a : Option Text) (b : Option M) (d : Option (List Diagnostic))
      → lookup u c.file_contents ≡ a
      → lookup u c.modules ≡ b
      → lookup u c.diagnostics_parse_errors ≡ d
      → Fits u a b d
      → FitsAt u c
  FitsAt-of u c a b d p q r h = rw (p, q, r) h

  Fits-unknown :
      (u t : Text) (m : Option M) (errors : Option (List Diagnostic)) (e : Error)
      → parse_uri env u t ≡ unknown e
      → Fits u (some t) m errors
  Fits-unknown u t none errors e h = tt
  Fits-unknown u t (some m) none e h = tt
  Fits-unknown u t (some m) (some []) e h = rw h tt
  Fits-unknown u t (some m) (some (_ ∷ _)) e h = tt

  Fits-failed :
      (u t : Text) (m : Option M) → parse_uri env u t ≡ failed [] → Fits u (some t) m (some [])
  Fits-failed u t none h = tt
  Fits-failed u t (some m) h = rw h tt

  Fits-errors :
      (u : Text) (content : Option Text) (m : Option M) (d : Diagnostic) (ds : List Diagnostic)
      → Fits u content m (some (d ∷ ds))
  Fits-errors u none none d ds = tt
  Fits-errors u (some t) none d ds = tt
  Fits-errors u none (some m) d ds = tt
  Fits-errors u (some t) (some m) d ds = tt

  put_refs-cache :
      (s : State M) (u : Text) (refs : List Ref) → (put_refs env s u refs).0.cache ≡ s.cache
  unfolding put_refs
  put_refs-cache s u [] = refl
  put_refs-cache s u (_ ∷ _) = refl

  pub put_module-cache :
      (s : State M) (u : Text) (m : M) (o : Outcome (Unit {0}))
      → (put_module env s u m o).0.cache ≡ s.cache
  unfolding put_module
  put_module-cache s u m (ok _) =
      put_refs-cache (record s { stored_modules = insert u m s.stored_modules }) u
        (env.defined_refs m)
  put_module-cache s u m (err e) = refl
  put_module-cache s u m panicked = refl
  put_module-cache s u m unfinished = refl

  set_parse_errors-there :
      (c : Cache M) (uri : Text) (diags : List Diagnostic)
      → lookup uri (set_parse_errors c uri diags).diagnostics_parse_errors ≡ some diags
  unfolding set_parse_errors set_key
  set_parse_errors-there c uri diags =
      ground (arith, lookup-insert uri uri diags c.diagnostics_parse_errors, eq_refl uri)

  cached_module-there :
      (c : Cache M) (uri content : Text) (m : M)
      → (lookup uri (cached_module env c uri content m).modules ≡ some m)
        × (lookup uri (cached_module env c uri content m).diagnostics_parse_errors ≡ some [])
  unfolding set_parse_errors set_key set_module set_successful_parse_line_count
  cached_module-there c uri content m = (
    ground (arith, lookup-insert uri uri m c.modules, eq_refl uri),
    ground (arith, lookup-insert uri uri [] c.diagnostics_parse_errors, eq_refl uri),
  )

  take_parsed-there :
      (s : State M) (uri t : Text) (p : Parsed M)
      → lookup uri s.cache.file_contents ≡ some t
      → parse_uri env uri t ≡ p
      → FitsAt uri (take_parsed env s uri t p).0.cache
  unfolding take_parsed set_parse_errors set_module set_successful_parse_line_count
      error_diagnostics set_key
  take_parsed-there s uri t (parsed m) found e =
      let c = cached_module env s.cache uri t m in
      let (module_there, errors_there) = cached_module-there s.cache uri t m in
      subst (FitsAt uri)
        (sym (put_module-cache (record s { cache = c }) uri m (env.store_module m)))
        (FitsAt-of uri c (some t) (some m) (some []) found module_there errors_there (rw e refl))
  take_parsed-there s uri t (failed []) found e =
      FitsAt-of uri (set_parse_errors s.cache uri []) (some t) (lookup uri s.cache.modules)
        (some []) found refl (set_parse_errors-there s.cache uri [])
        (Fits-failed uri t (lookup uri s.cache.modules) e)
  take_parsed-there s uri t (failed (x ∷ xs)) found e =
      let diags = error_diagnostics t (x ∷ xs) in
      FitsAt-of uri (set_parse_errors s.cache uri diags) (some t) (lookup uri s.cache.modules)
        (some diags) found refl (set_parse_errors-there s.cache uri diags)
        (Fits-errors uri (some t) (lookup uri s.cache.modules) (error_diagnostic t x)
          (error_diagnostics t xs))
  take_parsed-there s uri t (unknown x) found e =
      FitsAt-of uri s.cache (some t) (lookup uri s.cache.modules)
        (lookup uri s.cache.diagnostics_parse_errors) found refl refl
        (Fits-unknown uri t (lookup uri s.cache.modules)
          (lookup uri s.cache.diagnostics_parse_errors) x e)

  take_parsed-Same :
      (s : State M) (uri t u : Text) (p : Parsed M)
      → (uri == u) ≡ false
      → Same u s.cache (take_parsed env s uri t p).0.cache
  unfolding take_parsed set_parse_errors set_module set_successful_parse_line_count set_key
  take_parsed-Same s uri t u (parsed m) apart =
      subst (Same u s.cache)
        (sym (
          put_module-cache (record s { cache = cached_module env s.cache uri t m }) uri m
            (env.store_module m)))
        (
          refl,
          ground (arith, lookup-insert uri u m s.cache.modules, apart),
          ground (arith, lookup-insert uri u [] s.cache.diagnostics_parse_errors, apart),
        )
  take_parsed-Same s uri t u (failed []) apart =
      (refl, refl, ground (arith, lookup-insert uri u [] s.cache.diagnostics_parse_errors, apart))
  take_parsed-Same s uri t u (failed (x ∷ xs)) apart = (
    refl,
    refl,
    ground (
      arith,
      lookup-insert uri u (error_diagnostics t (x ∷ xs)) s.cache.diagnostics_parse_errors,
      apart,
    ),
  )
  take_parsed-Same s uri t u (unknown x) apart = (refl, refl, refl)

  update_parse-Same :
      (s : State M) (uri u : Text)
      → (uri == u) ≡ false
      → Same u s.cache (update_parse env s uri).0.cache
  unfolding update_parse get_file_contents get
  update_parse-Same s uri u apart = elim (Option-cases (lookup uri s.cache.file_contents)) [
    | inl missing ↦ rw (missing, update_parse) (refl, refl, refl)
    | inr (t, found) ↦
        rw (found, update_parse) (take_parsed-Same s uri t u (parse_uri env uri t) apart)
  ]

  update_parse-there :
      (s : State M) (uri : Text)
      → (lookup uri s.cache.file_contents ≡ none → FitsAt uri s.cache)
      → FitsAt uri (update_parse env s uri).0.cache
  unfolding update_parse get_file_contents get
  update_parse-there s uri h = elim (Option-cases (lookup uri s.cache.file_contents)) [
    | inl missing ↦ rw (missing, update_parse) (h missing)
    | inr (t, found) ↦
        rw (found, update_parse) (take_parsed-there s uri t (parse_uri env uri t) found refl)
  ]

  -- Parsing a file makes it fresh, if the others were, and if it was itself where it has no contents.
  pub update_parse-IsFresh :
      (s : State M) (uri : Text)
      → IsFreshBut uri s.cache
      → (ignore_uri env uri ≡ false → lookup uri s.cache.file_contents ≡ none → FitsAt uri s.cache)
      → IsFresh (update_parse env s uri).0.cache
  update_parse-IsFresh s uri others h u watched = elim (Bool-cases (uri == u)) [
    | inl same ↦
        let e : uri ≡ u = (eq_iff uri u).0 same in
        subst (λ x. FitsAt x (update_parse env s uri).0.cache) e
          (update_parse-there s uri (h (subst (λ x. ignore_uri env x ≡ false) (sym e) watched)))
    | inr apart ↦
        FitsAt-Same u s.cache (update_parse env s uri).0.cache (update_parse-Same s uri u apart)
          (others u watched apart)
  ]
