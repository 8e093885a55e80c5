-- ===== src/Lsp/Server/Handlers/Loaded.antt =====
-- internal/lsp/server.go: which files `handleWorkspaceDidCreateFiles` takes in.
use regal.Base.{
  ◌≡◌, refl, sym, ap, ◌∙◌, subst, inl, inr, Bool, true, false, Option, none, some, List, [], ◌∷◌,
  arith, if◌then◌else◌, Bool-cases, Option-cases, ◌==◌, eq_iff, contains, Text, codes, Outcome, ok,
  err, panicked, unfinished, text_eq, nat_eq,
}
use regal.Base.Dict.{Dict, lookup, lookup-insert}
use regal.Lsp.Concurrent.{set_key, get}
use regal.Lsp.Uri.{to_path}
use regal.Lsp.Cache.{
  Cache, get_file_contents, set_file_contents, set_parse_errors, set_module,
  set_successful_parse_line_count, update_with, update_for_uri_from_disk,
}
use regal.Lsp.Server.{
  Env, State, Parsed, parsed, failed, unknown, ignore_uri, parse_uri, cached_module, put_module,
  take_parsed, update_parse,
}
use regal.Lsp.Server.Fresh.{put_module-cache}
use regal.Lsp.Server.Handlers.{
  seq, note_parsed, ask_to_lint, ask_for_template, parse_and_lint, from_disk, read_back, created,
  create_files, did_create_files,
}

module _ {M G : Type 0} (env : Env M G) where
  note_parsed-cache :
      (uri : Text) (r : State M × Outcome Bool) → (note_parsed env uri r).0.cache ≡ r.0.cache
  unfolding note_parsed
  note_parsed-cache uri (s, ok b) = ground arith
  note_parsed-cache uri (s, err _) = refl
  note_parsed-cache uri (s, panicked) = refl
  note_parsed-cache uri (s, unfinished) = refl

  put_module-contents :
      (s : State M) (u : Text) (m : M) (o : Outcome (Unit {0}))
      → (put_module env s u m o).0.cache.file_contents ≡ s.cache.file_contents
  put_module-contents s u m o = ap (λ c. c.file_contents) (put_module-cache env s u m o)

  take_parsed-contents :
      (s : State M) (uri t : Text) (p : Parsed M)
      → (take_parsed env s uri t p).0.cache.file_contents ≡ s.cache.file_contents
  unfolding take_parsed set_parse_errors set_module set_successful_parse_line_count
  take_parsed-contents s uri t (parsed m) =
      put_module-contents (record s { cache = cached_module env s.cache uri t m }) uri m
        (env.store_module m)
  take_parsed-contents s uri t (failed []) = refl
  take_parsed-contents s uri t (failed (_ ∷ _)) = refl
  take_parsed-contents s uri t (unknown _) = refl

  update_parse-contents :
      (s : State M) (uri : Text)
      → (update_parse env s uri).0.cache.file_contents ≡ s.cache.file_contents
  unfolding update_parse get_file_contents get
  update_parse-contents s uri = elim (Option-cases (lookup uri s.cache.file_contents)) [
    | inl missing ↦ rw (missing, update_parse) refl
    | inr (t, found) ↦ rw (found, update_parse) (take_parsed-contents s uri t (parse_uri env uri t))
  ]

  seq-cache :
      (r : State M × Outcome (Unit {0})) (k : State M → State M × Outcome (Unit {0}))
      → ((s : State M) → (k s).0.cache ≡ s.cache)
      → (seq r k).0.cache ≡ r.0.cache
  seq-cache (s, ok _) k h = h s
  seq-cache (s, err _) k h = refl
  seq-cache (s, panicked) k h = refl
  seq-cache (s, unfinished) k h = refl

  pub parse_and_lint-cache :
      (s : State M) (uri reason : Text)
      → (parse_and_lint env s uri reason).0.cache ≡ (update_parse env s uri).0.cache
  unfolding parse_and_lint
  parse_and_lint-cache s uri reason =
      seq-cache (note_parsed env uri (update_parse env s uri)) (ask_to_lint env reason) (λ s'. refl)
      ∙ note_parsed-cache uri (update_parse env s uri)

  seq-contents :
      (r : State M × Outcome (Unit {0})) (k : State M → State M × Outcome (Unit {0}))
      → ((s : State M) → (k s).0.cache.file_contents ≡ s.cache.file_contents)
      → (seq r k).0.cache.file_contents ≡ r.0.cache.file_contents
  seq-contents (s, ok _) k h = h s
  seq-contents (s, err _) k h = refl
  seq-contents (s, panicked) k h = refl
  seq-contents (s, unfinished) k h = refl

  parse_and_lint-contents :
      (s : State M) (uri reason : Text)
      → (parse_and_lint env s uri reason).0.cache.file_contents ≡ s.cache.file_contents
  parse_and_lint-contents s uri reason =
      ap (λ c. c.file_contents) (parse_and_lint-cache s uri reason) ∙ update_parse-contents s uri

  seq-eq-ok :
      (r : State M × Outcome (Unit {0})) (k : State M → State M × Outcome (Unit {0}))
      → (seq r k).1 ≡ ok tt
      → (r.1 ≡ ok tt) × (seq r k ≡ k r.0)
  seq-eq-ok (s, ok _) k h = (refl, refl)
  seq-eq-ok (s, err _) k h = cc
  seq-eq-ok (s, panicked) k h = cc
  seq-eq-ok (s, unfinished) k h = cc

  set_contents-lookup :
      (c : Cache M) (uri t u : Text)
      → lookup u (set_file_contents c uri t).file_contents
        ≡ (if uri == u then some t else lookup u c.file_contents)
  unfolding set_file_contents set_key
  set_contents-lookup c uri t u = lookup-insert uri u t c.file_contents

  -- What the cache has of any file once one was read back.
  abbrev IsBack : Dict Text Text → Text → Cache M → Cache M × Outcome (Bool × Text) → Type 0
  IsBack disk uri c (c', ok _) =
      (t : Text) × (lookup (to_path uri) disk ≡ some t)
      × ((u : Text)
          → lookup u c'.file_contents ≡ (if uri == u then some t else lookup u c.file_contents))
  IsBack disk uri c (c', err _) = Unit
  IsBack disk uri c (c', panicked) = Unit
  IsBack disk uri c (c', unfinished) = Unit

  paired : Cache M × (Bool × Text) → Cache M × Outcome (Bool × Text)
  paired (c, a) = (c, ok a)

  update_with-IsBack :
      (disk : Dict Text Text) (c : Cache M) (uri t : Text) (o : Option Text)
      → lookup (to_path uri) disk ≡ some t
      → lookup uri c.file_contents ≡ o
      → IsBack disk uri c (paired (update_with c uri t o))
  unfolding update_with paired
  update_with-IsBack disk c uri t none found now = (t, found, λ u. set_contents-lookup c uri t u)
  update_with-IsBack disk c uri t (some old) found now = elim (Bool-cases (old == t)) [
    | inl same ↦
        rw (same, update_with)
          (
            t,
            found,
            λ u. elim (Bool-cases (uri == u)) [
              | inl here ↦
                  let e = ap (λ x. lookup x c.file_contents) ((eq_iff uri u).0 here) in
                  let e' : old ≡ t = (eq_iff old t).0 same in
                  rw here (sym e ∙ now ∙ ap (λ x. some x) e')
              | inr apart ↦ rw apart refl
            ],
          )
    | inr changed ↦ rw (changed, update_with) (t, found, λ u. set_contents-lookup c uri t u)
  ]

  from_disk-IsBack :
      (disk : Dict Text Text) (c : Cache M) (uri : Text)
      → IsBack disk uri c (update_for_uri_from_disk disk c uri (to_path uri))
  unfolding update_for_uri_from_disk get_file_contents get paired
  from_disk-IsBack disk c uri = elim (Option-cases (lookup (to_path uri) disk)) [
    | inl missing ↦ rw (missing, update_for_uri_from_disk) tt
    | inr (t, found) ↦
        rw (found, update_for_uri_from_disk)
          (update_with-IsBack disk c uri t (lookup uri c.file_contents) found refl)
  ]

  created-lookup :
      (disk : Dict Text Text) (s : State M) (uri : Text) (r : Cache M × Outcome (Bool × Text))
      → IsBack disk uri s.cache r
      → (created env (read_back env s r) uri).1 ≡ ok tt
      → (t : Text) × (lookup (to_path uri) disk ≡ some t)
        × ((u : Text)
            → lookup u (created env (read_back env s r) uri).0.cache.file_contents
              ≡ (if uri == u then some t else lookup u s.cache.file_contents))
  unfolding created
  created-lookup disk s uri (c, ok (b, t)) back h =
      let (t', on_disk, contents) = back in
      let kept =
        seq-contents
          (parse_and_lint env (record s { cache = c }) uri (codes "textDocument/didCreate"))
          (ask_for_template env uri) (λ s'. refl)
        ∙ parse_and_lint-contents (record s { cache = c }) uri (codes "textDocument/didCreate") in
      (t', on_disk, λ u. ap (λ x. lookup u x) kept ∙ contents u)
  created-lookup disk s uri (c, err e) back h = cc
  created-lookup disk s uri (c, panicked) back h = cc
  created-lookup disk s uri (c, unfinished) back h = cc

  -- The contents of a file in the cache are those on the disk.
  abbrev IsOnDisk : Dict Text Text → Text → Cache M → Type 0
  IsOnDisk disk u c =
      (t : Text) × (lookup (to_path u) disk ≡ some t) × (lookup u c.file_contents ≡ some t)

  seq-1 :
      (r : State M × Outcome (Unit {0})) (k : State M → State M × Outcome (Unit {0}))
      → (seq r k).1 ≡ ok tt
      → (k r.0).1 ≡ ok tt
  seq-1 r k h = ap (λ x. x.1) (sym (seq-eq-ok r k h).1) ∙ h

  still :
      (disk : Dict Text Text) (uri u t t' : Text) (now : Option Text)
      → lookup (to_path uri) disk ≡ some t'
      → lookup (to_path u) disk ≡ some t
      → now ≡ some t
      → (if uri == u then some t' else now) ≡ some t
  still disk uri u t t' now p q there = elim (Bool-cases (uri == u)) [
    | inl same ↦ rw same (sym p ∙ ap (λ x. lookup (to_path x) disk) ((eq_iff uri u).0 same) ∙ q)
    | inr apart ↦ rw apart there
  ]

  -- A file that has the contents of the disk keeps them.
  create_files-kept :
      (disk : Dict Text Text) (s : State M) (uris : List Text) (u : Text)
      → (create_files env disk s uris).1 ≡ ok tt
      → IsOnDisk disk u s.cache
      → IsOnDisk disk u (create_files env disk s uris).0.cache
  unfolding create_files
  create_files-kept disk s [] u h on = on
  create_files-kept disk s (uri ∷ uris) u h (t, on_disk, there) =
      let r = created env (from_disk env disk s uri) uri in
      let (done, e) = seq-eq-ok r (λ s'. create_files env disk s' uris) h in
      let (t', on_disk', contents) =
        created-lookup disk s uri (update_for_uri_from_disk disk s.cache uri (to_path uri))
          (from_disk-IsBack disk s.cache uri) done in
      subst (λ x. IsOnDisk disk u x.0.cache) (sym e)
        (create_files-kept disk r.0 uris u (seq-1 r (λ s'. create_files env disk s' uris) h) (
          t,
          on_disk,
          contents u
              ∙ still disk uri u t t' (lookup u s.cache.file_contents) on_disk' on_disk there,
        ))

  create_files-loads :
      (disk : Dict Text Text) (s : State M) (uris : List Text) (u : Text)
      → (create_files env disk s uris).1 ≡ ok tt
      → contains uris u ≡ true
      → IsOnDisk disk u (create_files env disk s uris).0.cache
  unfolding create_files contains
  create_files-loads disk s [] u h k = absurd (ground (arith, k))
  create_files-loads disk s (uri ∷ uris) u h k =
      let r = created env (from_disk env disk s uri) uri in
      let (done, e) = seq-eq-ok r (λ s'. create_files env disk s' uris) h in
      let (t', on_disk', contents) =
        created-lookup disk s uri (update_for_uri_from_disk disk s.cache uri (to_path uri))
          (from_disk-IsBack disk s.cache uri) done in
      let rest = seq-1 r (λ s'. create_files env disk s' uris) h in
      subst (λ x. IsOnDisk disk u x.0.cache) (sym e)
        (elim (Bool-cases (uri == u)) [
          | inl same ↦
              let e' = (eq_iff uri u).0 same in
              create_files-kept disk r.0 uris u rest (
                t',
                ap (λ x. lookup (to_path x) disk) (sym e') ∙ on_disk',
                contents u ∙ rw same refl,
              )
          | inr apart ↦ create_files-loads disk r.0 uris u rest (ground (arith, k, apart))
        ])

  -- When the handler of created files ends without an error, and the first file is not ignored, then
  -- every file of the notification, also one that is ignored, is on the disk and has its contents in
  -- the cache of the files that are linted.
  pub did_create_files_loads :
      (disk : Dict Text Text) (s : State M) (uri : Text) (uris : List Text) (u : Text)
      → ignore_uri env uri ≡ false
      → (did_create_files env disk s (uri ∷ uris)).1 ≡ ok tt
      → contains (uri ∷ uris) u ≡ true
      → (t : Text) × (lookup (to_path u) disk ≡ some t)
        × (get_file_contents (did_create_files env disk s (uri ∷ uris)).0.cache u ≡ some t)
  unfolding did_create_files get_file_contents get
  did_create_files_loads disk s uri uris u seen h k =
      let e : did_create_files env disk s (uri ∷ uris) ≡ create_files env disk s (uri ∷ uris) =
        rw (seen, did_create_files) refl in
      subst (λ x. IsOnDisk disk u x.0.cache) (sym e)
        (create_files-loads disk s (uri ∷ uris) u (ap (λ x. x.1) (sym e) ∙ h) k)
