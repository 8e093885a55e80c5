-- ===== src/Lsp/Server/Fresh/FromDisk.antt =====
-- internal/lsp/server.go: the handlers that read the disk, and the module that the cache has for a file.
use regal.Base.{
  ◌≡◌, refl, sym, ap, subst, inl, inr, Bool, true, false, ◌&&◌, Option, none, some, List, [], ◌∷◌,
  arith, Bool-cases, Option-cases, ◌==◌, eq_iff, eq_refl, Text, codes, Outcome, ok, err, panicked,
  unfinished, text_eq, nat_eq,
}
use regal.Base.Dict.{Dict, lookup, lookup-insert}
use regal.Lsp.Concurrent.{set_key, get}
use regal.Lsp.Uri.{to_path}
use regal.Lsp.Cache.{
  Cache, set_file_contents, get_file_contents, update_with, update_for_uri_from_disk,
}
use regal.Lsp.Server.{Env, State, ignore_uri}
use regal.Lsp.Server.Handlers.{
  ask_for_template, parse_and_lint, read_back, from_disk, created, create_files, did_create_files,
  delete_and_send, renamed_content, renamed, rename_file, did_rename_files,
}
use regal.Lsp.Server.Fresh.{Same, IsFresh, IsFreshBut, FitsAt-Same}
use regal.Lsp.Server.Fresh.Handled.{
  seq-IsFresh, set_and_parse-IsFresh, parse_and_lint-IsFresh, delete-FitsAt, delete_and_send-cache,
  but,
}

abbrev is_ok : {A : Type 0} → Outcome A → Bool
is_ok (ok _) = true
is_ok (err _) = false
is_ok panicked = false
is_ok unfinished = false

-- What reading a file's contents back from the disk leaves.
pub record IsRead {M : Type 0} (uri : Text) (c : Cache M) (r : Cache M × Outcome (Bool × Text))
    : Type 0 where
  pub others : (u : Text) → (uri == u) ≡ false → Same u c r.0
  pub present : (a : Bool × Text) → r.1 ≡ ok a → lookup uri r.0.file_contents ≡ none → ⊥
  pub refused : is_ok r.1 ≡ false → r.0 ≡ c

module _ {M G : Type 0} (env : Env M G) where
  set_contents-Same :
      (c : Cache M) (uri t u : Text) → (uri == u) ≡ false → Same u c (set_file_contents c uri t)
  unfolding set_file_contents set_key
  set_contents-Same c uri t u apart =
      (ground (arith, lookup-insert uri u t c.file_contents, apart), refl, refl)

  set_contents-present :
      (c : Cache M) (uri t : Text) → lookup uri (set_file_contents c uri t).file_contents ≡ none → ⊥
  unfolding set_file_contents set_key
  set_contents-present c uri t h =
      ground (arith, lookup-insert uri uri t c.file_contents, eq_refl uri, h)

  Same-refl : (u : Text) (c : Cache M) → Same u c c
  Same-refl u c = (refl, refl, refl)

  answered : Cache M × (Bool × Text) → Cache M × Outcome (Bool × Text)
  answered (c, a) = (c, ok a)

  update_with-IsRead :
      (c : Cache M) (uri t : Text) (o : Option Text)
      → lookup uri c.file_contents ≡ o
      → IsRead uri c (answered (update_with c uri t o))
  unfolding update_with answered
  update_with-IsRead c uri t none found = record {
    others = λ u apart. set_contents-Same c uri t u apart;
    present = λ a h. set_contents-present c uri t;
    refused = λ h. absurd (ground (arith, h));
  }
  update_with-IsRead c uri t (some t') found = elim (Bool-cases (t' == t)) [
    | inl same ↦
        rw (same, update_with)
          (record {
            others = λ u apart. Same-refl u c;
            present = λ a h missing. cc;
            refused = λ h. refl;
          })
    | inr changed ↦
        rw (changed, update_with)
          (record {
            others = λ u apart. set_contents-Same c uri t u apart;
            present = λ a h. set_contents-present c uri t;
            refused = λ h. absurd (ground (arith, h));
          })
  ]

  from_disk-IsRead :
      (disk : Dict Text Text) (c : Cache M) (uri path : Text)
      → IsRead uri c (update_for_uri_from_disk disk c uri path)
  unfolding update_for_uri_from_disk get_file_contents get answered
  from_disk-IsRead disk c uri path = elim (Option-cases (lookup path disk)) [
    | inl missing ↦
        rw (missing, update_for_uri_from_disk)
          (record { others = λ u apart. Same-refl u c; present = λ a h. cc; refused = λ h. refl })
    | inr (t, found) ↦
        rw (found, update_for_uri_from_disk)
          (update_with-IsRead c uri t (lookup uri c.file_contents) refl)
  ]

  created-IsFresh :
      (s : State M) (uri : Text) (r : Cache M × Outcome (Bool × Text))
      → IsRead uri s.cache r
      → IsFresh env s.cache
      → IsFresh env (created env (read_back env s r) uri).0.cache
  unfolding created
  created-IsFresh s uri (c, ok (b, t)) read h =
      seq-IsFresh env
        (parse_and_lint env (record s { cache = c }) uri (codes "textDocument/didCreate"))
        (ask_for_template env uri)
        (parse_and_lint-IsFresh env (record s { cache = c }) uri (codes "textDocument/didCreate")
          (λ u watched apart. FitsAt-Same env u s.cache c (read.others u apart) (h u watched))
          (λ _ missing. absurd (read.present (b, t) refl missing)))
        (λ s' fresh. fresh)
  created-IsFresh s uri (c, err e) read h = subst (IsFresh env) (sym (read.refused refl)) h
  created-IsFresh s uri (c, panicked) read h = subst (IsFresh env) (sym (read.refused refl)) h
  created-IsFresh s uri (c, unfinished) read h = subst (IsFresh env) (sym (read.refused refl)) h

  create_files-IsFresh :
      (disk : Dict Text Text) (s : State M) (uris : List Text)
      → IsFresh env s.cache
      → IsFresh env (create_files env disk s uris).0.cache
  unfolding create_files
  create_files-IsFresh disk s [] h = h
  create_files-IsFresh disk s (uri ∷ uris) h =
      seq-IsFresh env (created env (from_disk env disk s uri) uri)
        (λ s'. create_files env disk s' uris)
        (created-IsFresh s uri (update_for_uri_from_disk disk s.cache uri (to_path uri))
          (from_disk-IsRead disk s.cache uri (to_path uri)) h)
        (λ s' fresh. create_files-IsFresh disk s' uris fresh)

  pub did_create_files-IsFresh :
      (disk : Dict Text Text) (s : State M) (uris : List Text)
      → IsFresh env s.cache
      → IsFresh env (did_create_files env disk s uris).0.cache
  unfolding did_create_files
  did_create_files-IsFresh disk s [] h = h
  did_create_files-IsFresh disk s (uri ∷ uris) h = elim (Bool-cases (ignore_uri env uri)) [
    | inl skip ↦ rw (skip, did_create_files) h
    | inr seen ↦ rw (seen, did_create_files) (create_files-IsFresh disk s (uri ∷ uris) h)
  ]

  -- The old file is taken out, whether the new one is fresh or not.
  deleted-IsFreshBut :
      (s : State M) (old_uri new_uri : Text)
      → IsFreshBut env new_uri s.cache
      → IsFreshBut env new_uri (delete_and_send s old_uri).cache
  deleted-IsFreshBut s old_uri new_uri h =
      subst (IsFreshBut env new_uri) (sym (delete_and_send-cache env s old_uri))
        (λ u watched apart. delete-FitsAt env s.cache old_uri u (h u watched apart))

  all_but_ignored :
      (c : Cache M) (uri : Text) → ignore_uri env uri ≡ true → IsFreshBut env uri c → IsFresh env c
  all_but_ignored c uri skip h u watched = elim (Bool-cases (uri == u)) [
    | inl same ↦ absurd (ground (arith, ap (ignore_uri env) ((eq_iff uri u).0 same), skip, watched))
    | inr apart ↦ h u watched apart
  ]

  renamed-IsFresh :
      (s : State M) (t old_uri new_uri : Text)
      → IsFreshBut env new_uri s.cache
      → IsFresh env (renamed env (s, ok t) old_uri new_uri).0.cache
  unfolding renamed
  renamed-IsFresh s t old_uri new_uri h =
      let h1 = deleted-IsFreshBut s old_uri new_uri h in
      elim (Bool-cases (ignore_uri env new_uri)) [
        | inl skip ↦
            rw (skip, renamed) (all_but_ignored (delete_and_send s old_uri).cache new_uri skip h1)
        | inr seen ↦
            rw (seen, renamed)
              (seq-IsFresh env _ (ask_for_template env new_uri)
                (set_and_parse-IsFresh env (delete_and_send s old_uri) new_uri t
                  (codes "textDocument/didRename") h1)
                (λ s' fresh. fresh))
      ]

  read-renamed-IsFresh :
      (s : State M) (old_uri new_uri : Text) (r : Cache M × Outcome (Bool × Text))
      → IsRead new_uri s.cache r
      → IsFresh env s.cache
      → IsFresh env (renamed env (read_back env s r) old_uri new_uri).0.cache
  unfolding renamed
  read-renamed-IsFresh s old_uri new_uri (c, ok (b, t)) read h =
      renamed-IsFresh (record s { cache = c }) t old_uri new_uri
        (λ u watched apart. FitsAt-Same env u s.cache c (read.others u apart) (h u watched))
  read-renamed-IsFresh s old_uri new_uri (c, err e) read h =
      subst (IsFresh env) (sym (read.refused refl)) h
  read-renamed-IsFresh s old_uri new_uri (c, panicked) read h =
      subst (IsFresh env) (sym (read.refused refl)) h
  read-renamed-IsFresh s old_uri new_uri (c, unfinished) read h =
      subst (IsFresh env) (sym (read.refused refl)) h

  from_content-IsFresh :
      (disk : Dict Text Text) (s : State M) (old_uri new_uri : Text) (o : Option Text)
      → IsFresh env s.cache
      → IsFresh env (renamed env (renamed_content env disk s new_uri o) old_uri new_uri).0.cache
  from_content-IsFresh disk s old_uri new_uri none h =
      read-renamed-IsFresh s old_uri new_uri
        (update_for_uri_from_disk disk s.cache new_uri (to_path new_uri))
        (from_disk-IsRead disk s.cache new_uri (to_path new_uri)) h
  from_content-IsFresh disk s old_uri new_uri (some []) h =
      read-renamed-IsFresh s old_uri new_uri
        (update_for_uri_from_disk disk s.cache new_uri (to_path new_uri))
        (from_disk-IsRead disk s.cache new_uri (to_path new_uri)) h
  from_content-IsFresh disk s old_uri new_uri (some (c ∷ t)) h =
      renamed-IsFresh s (c ∷ t) old_uri new_uri (but env s.cache new_uri h)

  rename_file-IsFresh :
      (disk : Dict Text Text) (s : State M) (old_uri new_uri : Text)
      → IsFresh env s.cache
      → IsFresh env (rename_file env disk s old_uri new_uri).0.cache
  unfolding rename_file
  rename_file-IsFresh disk s old_uri new_uri h =
      elim (Bool-cases (ignore_uri env old_uri && ignore_uri env new_uri)) [
        | inl skip ↦ rw (skip, rename_file) h
        | inr seen ↦
            rw (seen, rename_file)
              (from_content-IsFresh disk s old_uri new_uri (get_file_contents s.cache old_uri) h)
      ]

  pub did_rename_files-IsFresh :
      (disk : Dict Text Text) (s : State M) (files : List (Text × Text))
      → IsFresh env s.cache
      → IsFresh env (did_rename_files env disk s files).0.cache
  unfolding did_rename_files
  did_rename_files-IsFresh disk s [] h = h
  did_rename_files-IsFresh disk s ((old_uri, new_uri) ∷ files) h =
      seq-IsFresh env (rename_file env disk s old_uri new_uri)
        (λ s'. did_rename_files env disk s' files) (rename_file-IsFresh disk s old_uri new_uri h)
        (λ s' fresh. did_rename_files-IsFresh disk s' files fresh)
