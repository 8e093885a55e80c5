-- ===== src/Lsp/Server/Fresh/Handled.antt =====
-- internal/lsp/server.go: the handlers, and the module that the cache has for a file.
use regal.Base.{
  ◌≡◌, refl, sym, subst, inl, inr, Bool, true, false, ◌&&◌, Option, none, List, [], ◌∷◌, arith,
  Bool-cases, Option-cases, ◌==◌, eq_refl, Text, codes, Outcome, ok, err, panicked, unfinished,
  text_eq, nat_eq,
}
use regal.Base.Dict.{lookup, lookup-insert, lookup-erase}
use regal.Lsp.Concurrent.{set_key, delete_key}
use regal.Lsp.Types.{Range}
use regal.Lsp.Cache.{Cache, set_file_contents, set_ignored_file_contents, delete}
use regal.Lsp.Server.{Env, State, ignore_uri, update_parse, send_file_diagnostics}
use regal.Lsp.Server.Handlers.{
  note_watched, seq_watched, watch_files, seq, note_parsed, ask_to_lint, parse_and_lint,
  open_contents, did_open, did_close, did_change, did_change_to, set_maybe_ignored_contents,
  last_contents, delete_and_send, did_delete_files,
}
use regal.Lsp.Server.Fresh.{
  FitsAt, IsFresh, IsFreshBut, FitsAt-Same, FitsAt-of, update_parse-IsFresh,
}

module _ {M G : Type 0} (env : Env M G) where
  pub seq-IsFresh :
      (r : State M × Outcome (Unit {0})) (k : State M → State M × Outcome (Unit {0}))
      → IsFresh env r.0.cache
      → ((s : State M) → IsFresh env s.cache → IsFresh env (k s).0.cache)
      → IsFresh env (seq r k).0.cache
  seq-IsFresh (s, ok _) k h step = step s h
  seq-IsFresh (s, err _) k h step = h
  seq-IsFresh (s, panicked) k h step = h
  seq-IsFresh (s, unfinished) k h step = h

  note_parsed-IsFresh :
      (uri : Text) (r : State M × Outcome Bool)
      → IsFresh env r.0.cache
      → IsFresh env (note_parsed env uri r).0.cache
  unfolding note_parsed
  note_parsed-IsFresh uri (s, ok parse_success) h =
      elim (Bool-cases (env.server_testing && parse_success)) [
        | inl skip ↦ rw (skip, note_parsed) h
        | inr seen ↦ rw (seen, note_parsed) h
      ]
  note_parsed-IsFresh uri (s, err _) h = h
  note_parsed-IsFresh uri (s, panicked) h = h
  note_parsed-IsFresh uri (s, unfinished) h = h

  pub parse_and_lint-IsFresh :
      (s : State M) (uri reason : Text)
      → IsFreshBut env uri s.cache
      → (ignore_uri env uri ≡ false
          → lookup uri s.cache.file_contents ≡ none
          → FitsAt env uri s.cache)
      → IsFresh env (parse_and_lint env s uri reason).0.cache
  unfolding parse_and_lint
  parse_and_lint-IsFresh s uri reason others h =
      seq-IsFresh (note_parsed env uri (update_parse env s uri)) (ask_to_lint env reason)
        (note_parsed-IsFresh uri (update_parse env s uri) (update_parse-IsFresh env s uri others h))
        (λ s' fresh. fresh)

  pub but : (c : Cache M) (uri : Text) → IsFresh env c → IsFreshBut env uri c
  but c uri h u watched apart = h u watched

  -- The contents of a file that is parsed next.
  set_file_contents-IsFreshBut :
      (c : Cache M) (uri t : Text)
      → IsFreshBut env uri c
      → IsFreshBut env uri (set_file_contents c uri t)
  unfolding set_file_contents set_key
  set_file_contents-IsFreshBut c uri t h u watched apart =
      FitsAt-Same env u c (set_file_contents c uri t)
        (ground (arith, lookup-insert uri u t c.file_contents, apart), refl, refl)
        (h u watched apart)

  set_file_contents-there :
      {A : Type 0} (c : Cache M) (uri t : Text)
      → lookup uri (set_file_contents c uri t).file_contents ≡ none
      → A
  unfolding set_file_contents set_key
  set_file_contents-there c uri t h =
      absurd (ground (arith, lookup-insert uri uri t c.file_contents, eq_refl uri, h))

  pub set_and_parse-IsFresh :
      (s : State M) (uri t reason : Text)
      → IsFreshBut env uri s.cache
      → IsFresh env
          (parse_and_lint env
            (record s { cache = set_file_contents s.cache uri t })
            uri
            reason).0.cache
  set_and_parse-IsFresh s uri t reason others =
      parse_and_lint-IsFresh (record s { cache = set_file_contents s.cache uri t }) uri reason
        (set_file_contents-IsFreshBut s.cache uri t others)
        (λ _ missing. set_file_contents-there s.cache uri t missing)

  set_ignored-IsFresh :
      (c : Cache M) (uri t : Text) → IsFresh env c → IsFresh env (set_ignored_file_contents c uri t)
  unfolding set_ignored_file_contents
  set_ignored-IsFresh c uri t h = h

  pub delete-FitsAt : (c : Cache M) (uri u : Text) → FitsAt env u c → FitsAt env u (delete c uri)
  unfolding delete delete_key
  delete-FitsAt c uri u h = elim (Bool-cases (uri == u)) [
    | inl same ↦
        FitsAt-of env u (delete c uri) (lookup u (delete c uri).file_contents) none
          (lookup u (delete c uri).diagnostics_parse_errors) refl
          (ground (arith, lookup-erase uri u c.modules, same)) refl tt
    | inr apart ↦
        FitsAt-Same env u c (delete c uri)
          (
            ground (arith, lookup-erase uri u c.file_contents, apart),
            ground (arith, lookup-erase uri u c.modules, apart),
            ground (arith, lookup-erase uri u c.diagnostics_parse_errors, apart),
          )
          h
  ]

  pub delete_and_send-cache :
      (s : State M) (uri : Text) → (delete_and_send s uri).cache ≡ delete s.cache uri
  unfolding delete_and_send send_file_diagnostics
  delete_and_send-cache s uri = ground arith

  pub did_open-IsFresh :
      (s : State M) (uri t : Text)
      → IsFresh env s.cache
      → IsFresh env (did_open env s uri t).0.cache
  unfolding did_open open_contents
  did_open-IsFresh s uri t h = elim (Bool-cases (ignore_uri env uri)) [
    | inl skip ↦ rw (skip, did_open) (set_ignored-IsFresh s.cache uri t h)
    | inr seen ↦
        rw (seen, did_open)
          (elim (Option-cases (lookup uri s.templating_files)) [
            | inl missing ↦
                rw (missing, open_contents)
                  (set_and_parse-IsFresh s uri t (codes "textDocument/didOpen") (but s.cache uri h))
            | inr (b, found) ↦
                rw (found, open_contents)
                  (parse_and_lint-IsFresh s uri (codes "textDocument/didOpen") (but s.cache uri h)
                    (λ watched _. h uri watched))
          ])
  ]

  pub did_close-IsFresh :
      (s : State M) (uri : Text) → IsFresh env s.cache → IsFresh env (did_close env s uri).0.cache
  unfolding did_close
  did_close-IsFresh s uri h = elim (Bool-cases (ignore_uri env uri)) [
    | inl skip ↦ rw (skip, did_close) (λ u watched. delete-FitsAt s.cache uri u (h u watched))
    | inr seen ↦ rw (seen, did_close) h
  ]

  pub did_change-IsFresh :
      (s : State M) (uri : Text) (changes : List (Option Range × Text))
      → IsFresh env s.cache
      → IsFresh env (did_change env s uri changes).0.cache
  unfolding did_change did_change_to set_maybe_ignored_contents
  did_change-IsFresh s uri [] h = h
  did_change-IsFresh s uri (c ∷ changes) h = elim (Bool-cases (ignore_uri env uri)) [
    | inl skip ↦
        rw (skip, did_change) (set_ignored-IsFresh s.cache uri (last_contents (c ∷ changes) []) h)
    | inr seen ↦
        rw (seen, did_change)
          (set_and_parse-IsFresh s uri (last_contents (c ∷ changes) [])
            (codes "textDocument/didChange") (but s.cache uri h))
  ]

  pub did_delete_files-IsFresh :
      (s : State M) (uris : List Text)
      → IsFresh env s.cache
      → IsFresh env (did_delete_files env s uris).cache
  unfolding did_delete_files
  did_delete_files-IsFresh s [] h = h
  did_delete_files-IsFresh s (uri ∷ uris) h = elim (Bool-cases (ignore_uri env uri)) [
    | inl skip ↦ rw (skip, did_delete_files) (did_delete_files-IsFresh s uris h)
    | inr seen ↦
        rw (seen, did_delete_files)
          (did_delete_files-IsFresh (delete_and_send s uri) uris (
            subst (IsFresh env) (sym (delete_and_send-cache s uri))
              (λ u watched. delete-FitsAt s.cache uri u (h u watched))))
  ]

  note_watched-IsFresh :
      (uri : Text) (r : State M × Outcome Bool) (changes : Bool)
      → IsFresh env r.0.cache
      → IsFresh env (note_watched env uri r changes).0.cache
  unfolding note_watched
  note_watched-IsFresh uri (s, ok parse_success) changes h =
      elim (Bool-cases (env.server_testing && parse_success)) [
        | inl tested ↦ rw (tested, note_watched) h
        | inr silent ↦ rw (silent, note_watched) h
      ]
  note_watched-IsFresh uri (s, err _) changes h = h
  note_watched-IsFresh uri (s, panicked) changes h = h
  note_watched-IsFresh uri (s, unfinished) changes h = h

  seq_watched-IsFresh :
      (r : State M × Outcome Bool) (k : State M → Bool → State M × Outcome (Unit {0}))
      → IsFresh env r.0.cache
      → ((s : State M) (changes : Bool) → IsFresh env s.cache → IsFresh env (k s changes).0.cache)
      → IsFresh env (seq_watched env r k).0.cache
  seq_watched-IsFresh (s, ok changes) k h step = step s changes h
  seq_watched-IsFresh (s, err _) k h step = h
  seq_watched-IsFresh (s, panicked) k h step = h
  seq_watched-IsFresh (s, unfinished) k h step = h

  pub watch_files-IsFresh :
      (s : State M) (uris : List Text) (changes : Bool)
      → IsFresh env s.cache
      → IsFresh env (watch_files env s uris changes).0.cache
  unfolding watch_files
  watch_files-IsFresh s [] true h = h
  watch_files-IsFresh s [] false h = h
  watch_files-IsFresh s (uri ∷ uris) changes h = elim (Bool-cases (ignore_uri env uri)) [
    | inl skip ↦ rw (skip, watch_files) (watch_files-IsFresh s uris changes h)
    | inr seen ↦
        rw (seen, watch_files)
          (seq_watched-IsFresh (note_watched env uri (update_parse env s uri) changes)
            (λ s' c. watch_files env s' uris c)
            (note_watched-IsFresh uri (update_parse env s uri) changes
              (update_parse-IsFresh env s uri (but s.cache uri h) (λ watched _. h uri watched)))
            (λ s' c fresh. watch_files-IsFresh s' uris c fresh))
  ]
