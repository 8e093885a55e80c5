-- ===== src/Lsp/Server/Handlers/Deleted.antt =====
-- internal/lsp/server.go: what `handleWorkspaceDidDeleteFiles` leaves in the store.
use regal.Base.{
  ◌≡◌, refl, sym, ◌∙◌, subst, ◌⊎◌, inl, inr, true, false, none, List, [], ◌∷◌, arith, Bool-cases,
  ◌==◌, eq_iff, contains, Text, text_eq, nat_eq,
}
use regal.Base.Dict.{lookup-erase}
use regal.Lsp.Concurrent.{delete_key, get}
use regal.Lsp.Cache.{Cache, delete, get_module}
use regal.Lsp.Server.{Env, State, ignore_uri, send_file_diagnostics}
use regal.Lsp.Server.Handlers.{delete_and_send, did_delete_files}

module _ {M G : Type 0} (env : Env M G) where
  delete_and_send-kept :
      (s : State M) (uri : Text)
      → ((delete_and_send s uri).cache ≡ delete s.cache uri)
        × ((delete_and_send s uri).stored_modules ≡ s.stored_modules)
        × ((delete_and_send s uri).stored_refs ≡ s.stored_refs)
  unfolding delete_and_send send_file_diagnostics
  delete_and_send-kept s uri = (ground arith, ground arith, ground arith)

  delete-none :
      (c : Cache M) (uri u : Text)
      → (uri == u) ≡ true ⊎ (get_module c u ≡ none)
      → get_module (delete c uri) u ≡ none
  unfolding delete delete_key get_module get
  delete-none c uri u (inl h) = ground (arith, lookup-erase uri u c.modules, h)
  delete-none c uri u (inr h) = ground (arith, lookup-erase uri u c.modules, h)

  none_kept :
      (s : State M) (uris : List Text) (u : Text)
      → get_module s.cache u ≡ none
      → get_module (did_delete_files env s uris).cache u ≡ none
  unfolding did_delete_files
  none_kept s [] u h = h
  none_kept s (uri ∷ uris) u h = elim (Bool-cases (ignore_uri env uri)) [
    | inl skip ↦ rw (skip, did_delete_files) (none_kept s uris u h)
    | inr seen ↦
        rw (seen, did_delete_files)
          (none_kept (delete_and_send s uri) uris u (
            subst (λ x. get_module x u ≡ none) (sym (delete_and_send-kept s uri).0)
              (delete-none s.cache uri u (inr h))))
  ]

  did_delete_files-gone :
      (s : State M) (uris : List Text) (u : Text)
      → ignore_uri env u ≡ false
      → contains uris u ≡ true
      → get_module (did_delete_files env s uris).cache u ≡ none
  unfolding did_delete_files contains
  did_delete_files-gone s [] u h k = absurd (ground (arith, k))
  did_delete_files-gone s (uri ∷ uris) u h k = elim (Bool-cases (uri == u)) [
    | inl same ↦
        let e : uri ≡ u = (eq_iff uri u).0 same in
        let seen : ignore_uri env uri ≡ false = subst (λ x. ignore_uri env x ≡ false) (sym e) h in
        rw (seen, did_delete_files)
          (none_kept (delete_and_send s uri) uris u (
            subst (λ x. get_module x u ≡ none) (sym (delete_and_send-kept s uri).0)
              (delete-none s.cache uri u (inl same))))
    | inr apart ↦
        let k' : contains uris u ≡ true = ground (arith, k, apart) in
        elim (Bool-cases (ignore_uri env uri)) [
          | inl skip ↦ rw (skip, did_delete_files) (did_delete_files-gone s uris u h k')
          | inr seen ↦
              rw (seen, did_delete_files)
                (did_delete_files-gone (delete_and_send s uri) uris u h k')
        ]
  ]

  did_delete_files-store :
      (s : State M) (uris : List Text)
      → ((did_delete_files env s uris).stored_modules ≡ s.stored_modules)
        × ((did_delete_files env s uris).stored_refs ≡ s.stored_refs)
  unfolding did_delete_files
  did_delete_files-store s [] = (refl, refl)
  did_delete_files-store s (uri ∷ uris) =
      let (_, e, r) = delete_and_send-kept s uri in
      let (e1, r1) = did_delete_files-store (delete_and_send s uri) uris in
      let (e2, r2) = did_delete_files-store s uris in
      elim (Bool-cases (ignore_uri env uri)) [
        | inl skip ↦ rw (skip, did_delete_files) (e2, r2)
        | inr seen ↦ rw (seen, did_delete_files) (e1 ∙ e, r1 ∙ r)
      ]

  -- When a file that is not ignored is deleted, its module leaves the cache, but the modules and the
  -- references in the store, the deleted file's among them, stay as they were.
  pub did_delete_files_stores :
      (s : State M) (uris : List Text) (u : Text)
      → ignore_uri env u ≡ false
      → contains uris u ≡ true
      → (get_module (did_delete_files env s uris).cache u ≡ none)
        × ((did_delete_files env s uris).stored_modules ≡ s.stored_modules)
        × ((did_delete_files env s uris).stored_refs ≡ s.stored_refs)
  did_delete_files_stores s uris u h k =
      let (e, r) = did_delete_files-store s uris in (did_delete_files-gone s uris u h k, e, r)
