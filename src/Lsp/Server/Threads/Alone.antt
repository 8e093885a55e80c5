-- ===== src/Lsp/Server/Threads/Alone.antt =====
-- internal/lsp/server.go: a thread that no other interrupts does what the handler as a function does.
use regal.Base.{
  sym, subst, inl, inr, Option, List, [], ◌∷◌, append-nil, Bool-cases, Option-cases, Text, codes,
  text_eq,
}
use regal.Base.Dict.{lookup}
use regal.Lsp.Concurrent.{get}
use regal.Lsp.Types.{Range}
use regal.Lsp.Cache.{Cache, set_file_contents, get_file_contents}
use regal.Lsp.Diagnostics.{error_diagnostics}
use regal.Lsp.Server.{
  Env, State, Parsed, parsed, failed, unknown, ignore_uri, parse_uri, take_parsed, update_parse,
  cached_module,
}
use regal.Lsp.Server.Handlers.{did_change, did_change_to, set_maybe_ignored_contents, last_contents}
use regal.Lsp.Server.Handlers.Loaded.{parse_and_lint-cache}
use regal.Lsp.Server.Fresh.{put_module-cache}
use regal.Lsp.Server.Threads.{Call, parses, stores, perform, continued, changed, calls_of}

module _ {M G : Type 0} (env : Env M G) where
  -- The calls of a thread one behind the other, from a cache to a cache.
  pub data Runs : Cache M → List (Call M) → Cache M → Type 0 where
    ends : (c : Cache M) → Runs c [] c
    calls :
        (c c' : Cache M) (a : Call M) (rest : List (Call M))
        → Runs (perform env a c).0 (continued (perform env a c).1 rest) c'
        → Runs c (a ∷ rest) c'

  stores-Runs :
      (s : State M) (uri text : Text) (p : Parsed M)
      → Runs s.cache (stores uri text p) (take_parsed env s uri text p).0.cache
  unfolding perform take_parsed error_diagnostics
  stores-Runs s uri text (parsed m) =
      subst (Runs s.cache (stores uri text (parsed m)))
        (sym (
          put_module-cache env (record s { cache = cached_module env s.cache uri text m }) uri m
            (env.store_module m)))
        (calls _ _ _ _ (calls _ _ _ _ (calls _ _ _ _ (ends _))))
  stores-Runs s uri text (failed []) = calls _ _ _ _ (ends _)
  stores-Runs s uri text (failed (x ∷ xs)) = calls _ _ _ _ (ends _)
  stores-Runs s uri text (unknown _) = ends s.cache

  parses-Runs :
      (s : State M) (uri : Text) → Runs s.cache (parses uri ∷ []) (update_parse env s uri).0.cache
  unfolding perform update_parse get_file_contents get
  parses-Runs s uri = calls _ _ _ _ (elim (Option-cases (lookup uri s.cache.file_contents)) [
    | inl missing ↦ rw (missing, update_parse) (ends s.cache)
    | inr (text, found) ↦
        rw (found, update_parse)
          (subst (λ x. Runs s.cache x (take_parsed env s uri text (parse_uri env uri text)).0.cache)
            (sym (append-nil _)) (stores-Runs s uri text (parse_uri env uri text)))
  ])

  -- Alone, the thread of a change leaves the cache that `handleTextDocumentDidChange` leaves.
  pub did_change-Runs :
      (s : State M) (uri : Text) (changes : List (Option Range × Text))
      → Runs s.cache (calls_of env (changed uri changes)) (did_change env s uri changes).0.cache
  unfolding calls_of did_change did_change_to set_maybe_ignored_contents perform
  did_change-Runs s uri [] = ends s.cache
  did_change-Runs s uri (c ∷ changes) =
      let text = last_contents (c ∷ changes) [] in
      elim (Bool-cases (ignore_uri env uri)) [
        | inl skip ↦ rw (skip, did_change) (calls _ _ _ _ (ends _))
        | inr seen ↦
            rw (seen, did_change)
              (calls _ _ _ _ (
                subst (Runs (set_file_contents s.cache uri text) (parses uri ∷ []))
                  (sym (
                    parse_and_lint-cache env
                      (record s { cache = set_file_contents s.cache uri text }) uri
                      (codes "textDocument/didChange")))
                  (parses-Runs (record s { cache = set_file_contents s.cache uri text }) uri)))
      ]
