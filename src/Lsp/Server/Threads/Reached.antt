-- ===== src/Lsp/Server/Threads/Reached.antt =====
-- internal/lsp/server.go: the caches that the threads of the server can lead to.
use regal.Base.{
  inl, inr, true, false, ◌&&◌, Option, none, some, List, [], ◌∷◌, ◌++◌, Bool-cases, All, All-append,
  Text, text_eq,
}
use regal.Base.Dict.{lookup}
use regal.Lsp.Concurrent.{get}
use regal.Lsp.Cache.{Cache, new_cache, get_module, get_parse_errors}
use regal.Lsp.Server.{Env, ignore_uri}
use regal.Lsp.Server.Handlers.{last_contents}
use regal.Lsp.Server.Threads.{
  Call, delete_parts, perform, continued, World, create_calls, delete_calls, rename_calls,
  watch_calls, Notification, opened, closed, changed, created, deleted, renamed, watched, calls_of,
}
use regal.Lsp.Server.Threads.Given.{
  OnSome, FromText, FromErrors, IsFine, IsNew, IsGiven, perform-IsGiven, perform-IsFine,
  IsNew-IsFine,
}

module _ {M G : Type 0} (env : Env M G) (Given : Text → Type 0) where
  abbrev pub GivenFiles : List (Text × Option Text) → Type 0
  GivenFiles [] = Unit
  GivenFiles ((uri, text) ∷ files) = OnSome Given text × GivenFiles files

  abbrev pub GivenMoves : List ((Text × Text) × Option Text) → Type 0
  GivenMoves [] = Unit
  GivenMoves ((uris, text) ∷ files) = OnSome Given text × GivenMoves files

  -- The texts of the notification, and those that its handler reads from the disk, are given.
  abbrev pub AreGiven : Notification → Type 0
  AreGiven (opened uri text is_templating) = Given text
  AreGiven (closed uri) = Unit
  AreGiven (changed uri changes) = Given (last_contents changes [])
  AreGiven (created files) = GivenFiles files
  AreGiven (deleted uris) = Unit
  AreGiven (renamed files) = GivenMoves files
  AreGiven (watched uris) = Unit

  -- A handler starts on a notification, a worker or another handler starts on calls that parse nothing
  -- yet, or a thread makes its next call.
  pub data Reach : World M → Type 0 where
    begins : Reach (record { cache = new_cache; threads = [] })
    notifies :
        {w : World M}
        → Reach w
        → (n : Notification) → AreGiven n
        → Reach (record { cache = w.cache; threads = calls_of env n ∷ w.threads })
    works :
        {w : World M}
        → Reach w
        → (calls : List (Call M)) → All (IsNew env Given) calls
        → Reach (record { cache = w.cache; threads = calls ∷ w.threads })
    runs :
        (c : Cache M) (before after : List (List (Call M))) (a : Call M) (rest : List (Call M))
        → Reach (record { cache = c; threads = before ++ (a ∷ rest) ∷ after })
        → Reach (record {
          cache = (perform env a c).0;
          threads = before ++ continued (perform env a c).1 rest ∷ after;
        })

  delete_parts-IsFine :
      (uri : Text) (rest : List (Call M))
      → All (IsFine env Given) rest
      → All (IsFine env Given) (delete_parts uri ++ rest)
  delete_parts-IsFine uri rest h = (tt, (tt, (tt, (tt, (tt, (tt, h))))))

  create_calls-IsFine :
      (files : List (Text × Option Text))
      → GivenFiles files
      → All (IsFine env Given) (create_calls env files)
  create_calls-IsFine [] h = tt
  create_calls-IsFine ((uri, none) ∷ files) h = tt
  create_calls-IsFine ((uri, some text) ∷ files) (g, h) = (g, (tt, create_calls-IsFine files h))

  delete_calls-IsFine : (uris : List Text) → All (IsFine env Given) (delete_calls env uris)
  delete_calls-IsFine [] = tt
  delete_calls-IsFine (uri ∷ uris) = elim (Bool-cases (ignore_uri env uri)) [
    | inl skip ↦ rw skip (delete_calls-IsFine uris)
    | inr seen ↦
        rw seen (delete_parts-IsFine uri (delete_calls env uris) (delete_calls-IsFine uris))
  ]

  rename_calls-IsFine :
      (files : List ((Text × Text) × Option Text))
      → GivenMoves files
      → All (IsFine env Given) (rename_calls env files)
  rename_calls-IsFine [] h = tt
  rename_calls-IsFine (((old_uri, new_uri), on_disk) ∷ files) (g, h) =
      elim (Bool-cases (ignore_uri env old_uri && ignore_uri env new_uri)) [
        | inl skip ↦ rw skip (rename_calls-IsFine files h)
        | inr seen ↦ rw seen (g, rename_calls-IsFine files h)
      ]

  watch_calls-IsFine : (uris : List Text) → All (IsFine env Given) (watch_calls env uris)
  watch_calls-IsFine [] = tt
  watch_calls-IsFine (uri ∷ uris) = elim (Bool-cases (ignore_uri env uri)) [
    | inl skip ↦ rw skip (watch_calls-IsFine uris)
    | inr seen ↦ rw seen (tt, watch_calls-IsFine uris)
  ]

  calls_of-IsFine : (n : Notification) → AreGiven n → All (IsFine env Given) (calls_of env n)
  unfolding calls_of
  calls_of-IsFine (opened uri text true) g = elim (Bool-cases (ignore_uri env uri)) [
    | inl skip ↦ rw skip (tt, tt)
    | inr seen ↦ rw seen (tt, tt)
  ]
  calls_of-IsFine (opened uri text false) g = elim (Bool-cases (ignore_uri env uri)) [
    | inl skip ↦ rw skip (tt, tt)
    | inr seen ↦ rw seen (g, (tt, tt))
  ]
  calls_of-IsFine (closed uri) g = elim (Bool-cases (ignore_uri env uri)) [
    | inl skip ↦ rw skip (tt, (tt, (tt, (tt, (tt, (tt, tt))))))
    | inr seen ↦ rw seen tt
  ]
  calls_of-IsFine (changed uri []) g = tt
  calls_of-IsFine (changed uri (c ∷ changes)) g = elim (Bool-cases (ignore_uri env uri)) [
    | inl skip ↦ rw skip (tt, tt)
    | inr seen ↦ rw seen (g, (tt, tt))
  ]
  calls_of-IsFine (created []) g = tt
  calls_of-IsFine (created ((uri, text) ∷ files)) g = elim (Bool-cases (ignore_uri env uri)) [
    | inl skip ↦ rw skip tt
    | inr seen ↦ rw seen (create_calls-IsFine ((uri, text) ∷ files) g)
  ]
  calls_of-IsFine (deleted uris) g = delete_calls-IsFine uris
  calls_of-IsFine (renamed files) g = rename_calls-IsFine files g
  calls_of-IsFine (watched uris) g = watch_calls-IsFine uris

  new-IsFine : (calls : List (Call M)) → All (IsNew env Given) calls → All (IsFine env Given) calls
  new-IsFine [] h = tt
  new-IsFine (a ∷ calls) (p, h) = (IsNew-IsFine env Given a p, new-IsFine calls h)

  split-All :
      {A : Type 0} (P : A → Type 0) (xs : List A) (y : A) (ys : List A)
      → All P (xs ++ y ∷ ys)
      → All P xs × (P y × All P ys)
  split-All P [] y ys h = (tt, h)
  split-All P (x ∷ xs) y ys (p, h) = let (a, b) = split-All P xs y ys h in ((p, a), b)

  continued-IsFine :
      (o : Option (List (Call M))) (rest : List (Call M))
      → OnSome (All (IsFine env Given)) o
      → All (IsFine env Given) rest
      → All (IsFine env Given) (continued o rest)
  continued-IsFine none rest h k = tt
  continued-IsFine (some more) rest h k = All-append (IsFine env Given) more rest h k

  new_cache-IsGiven : IsGiven env Given (new_cache {M = M})
  unfolding new_cache lookup
  new_cache-IsGiven = record { contents = λ u. tt; modules = λ u. tt; errors = λ u. tt }

  Reach-IsGiven :
      {w : World M} → Reach w → IsGiven env Given w.cache × All (All (IsFine env Given)) w.threads
  Reach-IsGiven begins = (new_cache-IsGiven, tt)
  Reach-IsGiven (notifies r n g) = let (h, k) = Reach-IsGiven r in (h, (calls_of-IsFine n g, k))
  Reach-IsGiven (works r calls g) = let (h, k) = Reach-IsGiven r in (h, (new-IsFine calls g, k))
  Reach-IsGiven (runs c before after a rest r) =
      let (h, k) = Reach-IsGiven r in
      let (earlier, ((fine, later), others)) =
        split-All (All (IsFine env Given)) before (a ∷ rest) after k in
      (
        perform-IsGiven env Given a c fine h,
        All-append (All (IsFine env Given)) before (continued (perform env a c).1 rest ∷ after)
            earlier
            (
              continued-IsFine (perform env a c).1 rest (perform-IsFine env Given a c fine h) later,
              others,
            ),
      )

  -- However the calls of the handlers and of the other threads on the cache follow one another: the
  -- module that the cache has for a file is what the parser makes, for this file, of a text that came
  -- with a notification, from the disk or from a worker, and so are its parse errors, if it has any.
  pub Reach-FromText :
      (w : World M)
      → Reach w
      → (u : Text)
      → OnSome (FromText env Given u) (get_module w.cache u)
        × OnSome (FromErrors env Given u) (get_parse_errors w.cache u)
  unfolding get_module get_parse_errors get
  Reach-FromText w r u = let (h, _) = Reach-IsGiven r in (h.modules u, h.errors u)
