-- ===== src/Lsp/Server/Threads/Given.antt =====
-- internal/lsp/server.go and internal/lsp/lint.go: where the modules and the parse errors in the cache come
-- from, whatever the order in which the threads make their calls.
use regal.Base.{
  ◌≡◌, refl, subst, inl, inr, Option, none, some, List, [], ◌∷◌, Bool-cases, All, ◌==◌, eq_iff,
  Text, text_eq, nat_eq,
}
use regal.Base.Dict.{Dict, lookup, insert, erase, lookup-insert, lookup-erase}
use regal.Lsp.Concurrent.{set_key, delete_key, get}
use regal.Lsp.Types.{Diagnostic}
use regal.Lsp.Cache.{
  Cache, set_file_contents, set_ignored_file_contents, set_parse_errors, set_module,
  set_successful_parse_line_count, set_file_diagnostics, clear_file_diagnostics, get_file_contents,
}
use regal.Lsp.Diagnostics.{AstError, error_diagnostics}
use regal.Lsp.Server.{Env, Parsed, parsed, failed, unknown, ignore_uri, parse_uri}
use regal.Lsp.Server.Threads.{
  Part, contents_part, ignored_part, modules_part, diagnostics_part, errors_part, counts_part, Call,
  sets, sets_ignored, parses, sets_errors, sets_module, sets_count, sets_diagnostics, loads, copies,
  drops, clears_diagnostics, drop_part, stores, refreshed, parsed_calls, moves, copied_calls,
  perform,
}

-- What holds of the entry of a key, if there is one.
abbrev pub OnSome {κ} : {A : Type 0} → (A → Type κ) → Option A → Type κ
OnSome P none = Unit
OnSome P (some x) = P x

OnSome-insert :
    {A : Type 0} (P : Text → A → Type 0) (m : Dict Text A) (k : Text) (v : A)
    → P k v
    → ((u : Text) → OnSome (P u) (lookup u m))
    → (u : Text) → OnSome (P u) (lookup u (insert k v m))
OnSome-insert P m k v p h u = elim (Bool-cases (k == u)) [
  | inl same ↦
      let e = (eq_iff k u).0 same in rw (lookup-insert k u v m) (rw same (subst (λ x. P x v) e p))
  | inr apart ↦ rw (lookup-insert k u v m) (rw apart (h u))
]

OnSome-erase :
    {A : Type 0} (P : Text → A → Type 0) (m : Dict Text A) (k : Text)
    → ((u : Text) → OnSome (P u) (lookup u m))
    → (u : Text) → OnSome (P u) (lookup u (erase k m))
OnSome-erase P m k h u = elim (Bool-cases (k == u)) [
  | inl same ↦ rw (lookup-erase k u m) (rw same tt)
  | inr apart ↦ rw (lookup-erase k u m) (rw apart (h u))
]

module _ {M G : Type 0} (env : Env M G) (Given : Text → Type 0) where
  -- The module is what the parser makes of a given text for the file.
  abbrev pub FromText : Text → M → Type 0
  FromText u m = (text : Text) × Given text × (parse_uri env u text ≡ parsed m)

  -- No errors, or those that the parser finds in a given text for the file.
  abbrev pub FromErrors : Text → List Diagnostic → Type 0
  FromErrors u [] = Unit
  FromErrors u (d ∷ ds) =
      (text : Text) × (errors : List AstError) × Given text
      × (parse_uri env u text ≡ failed errors)
      × (error_diagnostics text errors ≡ d ∷ ds)

  abbrev pub IsFine : Call M → Type 0
  IsFine (sets uri text) = Given text
  IsFine (sets_ignored uri text) = Unit
  IsFine (parses uri) = Unit
  IsFine (sets_errors uri diags) = FromErrors uri diags
  IsFine (sets_module uri m) = FromText uri m
  IsFine (sets_count uri n) = Unit
  IsFine (sets_diagnostics uri diags) = Unit
  IsFine (loads uri text) = Given text
  IsFine (copies old_uri new_uri on_disk) = OnSome Given on_disk
  IsFine (drops part uri) = Unit
  IsFine clears_diagnostics = Unit

  -- A thread as it starts: it has not parsed anything.
  abbrev pub IsNew : Call M → Type 0
  IsNew (sets uri text) = Given text
  IsNew (sets_errors uri diags) = ⊥
  IsNew (sets_module uri m) = ⊥
  IsNew (loads uri text) = Given text
  IsNew (copies old_uri new_uri on_disk) = OnSome Given on_disk
  IsNew _ = Unit

  pub record IsGiven (c : Cache M) : Type 0 where
    pub contents : (u : Text) → OnSome Given (lookup u c.file_contents)
    pub modules : (u : Text) → OnSome (FromText u) (lookup u c.modules)
    pub errors : (u : Text) → OnSome (FromErrors u) (lookup u c.diagnostics_parse_errors)

  drop_part-IsGiven :
      (part : Part) (c : Cache M) (uri : Text) → IsGiven c → IsGiven (drop_part part c uri)
  unfolding drop_part delete_key
  drop_part-IsGiven contents_part c uri h = record {
    contents = OnSome-erase (λ _. Given) c.file_contents uri h.contents;
    modules = h.modules;
    errors = h.errors;
  }
  drop_part-IsGiven ignored_part c uri h = record {
    contents = h.contents;
    modules = h.modules;
    errors = h.errors;
  }
  drop_part-IsGiven modules_part c uri h = record {
    contents = h.contents;
    modules = OnSome-erase FromText c.modules uri h.modules;
    errors = h.errors;
  }
  drop_part-IsGiven diagnostics_part c uri h = record {
    contents = h.contents;
    modules = h.modules;
    errors = h.errors;
  }
  drop_part-IsGiven errors_part c uri h = record {
    contents = h.contents;
    modules = h.modules;
    errors = OnSome-erase FromErrors c.diagnostics_parse_errors uri h.errors;
  }
  drop_part-IsGiven counts_part c uri h = record {
    contents = h.contents;
    modules = h.modules;
    errors = h.errors;
  }

  stores-IsFine :
      (uri text : Text) (p : Parsed M)
      → Given text
      → parse_uri env uri text ≡ p
      → All IsFine (stores uri text p)
  unfolding error_diagnostics
  stores-IsFine uri text (parsed m) g e = (tt, ((text, g, e), (tt, tt)))
  stores-IsFine uri text (failed []) g e = (tt, tt)
  stores-IsFine uri text (failed (x ∷ xs)) g e = ((text, x ∷ xs, g, e, refl), tt)
  stores-IsFine uri text (unknown _) g e = tt

  refreshed-IsFine :
      (uri text : Text) (o : Option Text) → Given text → All IsFine (refreshed {M = M} uri text o)
  refreshed-IsFine uri text none g = (g, tt)
  refreshed-IsFine uri text (some t) g = elim (Bool-cases (t == text)) [
    | inl same ↦ rw same tt
    | inr other ↦ rw other (g, tt)
  ]

  moves-IsFine :
      (old_uri new_uri text : Text) → Given text → All IsFine (moves env old_uri new_uri text)
  moves-IsFine old_uri new_uri text g = elim (Bool-cases (ignore_uri env new_uri)) [
    | inl skip ↦ rw skip (tt, (tt, (tt, (tt, (tt, (tt, tt))))))
    | inr seen ↦ rw seen (tt, (tt, (tt, (tt, (tt, (tt, (g, (tt, tt))))))))
  ]

  copied_calls-IsFine :
      (old_uri new_uri : Text) (on_disk o : Option Text)
      → OnSome Given on_disk
      → OnSome Given o
      → OnSome (All IsFine) (copied_calls env old_uri new_uri on_disk o)
  copied_calls-IsFine old_uri new_uri on_disk (some (c ∷ text)) d g =
      moves-IsFine old_uri new_uri (c ∷ text) g
  copied_calls-IsFine old_uri new_uri none none d g = tt
  copied_calls-IsFine old_uri new_uri none (some []) d g = tt
  copied_calls-IsFine old_uri new_uri (some text) none d g =
      (d, moves-IsFine old_uri new_uri text d)
  copied_calls-IsFine old_uri new_uri (some text) (some []) d g =
      (d, moves-IsFine old_uri new_uri text d)

  parsed_calls-IsFine :
      (uri : Text) (o : Option Text) → OnSome Given o → All IsFine (parsed_calls env uri o)
  parsed_calls-IsFine uri none g = tt
  parsed_calls-IsFine uri (some text) g = stores-IsFine uri text (parse_uri env uri text) g refl

  pub perform-IsGiven :
      (a : Call M) (c : Cache M) → IsFine a → IsGiven c → IsGiven (perform env a c).0
  unfolding perform clear_file_diagnostics set_file_contents set_ignored_file_contents
      set_parse_errors set_module set_successful_parse_line_count set_file_diagnostics set_key
  perform-IsGiven (sets uri text) c g h = record {
    contents = OnSome-insert (λ _. Given) c.file_contents uri text g h.contents;
    modules = h.modules;
    errors = h.errors;
  }
  perform-IsGiven (sets_ignored uri text) c g h = record {
    contents = h.contents;
    modules = h.modules;
    errors = h.errors;
  }
  perform-IsGiven (parses uri) c g h = h
  perform-IsGiven (sets_errors uri diags) c g h = record {
    contents = h.contents;
    modules = h.modules;
    errors = OnSome-insert FromErrors c.diagnostics_parse_errors uri diags g h.errors;
  }
  perform-IsGiven (sets_module uri m) c g h = record {
    contents = h.contents;
    modules = OnSome-insert FromText c.modules uri m g h.modules;
    errors = h.errors;
  }
  perform-IsGiven (sets_count uri n) c g h = record {
    contents = h.contents;
    modules = h.modules;
    errors = h.errors;
  }
  perform-IsGiven (sets_diagnostics uri diags) c g h = record {
    contents = h.contents;
    modules = h.modules;
    errors = h.errors;
  }
  perform-IsGiven (loads uri text) c g h = h
  perform-IsGiven (copies old_uri new_uri on_disk) c g h = h
  perform-IsGiven (drops part uri) c g h = drop_part-IsGiven part c uri h
  perform-IsGiven clears_diagnostics c g h = record {
    contents = h.contents;
    modules = h.modules;
    errors = h.errors;
  }

  pub perform-IsFine :
      (a : Call M) (c : Cache M) → IsFine a → IsGiven c → OnSome (All IsFine) (perform env a c).1
  unfolding perform get_file_contents get
  perform-IsFine (sets uri text) c g h = tt
  perform-IsFine (sets_ignored uri text) c g h = tt
  perform-IsFine (parses uri) c g h =
      parsed_calls-IsFine uri (lookup uri c.file_contents) (h.contents uri)
  perform-IsFine (sets_errors uri diags) c g h = tt
  perform-IsFine (sets_module uri m) c g h = tt
  perform-IsFine (sets_count uri n) c g h = tt
  perform-IsFine (sets_diagnostics uri diags) c g h = tt
  perform-IsFine (loads uri text) c g h = refreshed-IsFine uri text (lookup uri c.file_contents) g
  perform-IsFine (copies old_uri new_uri on_disk) c g h =
      copied_calls-IsFine old_uri new_uri on_disk (lookup old_uri c.file_contents) g
        (h.contents old_uri)
  perform-IsFine (drops part uri) c g h = tt
  perform-IsFine clears_diagnostics c g h = tt

  pub IsNew-IsFine : (a : Call M) → IsNew a → IsFine a
  IsNew-IsFine (sets uri text) g = g
  IsNew-IsFine (sets_ignored uri text) g = tt
  IsNew-IsFine (parses uri) g = tt
  IsNew-IsFine (sets_errors uri diags) g = absurd g
  IsNew-IsFine (sets_module uri m) g = absurd g
  IsNew-IsFine (sets_count uri n) g = tt
  IsNew-IsFine (sets_diagnostics uri diags) g = tt
  IsNew-IsFine (loads uri text) g = g
  IsNew-IsFine (copies old_uri new_uri on_disk) g = g
  IsNew-IsFine (drops part uri) g = tt
  IsNew-IsFine clears_diagnostics g = tt
