-- ===== src/Lsp/Cache.antt =====
-- internal/lsp/cache/cache.go: what the language server keeps of each file, by its URI. Its maps are
-- those of Lsp/Concurrent.antt.
pub mod Rules
mod Tests
use regal.Base.{
  ℕ, Bool, true, false, not, Option, none, some, List, [], ◌∷◌, ◌++◌, if◌then◌else◌, ◌==◌, Text,
  codes, message, Outcome, ok, err, text_eq, nat_eq,
}
use regal.Base.Dict.{Dict, lookup}
use regal.Lsp.Types.{Diagnostic}
use regal.Lsp.Concurrent.{
  map_of, get, get_unchecked, set_key, delete_key, rename_key, clone, clear, update_value,
}
use regal.Util.Set
use regal.Util.Set.{Set}

pub record Cache (M : Type 0) : Type 0 where
  pub file_contents : Dict Text Text
  pub ignored_file_contents : Dict Text Text
  pub modules : Dict Text M
  pub diagnostics_file : Dict Text (List Diagnostic)
  pub diagnostics_parse_errors : Dict Text (List Diagnostic)
  pub successful_parse_line_counts : Dict Text ℕ

-- The loop over the present diagnostics, and then the new ones.
unfoldable pub preserved : Set Text → List Diagnostic → List Diagnostic
preserved rule_keys [] = []
preserved rule_keys (d ∷ current) =
    let rest = preserved rule_keys current in
    if not (Set.contains_all rule_keys (d.code ∷ [])) then d ∷ rest else rest

-- The function that `SetFileDiagnosticsForRules` gives to `UpdateValue`.
unfoldable pub for_rules : List Text → List Diagnostic → List Diagnostic → List Diagnostic
unfolding preserved
for_rules rules diags current = preserved (Set.new_set rules) current ++ diags

module _ {M : Type 0} where
  unfoldable pub new_cache : Cache M
  unfolding map_of
  new_cache = record {
    file_contents = map_of [];
    ignored_file_contents = map_of [];
    modules = map_of [];
    diagnostics_file = map_of [];
    diagnostics_parse_errors = map_of [];
    successful_parse_line_counts = map_of [];
  }

  unfoldable pub get_all_files : Cache M → Dict Text Text
  unfolding clone
  get_all_files c = clone c.file_contents

  unfoldable pub has_file_contents : Cache M → Text → Bool
  unfolding get
  has_file_contents c file_uri = elim (get c.file_contents file_uri) [
    | none ↦ false
    | some _ ↦ true
  ]

  unfoldable pub get_file_contents : Cache M → Text → Option Text
  unfolding get
  get_file_contents c file_uri = get c.file_contents file_uri

  unfoldable pub set_file_contents : Cache M → Text → Text → Cache M
  unfolding set_key
  set_file_contents c file_uri content = record c {
    file_contents = set_key c.file_contents file_uri content;
  }

  unfoldable pub get_ignored_file_contents : Cache M → Text → Option Text
  unfolding get
  get_ignored_file_contents c file_uri = get c.ignored_file_contents file_uri

  unfoldable pub set_ignored_file_contents : Cache M → Text → Text → Cache M
  unfolding set_key
  set_ignored_file_contents c file_uri content = record c {
    ignored_file_contents = set_key c.ignored_file_contents file_uri content;
  }

  unfoldable pub get_all_ignored_files : Cache M → Dict Text Text
  unfolding clone
  get_all_ignored_files c = clone c.ignored_file_contents

  unfoldable pub clear_ignored_file_contents : Cache M → Text → Cache M
  unfolding delete_key
  clear_ignored_file_contents c file_uri = record c {
    ignored_file_contents = delete_key c.ignored_file_contents file_uri;
  }

  unfoldable pub get_all_modules : Cache M → Dict Text M
  unfolding clone
  get_all_modules c = clone c.modules

  unfoldable pub get_module : Cache M → Text → Option M
  unfolding get
  get_module c file_uri = get c.modules file_uri

  unfoldable pub set_module : Cache M → Text → M → Cache M
  unfolding set_key
  set_module c file_uri m = record c { modules = set_key c.modules file_uri m }

  unfoldable pub get_content_and_module : Cache M → Text → Option (Text × M)
  unfolding get_file_contents get_module
  get_content_and_module c file_uri = elim (get_file_contents c file_uri) [
    | none ↦ none
    | some content ↦ elim (get_module c file_uri) [ none ↦ none | some m ↦ some (content, m) ]
  ]

  unfoldable pub rename_uri : Cache M → (old_key new_key : Text) → Cache M
  unfolding rename_key
  rename_uri c old_key new_key = record {
    file_contents = rename_key c.file_contents old_key new_key;
    ignored_file_contents = rename_key c.ignored_file_contents old_key new_key;
    modules = rename_key c.modules old_key new_key;
    diagnostics_file = rename_key c.diagnostics_file old_key new_key;
    diagnostics_parse_errors = rename_key c.diagnostics_parse_errors old_key new_key;
    successful_parse_line_counts = rename_key c.successful_parse_line_counts old_key new_key;
  }

  unfoldable pub get_file_diagnostics : Cache M → Text → Option (List Diagnostic)
  unfolding get
  get_file_diagnostics c uri = get c.diagnostics_file uri

  unfoldable pub set_file_diagnostics : Cache M → Text → List Diagnostic → Cache M
  unfolding set_key
  set_file_diagnostics c file_uri diags = record c {
    diagnostics_file = set_key c.diagnostics_file file_uri diags;
  }

  unfoldable pub set_file_diagnostics_for_rules :
      Cache M → Text → List Text → List Diagnostic → Cache M
  unfolding update_value for_rules
  set_file_diagnostics_for_rules c file_uri rules diags = record c {
    diagnostics_file = update_value [] c.diagnostics_file file_uri (for_rules rules diags);
  }

  unfoldable pub clear_file_diagnostics : Cache M → Cache M
  unfolding clear
  clear_file_diagnostics c = record c { diagnostics_file = clear c.diagnostics_file }

  unfoldable pub get_parse_errors : Cache M → Text → Option (List Diagnostic)
  unfolding get
  get_parse_errors c uri = get c.diagnostics_parse_errors uri

  unfoldable pub set_parse_errors : Cache M → Text → List Diagnostic → Cache M
  unfolding set_key
  set_parse_errors c file_uri diags = record c {
    diagnostics_parse_errors = set_key c.diagnostics_parse_errors file_uri diags;
  }

  unfoldable pub get_successful_parse_line_count : Cache M → Text → Option ℕ
  unfolding get
  get_successful_parse_line_count c file_uri = get c.successful_parse_line_counts file_uri

  unfoldable pub set_successful_parse_line_count : Cache M → Text → ℕ → Cache M
  unfolding set_key
  set_successful_parse_line_count c file_uri count = record c {
    successful_parse_line_counts = set_key c.successful_parse_line_counts file_uri count;
  }

  unfoldable pub delete : Cache M → Text → Cache M
  unfolding delete_key
  delete c file_uri = record {
    file_contents = delete_key c.file_contents file_uri;
    ignored_file_contents = delete_key c.ignored_file_contents file_uri;
    modules = delete_key c.modules file_uri;
    diagnostics_file = delete_key c.diagnostics_file file_uri;
    diagnostics_parse_errors = delete_key c.diagnostics_parse_errors file_uri;
    successful_parse_line_counts = delete_key c.successful_parse_line_counts file_uri;
  }

  -- The second half of `UpdateForURIFromDisk`.
  unfoldable pub update_with : Cache M → Text → Text → Option Text → Cache M × (Bool × Text)
  unfolding set_file_contents
  update_with c file_uri current_content none =
      (set_file_contents c file_uri current_content, (true, current_content))
  update_with c file_uri current_content (some cached_content) =
      if cached_content == current_content
      then (c, (false, cached_content))
      else (set_file_contents c file_uri current_content, (true, current_content))

  -- The disk is a dictionary of the files that can be read.
  unfoldable pub update_for_uri_from_disk :
      Dict Text Text → Cache M → (file_uri path : Text) → Cache M × Outcome (Bool × Text)
  unfolding update_with get_file_contents
  update_for_uri_from_disk disk c file_uri path = elim (lookup path disk) [
    | none ↦ (c, err (message (codes "failed to read file")))
    | some content ↦
        let (c', answer) = update_with c file_uri content (get_file_contents c file_uri) in
        (c', ok answer)
  ]
