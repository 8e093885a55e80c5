-- ===== src/Lsp/Server/Tests.antt =====
-- The language server with a parser that takes each text for its own module, and refuses the empty one.
use regal.Base.{
  ℕ, ◌+◌, ◌≡◌, refl, inr, true, false, ◌&&◌, none, some, [], ◌∷◌, if◌then◌else◌, ◌==◌, contains,
  Text, codes, text_beq, pos, ok, ◌>>=◌, wrap, text_eq, nat_eq,
}
use regal.Base.Dict.{Dict, lookup, insert}
use regal.Fixer.Fixes.{Violation}
use regal.Config.Settings.Types.{zero_config}
use regal.Linter.Types.{Report}
use regal.Linter.Merge.{empty_report}
use regal.Linter.Run.{Engine}
use regal.Lsp.Uri.{to_path}
use regal.Lsp.Cache.{
  Cache, new_cache, set_file_contents, set_module, set_parse_errors, set_file_diagnostics,
  get_module, get_parse_errors, get_file_contents, get_file_diagnostics,
}
use regal.Lsp.Diagnostics.{violation_diagnostic}
use regal.Lsp.Server.{
  Env, State, Parsed, parsed, failed, ignore_uri, parse_uri, update_parse, take_parsed, put_module,
  put_refs,
}
use regal.Lsp.Server.Handlers.{
  did_open, did_change, did_change_to, set_maybe_ignored_contents, last_contents, open_contents,
  parse_and_lint, note_parsed, did_create_files, did_delete_files,
}
use regal.Lsp.Server.Handlers.Loaded.{did_create_files_loads}
use regal.Lsp.Server.Handlers.Deleted.{did_delete_files_stores}
use regal.Lsp.Server.Linted.{
  Rules, has_no_errors, workspace_linter, report_of, update_workspace_diagnostics,
}
use regal.Lsp.Server.Linted.Published.{of_file, is_some, update_workspace_diagnostics_lem}
use regal.Lsp.Server.Fresh.{Agrees, IsFresh}
use regal.Lsp.Server.Fresh.Alone.{Event, opened, changed, handle, handle-IsFresh, handle-Agrees}

abbrev parse_text : Text → Parsed Text
parse_text [] =
    failed (record { code = codes "rego_parse_error"; message_text = []; row = pos 1 } ∷ [])
parse_text (c ∷ t) = parsed (c ∷ t)

abbrev env : Env Text Text
env = record {
  root_uri = codes "file:///w";
  config = zero_config;
  all_rego_versions = [];
  server_testing = true;
  glob = λ p. ok p;
  matches = λ g name. g == name;
  walk = λ p found. ok found;
  parse = λ name content version. parse_text content;
  store_module = λ m. ok tt;
  defined_refs = λ m. record { is_package = true; label = codes "data.p" } ∷ [];
}

abbrev policy : Text
policy = codes "file:///w/p.rego"

abbrev notes : Text
notes = codes "file:///w/notes.txt"

abbrev new_state : State Text
new_state = record {
  cache = new_cache;
  stored_modules = [];
  stored_refs = [];
  lint_jobs = [];
  template_jobs = [];
  test_jobs = [];
  templating_files = [];
  sent = [];
  is_connected = true;
}

abbrev too_long : Violation
too_long = record {
  title = codes "line-length";
  description = [];
  category = codes "style";
  level = codes "error";
  location = record {
    end = none;
    text = some (codes "package p");
    file = policy;
    column = pos 1;
    row = pos 3;
  };
  is_aggregate = false;
}

abbrev engine : Engine Text ℕ ℕ Text
engine = record {
  combine = λ user. ok zero_config;
  path_of = λ m. [];
  print = λ s. [];
  compile = λ l c. ok 0;
  run_prepare = λ q. ok q;
  glob = λ p. ok p;
  matches = λ g name. g == name;
  walk = λ p found. ok found;
  read_inputs = λ paths path_prefix versions.
      ok (record { file_names = paths; file_content = []; modules = [] });
  evaluate =
      λ q collect profiling name content m. ok (record empty_report { violations = too_long ∷ [] });
  evaluate_aggregates = λ q profiling aggregates directives. ok empty_report;
  empty_object = 0;
  merge_objects = λ a b. some (a + b);
  is_cancelled = λ e. false;
  prepared_notices = λ q. [];
}

abbrev rules : Rules Text
rules = record {
  embedded = record { modules = [] };
  custom_rules_path = [];
  is_dir = λ path. false;
  read_file = λ path. inr [];
  modules_of_dir = λ path. inr [];
  modules_of_file = λ path contents. inr [];
}

abbrev text : Text
text = codes "package p"

abbrev was_opened : State Text
was_opened = handle env engine rules (opened policy (codes "x")) new_state

abbrev change : Event
change = changed policy ((none, text) ∷ [])

abbrev after : State Text
after = handle env engine rules change was_opened

policy_seen : ignore_uri env policy ≡ false
unfolding ignore_uri regal.Config.Filter.has_suffix regal.Base.text_beq
    regal.Config.Filter.filter_ignored_paths to_path regal.Go.Strings.has_prefix
    regal.Lsp.Uri.Escapes.query_unescape regal.Config.Filter.trim_prefix
policy_seen = refl

opened_lem :
    (get_module after.cache policy ≡ some text) × (get_parse_errors after.cache policy ≡ some [])
unfolding handle did_open did_change did_change_to set_maybe_ignored_contents last_contents
    ignore_uri regal.Config.Filter.has_suffix regal.Base.text_beq
    regal.Config.Filter.filter_ignored_paths get_module get_parse_errors update_parse
    set_file_contents set_module set_parse_errors regal.Lsp.Cache.set_successful_parse_line_count
    new_cache lookup insert get_file_contents regal.Lsp.Concurrent.get regal.Lsp.Concurrent.set_key
    regal.Lsp.Concurrent.map_of parse_and_lint open_contents note_parsed take_parsed put_module
    put_refs to_path regal.Go.Strings.has_prefix regal.Lsp.Uri.Escapes.query_unescape
    regal.Config.Filter.trim_prefix
opened_lem = (refl, refl)

new_cache-IsFresh : IsFresh env new_cache
unfolding new_cache lookup
new_cache-IsFresh u watched = tt

handle-Agrees_example :
    (content : Text) × (get_file_contents after.cache policy ≡ some content)
    × Agrees (parse_uri env policy content) text
handle-Agrees_example =
    handle-Agrees env engine rules change was_opened
      (handle-IsFresh env engine rules (opened policy (codes "x")) new_state new_cache-IsFresh)
      policy text policy_seen opened_lem.0 opened_lem.1

abbrev cached : Cache Text
cached =
    set_parse_errors (set_module (set_file_contents new_cache policy text) policy text) policy []

abbrev published : Cache Text
published = set_file_diagnostics cached policy (violation_diagnostic too_long ∷ [])

run_lem : update_workspace_diagnostics env engine rules cached ≡ ok published
unfolding update_workspace_diagnostics report_of workspace_linter
    regal.Linter.Options.with_input_modules regal.Linter.Options.with_user_config
    regal.Linter.Options.with_custom_rules_paths regal.Linter.Options.with_path_prefix
    regal.Linter.Options.non_empty regal.Linter.Options.with_custom_rules
    regal.Lsp.Cache.get_all_modules regal.Lsp.Cache.get_all_files set_file_contents set_module
    set_parse_errors set_file_diagnostics get_parse_errors new_cache violation_diagnostic
    regal.Lsp.Concurrent.get regal.Lsp.Concurrent.set_key regal.Lsp.Concurrent.clone
    regal.Lsp.Diagnostics.convert_report_to_diagnostics regal.Lsp.Server.Linted.set_all_diagnostics
    regal.Lsp.Server.Linted.new_input regal.Linter.Run.lint_all regal.Base.◌>>=◌
    regal.Linter.Options.new_linter regal.Linter.Prepare.prepare regal.Linter.Validate.validate
    regal.Util.Set.size regal.Util.Set.diff regal.Util.Set.add regal.Util.Set.new_set
    regal.Util.Set.put regal.Base.contains regal.Util.Set.contains_all regal.Base.text_beq
    regal.Config.Filter.filter_ignored_paths regal.Config.Filter.filter_paths
    regal.Config.Filter.walk_all insert lookup regal.Base.wrap regal.Config.Filter.compile_all
    regal.Config.Filter.compile_patterns regal.Config.Filter.ensure_suffix
    regal.Config.Filter.exclude_file regal.Config.Filter.excluded regal.Config.Filter.has_suffix
    regal.Config.Filter.keep_files regal.Linter.Merge.lint
    regal.Linter.Merge.lint_with_aggregate_rules regal.Linter.Notices.count_skipped_from_notices
    regal.Profile.violations_file_count regal.Linter.Notices.above regal.Linter.Notices.same_notice
run_lem = refl

update_workspace_diagnostics_lem_example :
    (rpt : Report ℕ) × (report_of env engine rules (workspace_linter env engine rules cached)
      ≡ ok rpt)
    × ((u : Text)
        → get_file_diagnostics published u ≡ (
            if is_some (get_module cached u) && has_no_errors (get_parse_errors cached u)
            then some (of_file env.root_uri u rpt.violations)
            else get_file_diagnostics cached u))
update_workspace_diagnostics_lem_example =
    update_workspace_diagnostics_lem env engine rules cached published run_lem

abbrev stored : State Text
stored = record new_state { cache = cached; stored_modules = (policy, text) ∷ [] }

did_delete_files_stores_example :
    (get_module (did_delete_files env stored (policy ∷ [])).cache policy ≡ none)
    × ((did_delete_files env stored (policy ∷ [])).stored_modules ≡ (policy, text) ∷ [])
    × ((did_delete_files env stored (policy ∷ [])).stored_refs ≡ [])
unfolding ignore_uri regal.Config.Filter.has_suffix regal.Base.text_beq
    regal.Config.Filter.filter_ignored_paths to_path regal.Go.Strings.has_prefix
    regal.Lsp.Uri.Escapes.query_unescape regal.Config.Filter.trim_prefix regal.Base.contains
did_delete_files_stores_example =
    did_delete_files_stores env stored (policy ∷ []) policy policy_seen refl

abbrev disk : Dict Text Text
disk = (codes "/w/p.rego", text) ∷ (codes "/w/notes.txt", codes "x") ∷ []

created_lem : (did_create_files env disk new_state (policy ∷ notes ∷ [])).1 ≡ ok tt
unfolding did_create_files regal.Lsp.Server.Handlers.create_files regal.Lsp.Server.Handlers.created
    regal.Lsp.Cache.update_for_uri_from_disk regal.Lsp.Cache.update_with ignore_uri
    regal.Config.Filter.has_suffix regal.Base.text_beq regal.Config.Filter.filter_ignored_paths
    update_parse set_file_contents set_module set_parse_errors
    regal.Lsp.Cache.set_successful_parse_line_count new_cache lookup insert get_file_contents
    regal.Lsp.Concurrent.get regal.Lsp.Concurrent.set_key regal.Lsp.Concurrent.map_of parse_and_lint
    note_parsed take_parsed put_module put_refs to_path regal.Go.Strings.has_prefix
    regal.Lsp.Uri.Escapes.query_unescape regal.Config.Filter.trim_prefix
created_lem = refl

did_create_files_loads_example :
    (t : Text) × (lookup (to_path notes) disk ≡ some t)
    × (get_file_contents (did_create_files env disk new_state (policy ∷ notes ∷ [])).0.cache notes
        ≡ some t)
unfolding contains text_beq
did_create_files_loads_example =
    did_create_files_loads env disk new_state policy (notes ∷ []) notes policy_seen created_lem refl
