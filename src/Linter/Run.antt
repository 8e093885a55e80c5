-- ===== src/Linter/Run.antt =====
-- pkg/linter/linter.go: `Lint`. What it takes from the policy engine, the file system and the libraries
-- is the record `Engine`; the timers and the metrics only observe a run.
mod Summed
mod Again
mod Tests
use regal.Base.{
  ℕ, Bool, true, false, not, ◌&&◌, Option, none, some, List, [], ◌∷◌, ◌++◌, ltb, nat_beq,
  if◌then◌else◌, length, ◌==◌, Text, codes, pos, Error, message, Outcome, ok, err, panicked, ◌>>=◌,
  ◌>>◌, wrap, text_eq, nat_eq,
}
use regal.Base.Dict.{Dict, lookup, insert}
use regal.Go.Strings.{has_prefix}
use regal.Fixer.Fixes.{Violation}
use regal.Profile.{ProfileEntry, violations_file_count, sorted_profile}
use regal.Config.Filter.{filter_ignored_paths}
use regal.Config.Settings.Types.{Config}
use regal.Util.Set.{Set}
use regal.Linter.Types.{Input, Linter, Notice, Report, Summary}
use regal.Linter.Merge.{content_of, module_of, entries_or_none, lint, lint_with_aggregate_rules}
use regal.Linter.Notices.{count_skipped_from_notices}
use regal.Linter.Prepare.{prepare}

-- Parsed modules, queries, objects and globs are those of the engine and of a library.
pub record Engine (M Q O G : Type 0) : Type 0 where
  pub combine : Option Config → Outcome Config
  pub path_of : M → List Text
  pub print : Set Text → Text
  pub compile : Linter M Q → Config → Outcome Q
  pub run_prepare : Q → Outcome Q
  pub glob : Text → Outcome G
  pub matches : G → Text → Bool
  pub walk : Text → List Text → Outcome (List Text)
  -- `InputFromPaths`; with a configuration, its versions are looked up in `AllRegoVersions`.
  pub read_inputs : (paths : List Text) → (path_prefix : Text) → Option Config → Outcome (Input M)
  pub evaluate :
      Q → (collect profiling : Bool) → (name content : Text) → Option M → Outcome (Report O)
  pub evaluate_aggregates : Q → (profiling : Bool) → Option (Dict Text O) → O → Outcome (Report O)
  pub empty_object : O
  pub merge_objects : O → O → Option O
  pub is_cancelled : Error → Bool
  pub prepared_notices : Q → List Notice

-- The loop that adds the modules that the linter was given to those read from paths.
unfoldable pub add_modules : {M : Type 0} → Input M → Input M → List Text → Input M
add_modules given input [] = input
add_modules given input (filename ∷ filenames) =
    add_modules given
      (record {
        file_names = input.file_names ++ filename ∷ [];
        modules = insert filename (module_of (lookup filename given.modules)) input.modules;
        file_content =
            insert filename (content_of (lookup filename given.file_content)) input.file_content;
      })
      filenames

-- `len(m) > 0` of aggregates that may be nil
abbrev pub has_aggregates : {O : Type 0} → Option (Dict Text O) → Bool
has_aggregates none = false
has_aggregates (some []) = false
has_aggregates (some (_ ∷ _)) = true

-- What happens to the report after the count of the skipped rules.
unfoldable pub summed :
    {O : Type 0}
    → (export_aggregates profiling : Bool) → (files_scanned : ℕ) → Report O × ℕ
    → Report O
summed export_aggregates profiling files_scanned (r, skipped) =
    let counted : Report _ = record r {
      summary = record {
        files_scanned = files_scanned;
        files_failed = length (violations_file_count r.violations []);
        rules_skipped = skipped;
        num_violations = length r.violations;
      };
      aggregates = if not export_aggregates then none else r.aggregates;
    } in
    if profiling
    then (elim r.aggregate_profile [
      | none ↦ counted
      | some m ↦ record counted { profile = sorted_profile m (pos 10); aggregate_profile = none }
    ])
    else counted

module _ {M Q O G : Type 0} (engine : Engine M Q O G) where
  open engine use {
    combine, path_of, print, compile, run_prepare, glob, matches, walk, read_inputs, evaluate,
    evaluate_aggregates, empty_object, merge_objects, is_cancelled, prepared_notices,
  }

  -- The list of patterns: that of the linter replaces that of the configuration.
  unfoldable pub ignored : Linter M Q → Config → List Text
  ignored l conf = if ltb 0 (length l.ignore_files) then l.ignore_files else conf.ignore.files

  unfoldable pub versions_from : Linter M Q → Config → Option Config
  versions_from l conf =
      if not (l.path_prefix == []) && not (has_prefix l.path_prefix (codes "file://"))
      then some conf
      else none

  abbrev pub filtered :
      (paths ignore : List Text) → (check_exists : Bool) → Text → Outcome (List Text)
  filtered paths ignore check_exists path_prefix =
      filter_ignored_paths glob matches walk paths ignore check_exists path_prefix

  -- The files of the paths, and then the modules.
  unfoldable pub inputs : Linter M Q → Config → Outcome (Input M)
  unfolding ignored versions_from add_modules
  inputs l conf = do
    paths ←
        wrap (codes "errors encountered when reading files to lint:")
          (filtered l.input_paths (ignored l conf) true l.path_prefix)
    from_paths ←
        wrap (codes "errors encountered when reading files to lint:")
          (read_inputs paths l.path_prefix (versions_from l conf))
    elim l.input_modules [
      | none ↦ ok from_paths
      | some given ↦ do
        names ←
            wrap (codes "failed to filter paths:")
              (filtered given.file_names (ignored l conf) false l.path_prefix)
        ok (add_modules given from_paths names)
    ]

  abbrev pub nothing_given : Linter M Q → Bool
  nothing_given l = elim l.input_modules [
    | none ↦ nat_beq (length l.input_paths) 0
    | some _ ↦ false
  ]

  -- The second query, for several files with aggregates.
  unfoldable pub with_aggregates : Linter M Q → Q → (num_files : ℕ) → Report O → Outcome (Report O)
  with_aggregates l q num_files r =
      if not (ltb 1 num_files && has_aggregates r.aggregates) then ok r else do
        aggregate_report ← wrap (codes "failed to lint using Rego aggregate rules:") (
            lint_with_aggregate_rules empty_object (evaluate_aggregates q l.profiling) r.aggregates
              r.ignore_directives)
        ok (record r {
          violations = r.violations ++ aggregate_report.violations;
          aggregate_profile =
              if l.profiling then aggregate_report.aggregate_profile else r.aggregate_profile;
        })

  unfoldable pub lint_prepared : Linter M Q → Config → Q → Outcome (Report O)
  unfolding inputs with_aggregates summed
  lint_prepared l conf q = do
    input ← inputs l conf
    r ←
        (if nothing_given l
          then err (message (codes "nothing provided to lint"))
          else wrap (codes "failed to lint using Rego rules:") (
              lint (λ collect name content m. evaluate q collect l.profiling name content m)
                merge_objects is_cancelled l.use_collect_query l.profiling input))
    r' ← with_aggregates l q (length input.file_names) r
    ok (
        summed l.export_aggregates l.profiling (length input.file_names)
          (count_skipped_from_notices (prepared_notices q) r'))

  unfoldable pub ensure_prepared : Linter M Q → Outcome (Linter M Q)
  ensure_prepared l =
      if not l.is_prepared
      then wrap (codes "failed to prepare linter:")
          (prepare combine path_of print compile run_prepare l)
      else ok l

  -- A nil configuration or query would be followed.
  unfoldable pub lint_ready : Linter M Q → Option Config → Option Q → Outcome (Report O)
  unfolding lint_prepared
  lint_ready l none q = panicked
  lint_ready l (some conf) none = panicked
  lint_ready l (some conf) (some q) = lint_prepared l conf q

  unfoldable pub lint_all : Linter M Q → Outcome (Report O)
  unfolding ensure_prepared lint_ready
  lint_all l = do l' ← ensure_prepared l; lint_ready l' l'.combined_cfg l'.prepared_query
