-- ===== src/Lsp/Server/Linted/Published.antt =====
-- internal/lsp/lint.go: the diagnostics of a file after a run of the linter over the workspace.
use regal.Base.{
  ◌≡◌, refl, sym, ap, ◌∙◌, subst, inl, inr, Bool, true, false, ◌&&◌, ◌||◌, Option, none, some, List,
  [], ◌∷◌, ◌++◌, append_assoc, append-nil, arith, if◌then◌else◌, Bool-cases, ◌==◌, eq_iff, contains,
  Text, ok, >>=-eq-ok, ok_injective, text_eq, nat_eq,
}
use regal.Base.Dict.{Dict, lookup, insert, lookup-insert, keys}
use regal.Fixer.Fixes.{Violation}
use regal.Linter.Types.{Report}
use regal.Linter.Run.{Engine}
use regal.Lsp.Concurrent.{set_key, get, clone}
use regal.Lsp.Types.{Diagnostic}
use regal.Lsp.Cache.{
  Cache, set_file_diagnostics, get_file_diagnostics, get_parse_errors, get_all_files,
  get_all_modules, get_module,
}
use regal.Lsp.Diagnostics.{
  file_or_root, violation_diagnostic, or_empty, file_diagnostics, convert_report_to_diagnostics,
}
use regal.Lsp.Server.{Env}
use regal.Lsp.Server.Linted.{
  Rules, insert_text, sort_texts, new_input, has_no_errors, set_all_diagnostics, workspace_linter,
  report_of, update_workspace_diagnostics,
}

-- The violations of a file as diagnostics, in the order of the report.
abbrev pub of_file : Text → Text → List Violation → List Diagnostic
of_file root u [] = []
of_file root u (item ∷ items) =
    if file_or_root item root == u
    then violation_diagnostic item ∷ of_file root u items
    else of_file root u items

abbrev pub is_some : {A : Type 0} → Option A → Bool
is_some none = false
is_some (some _) = true

file_diagnostics_lem :
    (items : List Violation) (root u : Text) (diags : Dict Text (List Diagnostic))
    → or_empty (lookup u (file_diagnostics items root diags))
      ≡ or_empty (lookup u diags) ++ of_file root u items
unfolding file_diagnostics
file_diagnostics_lem [] root u diags = sym (append-nil _)
file_diagnostics_lem (item ∷ items) root u diags =
    let file = file_or_root item root in
    let value = or_empty (lookup file diags) ++ violation_diagnostic item ∷ [] in
    file_diagnostics_lem items root u (insert file value diags) ∙ elim (Bool-cases (file == u)) [
      | inl same ↦
          let e : file ≡ u = (eq_iff file u).0 same in
          rw (lookup-insert file u value diags) (
            rw same (
              append_assoc (or_empty (lookup file diags)) (violation_diagnostic item ∷ [])
                (of_file root u items)
              ∙ ap
                  (λ x.
                    or_empty (lookup x diags) ++ violation_diagnostic item ∷ of_file root u items)
                  e))
      | inr apart ↦ rw (lookup-insert file u value diags) (rw apart refl)
    ]

contains-insert_text :
    (a u : Text) (bs : List Text) → contains (insert_text a bs) u ≡ (a == u || contains bs u)
unfolding insert_text contains
contains-insert_text a u [] = ground arith
contains-insert_text a u (b ∷ bs) = ground (arith, contains-insert_text a u bs)

contains-sort_texts : (u : Text) (as_ : List Text) → contains (sort_texts as_) u ≡ contains as_ u
unfolding sort_texts contains
contains-sort_texts u [] = refl
contains-sort_texts u (a ∷ as_) =
    ground (arith, contains-insert_text a u (sort_texts as_), contains-sort_texts u as_)

contains-keys :
    {A : Type 0} (u : Text) (m : Dict Text A) → contains (keys m) u ≡ is_some (lookup u m)
unfolding contains lookup
contains-keys u [] = refl
contains-keys u ((k, v) ∷ m) = ground (arith, contains-keys u m)

module _ {M : Type 0} where
  set_file_diagnostics-lookup :
      (c : Cache M) (uri u : Text) (ds : List Diagnostic)
      → get_file_diagnostics (set_file_diagnostics c uri ds) u
        ≡ (if uri == u then some ds else get_file_diagnostics c u)
  unfolding set_file_diagnostics set_key get_file_diagnostics get
  set_file_diagnostics-lookup c uri u ds = lookup-insert uri u ds c.diagnostics_file

  get_parse_errors_kept :
      (c : Cache M) (uri u : Text) (ds : List Diagnostic)
      → get_parse_errors (set_file_diagnostics c uri ds) u ≡ get_parse_errors c u
  unfolding set_file_diagnostics get_parse_errors get
  get_parse_errors_kept c uri u ds = refl

  set_all_diagnostics-lookup :
      (diags : Dict Text (List Diagnostic)) (uris : List Text) (u : Text) (c : Cache M)
      → get_file_diagnostics (set_all_diagnostics diags uris c) u ≡ (
          if contains uris u && has_no_errors (get_parse_errors c u)
          then some (or_empty (lookup u diags))
          else get_file_diagnostics c u)
  unfolding set_all_diagnostics contains
  set_all_diagnostics-lookup diags [] u c = refl
  set_all_diagnostics-lookup diags (uri ∷ uris) u c =
      let ds = or_empty (lookup uri diags) in
      let c' = set_file_diagnostics c uri ds in
      elim (Bool-cases (has_no_errors (get_parse_errors c uri))) [
        | inl clean ↦
            rw (clean, set_all_diagnostics)
              (set_all_diagnostics-lookup diags uris u c' ∙ (elim (Bool-cases (uri == u)) [
                | inl same ↦
                    let e : uri ≡ u = (eq_iff uri u).0 same in
                    let kept = get_parse_errors_kept c uri u ds in
                    let clean_u = ap (λ x. has_no_errors (get_parse_errors c x)) e in
                    let there = ap (λ x. or_empty (lookup x diags)) e in
                    ground (arith, set_file_diagnostics-lookup c uri u ds)
                | inr apart ↦
                    let kept = get_parse_errors_kept c uri u ds in
                    ground (arith, set_file_diagnostics-lookup c uri u ds)
              ]))
        | inr errors ↦
            rw (errors, set_all_diagnostics)
              (set_all_diagnostics-lookup diags uris u c ∙ (elim (Bool-cases (uri == u)) [
                | inl same ↦
                    let e : uri ≡ u = (eq_iff uri u).0 same in
                    let errors_u = ap (λ x. has_no_errors (get_parse_errors c x)) e in ground arith
                | inr apart ↦ ground arith
              ]))
      ]

names-contains :
    {M : Type 0} (c : Cache M) (u : Text)
    → contains (new_input (get_all_files c) (get_all_modules c)).file_names u
      ≡ is_some (get_module c u)
unfolding new_input get_all_modules clone get_module get
names-contains c u = contains-sort_texts u (keys c.modules) ∙ contains-keys u c.modules

converted :
    (violations : List Violation) (root u : Text)
    → or_empty (lookup u (convert_report_to_diagnostics violations root))
      ≡ of_file root u violations
unfolding convert_report_to_diagnostics lookup
converted violations root u = file_diagnostics_lem violations root u []

set_reported :
    {M : Type 0} (c : Cache M) (violations : List Violation) (root u : Text)
    → get_file_diagnostics
        (set_all_diagnostics
          (convert_report_to_diagnostics violations root)
          (new_input (get_all_files c) (get_all_modules c)).file_names
          c)
        u
      ≡ (if is_some (get_module c u) && has_no_errors (get_parse_errors c u)
          then some (of_file root u violations)
          else get_file_diagnostics c u)
set_reported c violations root u =
    set_all_diagnostics-lookup (convert_report_to_diagnostics violations root)
      (new_input (get_all_files c) (get_all_modules c)).file_names u c
    ∙ rw (names-contains c u, converted violations root u) refl

-- After a run of the linter over the workspace, the diagnostics of each file that has a module and no
-- parse errors are the violations of the report in that file, in their order, where a violation
-- without a file is one of the workspace; those of any other file are what they were before.
pub update_workspace_diagnostics_lem :
    {M Q O G : Type 0} (env : Env M G) (engine : Engine M Q O G) (rules : Rules M) (c c' : Cache M)
    → update_workspace_diagnostics env engine rules c ≡ ok c'
    → (rpt : Report O) × (report_of env engine rules (workspace_linter env engine rules c) ≡ ok rpt)
      × ((u : Text)
          → get_file_diagnostics c' u ≡ (
              if is_some (get_module c u) && has_no_errors (get_parse_errors c u)
              then some (of_file env.root_uri u rpt.violations)
              else get_file_diagnostics c u))
unfolding update_workspace_diagnostics
update_workspace_diagnostics_lem env engine rules c c' h =
    let (rpt, found, e) = >>=-eq-ok _ _ h in
    (
      rpt,
      found,
      λ u.
          subst
            (λ x. get_file_diagnostics x u ≡ (
              if is_some (get_module c u) && has_no_errors (get_parse_errors c u)
              then some (of_file env.root_uri u rpt.violations)
              else get_file_diagnostics c u))
            (ok_injective e) (set_reported c rpt.violations env.root_uri u),
    )
