-- ===== src/Lsp/Diagnostics.antt =====
-- internal/lsp/lint.go: what errors of the parser and violations become in the editor.
use regal.Base.{
  ℕ, zero, suc, ◌+◌, ◌-◌, Option, none, some, List, [], ◌∷◌, ◌++◌, if◌then◌else◌, length, ◌==◌,
  Text, codes, ℤ, pos, negsuc, text_eq, nat_eq,
}
use regal.Base.Dict.{Dict, lookup, insert}
use regal.Util.Lines
use regal.Fixer.Fixes.{Violation, Location}
use regal.Lsp.Types.{Range, Diagnostic, range_between}

-- `ast.Error` of the engine, with the row of its location.
pub record AstError : Type 0 where
  pub code : Text
  pub message_text : Text
  pub row : ℤ

abbrev pub error_level : ℕ
error_level = 1

abbrev pub warning_level : ℕ
warning_level = 2

abbrev pub info_level : ℕ
info_level = 3

-- `uint(max(n-1, 0))`
unfoldable pub below : ℤ → ℕ
below (pos n) = n - 1
below (negsuc n) = 0

-- `strings.ReplaceAll(code, "_", "-")`
unfoldable pub dashed : Text → Text
dashed [] = []
dashed (c ∷ s) = (if c == b'_' then b'-' else c) ∷ dashed s

-- `cmp.Or(uint(len(text)), 1)`
abbrev pub or_one : ℕ → ℕ
or_one zero = 1
or_one (suc n) = suc n

unfoldable pub error_diagnostic : Text → AstError → Diagnostic
unfolding below dashed
error_diagnostic content e = record {
  message_text = e.message_text;
  code = dashed e.code;
  range =
      range_between (below e.row) 0 (below e.row)
        (or_one (length (Lines.line content (below e.row + 1)).0));
  severity = error_level;
}

unfoldable pub error_diagnostics : Text → List AstError → List Diagnostic
unfolding error_diagnostic
error_diagnostics content [] = []
error_diagnostics content (e ∷ es) = error_diagnostic content e ∷ error_diagnostics content es

-- The end of the range, if the violation has no end of its own.
abbrev pub end_of_text : Location → Range
end_of_text loc = elim loc.text [
  | none ↦ range_between (below loc.row) (below loc.column) (below loc.row) (below loc.column)
  | some t ↦
      range_between (below loc.row) (below loc.column) (below loc.row) (below loc.column + length t)
]

unfoldable pub get_range_for_violation : Violation → Range
unfolding below
get_range_for_violation item = elim item.location.end [
  | some e ↦
      range_between (below item.location.row) (below item.location.column) (below e.row)
        (below e.column)
  | none ↦ end_of_text item.location
]

unfoldable pub violation_diagnostic : Violation → Diagnostic
unfolding get_range_for_violation
violation_diagnostic item = record {
  message_text = item.description;
  code = item.title;
  range = get_range_for_violation item;
  severity = if item.level == codes "warning" then info_level else warning_level;
}

-- The file of the violation, and the workspace where it has none.
unfoldable pub file_or_root : Violation → Text → Text
file_or_root item workspace_root_uri =
    if item.location.file == [] then workspace_root_uri else item.location.file

abbrev pub or_empty : Option (List Diagnostic) → List Diagnostic
or_empty none = []
or_empty (some ds) = ds

-- The loop over the violations.
unfoldable pub file_diagnostics :
    List Violation → Text → Dict Text (List Diagnostic) → Dict Text (List Diagnostic)
unfolding file_or_root violation_diagnostic
file_diagnostics [] root diags = diags
file_diagnostics (item ∷ items) root diags =
    let file = file_or_root item root in
    file_diagnostics items root
      (insert file (or_empty (lookup file diags) ++ violation_diagnostic item ∷ []) diags)

unfoldable pub convert_report_to_diagnostics : List Violation → Text → Dict Text (List Diagnostic)
unfolding file_diagnostics
convert_report_to_diagnostics violations workspace_root_uri =
    file_diagnostics violations workspace_root_uri []
