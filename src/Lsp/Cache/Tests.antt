-- ===== src/Lsp/Cache/Tests.antt =====
-- internal/lsp/cache/cache.go at concrete inputs.
use regal.Base.{
  ◌≡◌, refl, Bool, List, [], ◌∷◌, arith, eq_iff, contains, Text, codes, text_beq, text_eq, nat_eq,
}
use regal.Base.Dict.{Dict}
use regal.Lsp.Concurrent.Interleaved.{sets, updates, here, next, apply}
use regal.Lsp.Types.{Diagnostic, range_between}
use regal.Lsp.Cache.{
  Cache, new_cache, for_rules, set_file_diagnostics, set_file_diagnostics_for_rules,
}
use regal.Lsp.Cache.Rules.{
  elsewhere, other_rules, of_rules, present, AreApart, set_file_diagnostics_for_rules-Reach,
}

abbrev file : Text
file = codes "file:///p.rego"

abbrev a_rule : Text
a_rule = codes "prefer-snake-case"

abbrev b_rule : Text
b_rule = codes "todo-comment"

abbrev of_a : Diagnostic
of_a = record {
  range = range_between 0 0 0 1;
  severity = 2;
  code = a_rule;
  message_text = codes "Prefer snake_case";
}

abbrev of_b : Diagnostic
of_b = record {
  range = range_between 3 0 3 6;
  severity = 2;
  code = b_rule;
  message_text = codes "Avoid TODO";
}

abbrev two_calls : Dict Text (List Diagnostic) → Dict Text (List Diagnostic)
two_calls m =
    apply [] (updates file (for_rules (b_rule ∷ []) (of_b ∷ [])))
      (apply [] (sets (codes "file:///q.rego") []) m)

abbrev started : Cache Bool
started =
    set_file_diagnostics_for_rules (set_file_diagnostics new_cache file (of_b ∷ [])) file
      (a_rule ∷ []) (of_a ∷ [])

apart : AreApart (a_rule ∷ []) (b_rule ∷ [])
unfolding contains text_beq
apart code h = ground (arith, h, eq_iff a_rule code, eq_iff b_rule code)

set_file_diagnostics_for_rules-Reach_example :
    of_rules (a_rule ∷ []) (present file (two_calls started.diagnostics_file)) ≡ of_a ∷ []
unfolding contains text_beq
set_file_diagnostics_for_rules-Reach_example =
    set_file_diagnostics_for_rules-Reach (set_file_diagnostics new_cache file (of_b ∷ [])) file
      (a_rule ∷ []) (of_a ∷ []) (two_calls started.diagnostics_file) (refl, tt)
      (next (next here (sets (codes "file:///q.rego") []) (elsewhere _ refl))
        (updates file (for_rules (b_rule ∷ []) (of_b ∷ [])))
        (other_rules (b_rule ∷ []) (of_b ∷ []) apart (refl, tt)))
