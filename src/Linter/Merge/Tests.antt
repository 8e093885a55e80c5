-- ===== src/Linter/Merge/Tests.antt =====
-- pkg/linter/linter.go: two files whose directives are objects with one key each; numbers under a
-- common key cannot be merged.
use regal.Base.{
  ℕ, ◌≡◌, refl, Bool, true, false, ◌||◌, Option, none, some, List, [], ◌∷◌, arith, ltb,
  if◌then◌else◌, length, eq_iff, eq_refl, contains, Text, codes, text_beq, Error, Outcome, ok,
  ◌>>=◌, text_eq, nat_eq,
}
use regal.Base.Dict.{Dict, keys}
use regal.Linter.Types.{Input, Report}
use regal.Linter.Merge.{empty_report, results_of, lint}
use regal.Linter.Merge.Returns.{IsMerge, AreApart, directive_keys, all_directive_keys, lint_returns}

abbrev Object : Type 0
Object = Dict Text ℕ

abbrev extended : Text → ℕ → Object → Option Object → Option Object
extended k v b none = none
extended k v b (some c) = if contains (keys b) k then none else some ((k, v) ∷ c)

abbrev merge_objects : Object → Object → Option Object
merge_objects [] b = some b
merge_objects ((k, v) ∷ a) b = extended k v b (merge_objects a b)

merges :
    (a b : Object)
    → AreApart (keys a) (keys b)
    → (c : Object) × (merge_objects a b ≡ some c)
      × ((k : Text) → contains (keys c) k ≡ (contains (keys a) k || contains (keys b) k))
unfolding contains
merges [] b apart = (b, refl, λ k. refl)
merges ((k, v) ∷ a) b apart =
    let (c, made, ks) = merges a b (λ j h. apart j (ground (arith, h))) in
    let free : contains (keys b) k ≡ false = apart k (ground (arith, eq_refl k)) in
    ((k, v) ∷ c, rw (made, free) refl, λ j. ground (arith, ks j))

law : IsMerge keys merge_objects
law = record { merges = merges }

abbrev a_rego : Text
a_rego = codes "a.rego"

abbrev b_rego : Text
b_rego = codes "b.rego"

abbrev found_in : Text → Report Object
found_in name = record empty_report {
  aggregates = some [];
  ignore_directives = some ((name, 1) ∷ []);
}

abbrev evaluate : Bool → Text → Text → Option ℕ → Outcome (Report Object)
evaluate collect name content m = ok (found_in name)

abbrev never : Error → Bool
never e = false

abbrev input : Input ℕ
input = record { file_names = a_rego ∷ b_rego ∷ []; file_content = []; modules = [] }

abbrev results : List (Report Object)
results = found_in a_rego ∷ found_in b_rego ∷ []

evaluated :
    results_of evaluate (ltb 1 (length input.file_names) || false) input input.file_names
    ≡ ok results
unfolding results_of regal.Base.◌>>=◌
evaluated = refl

apart : AreApart (a_rego ∷ []) (b_rego ∷ [])
unfolding contains text_beq
apart k h = ground (arith, h, eq_iff a_rego k, eq_iff b_rego k)

lint_returns_example :
    (out : Report Object) × (lint evaluate merge_objects never false true input ≡ ok out)
    × ((k : Text)
        → contains (directive_keys keys out) k ≡ contains (all_directive_keys keys results) k)
unfolding contains
lint_returns_example =
    lint_returns evaluate merge_objects never keys false true input results law evaluated
      (((λ q. cc), (λ q. cc)), (((λ q. cc), (λ q. cc)), tt)) (apart, ((λ k h. refl), tt))
