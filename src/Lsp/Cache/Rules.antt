-- ===== src/Lsp/Cache/Rules.antt =====
-- internal/lsp/cache/cache.go: `SetFileDiagnosticsForRules` among the calls of other threads.
use regal.Base.{
  ◌≡◌, refl, ap, ◌∙◌, true, false, none, some, List, [], ◌∷◌, ◌++◌, append-nil, arith,
  if◌then◌else◌, eq_refl, contains, Text, text_eq,
}
use regal.Base.Dict.{Dict, lookup-insert}
use regal.Util.Set
use regal.Util.Set.Laws.{contains_all_one, member-new_set}
use regal.Lsp.Concurrent.{update_value, get_unchecked}
use regal.Lsp.Concurrent.Interleaved.{Call, updates, Avoids, Reach, here, next, apply, apply-Avoids}
use regal.Lsp.Types.{Diagnostic}
use regal.Lsp.Cache.{Cache, preserved, for_rules, set_file_diagnostics_for_rules}

-- The diagnostics whose code is one of the rules.
abbrev pub of_rules : List Text → List Diagnostic → List Diagnostic
of_rules rules [] = []
of_rules rules (d ∷ ds) = if contains rules d.code then d ∷ of_rules rules ds else of_rules rules ds

-- All codes are among the rules.
abbrev pub AreOfRules : List Text → List Diagnostic → Type 0
AreOfRules rules [] = Unit
AreOfRules rules (d ∷ ds) = (contains rules d.code ≡ true) × AreOfRules rules ds

-- No rule is in both lists.
abbrev pub AreApart : List Text → List Text → Type 0
AreApart rules other = (code : Text) → contains rules code ≡ true → contains other code ≡ false

-- A call about other files, or one that sets the diagnostics of other rules.
pub data Keeps (uri : Text) (rules : List Text) : Call (List Diagnostic) → Type 0 where
  elsewhere : (c : Call (List Diagnostic)) → Avoids uri c → Keeps uri rules c
  other_rules :
      (other : List Text) (diags : List Diagnostic)
      → AreApart rules other
      → AreOfRules other diags
      → Keeps uri rules (updates uri (for_rules other diags))

abbrev pub present : Text → Dict Text (List Diagnostic) → List Diagnostic
present uri m = get_unchecked [] m uri

of_rules-append :
    (rules : List Text) (a b : List Diagnostic)
    → of_rules rules (a ++ b) ≡ of_rules rules a ++ of_rules rules b
of_rules-append rules [] b = refl
of_rules-append rules (d ∷ a) b = ground (arith, of_rules-append rules a b)

of_rules_own :
    (rules : List Text) (ds : List Diagnostic) → AreOfRules rules ds → of_rules rules ds ≡ ds
of_rules_own rules [] h = refl
of_rules_own rules (d ∷ ds) (p, h) = ground (arith, p, of_rules_own rules ds h)

of_rules_apart :
    (rules other : List Text) (ds : List Diagnostic)
    → AreApart rules other
    → AreOfRules other ds
    → of_rules rules ds ≡ []
of_rules_apart rules other [] apart h = refl
of_rules_apart rules other (d ∷ ds) apart (p, h) =
    ground (arith, p, apart d.code, of_rules_apart rules other ds apart h)

of_rules-preserved_own :
    (rules : List Text) (ds : List Diagnostic)
    → of_rules rules (preserved (Set.new_set rules) ds) ≡ []
unfolding preserved
of_rules-preserved_own rules [] = refl
of_rules-preserved_own rules (d ∷ ds) = ground (
  arith,
  contains_all_one (Set.new_set rules) d.code,
  member-new_set rules d.code,
  of_rules-preserved_own rules ds,
)

of_rules-preserved_apart :
    (rules other : List Text) (ds : List Diagnostic)
    → AreApart rules other
    → of_rules rules (preserved (Set.new_set other) ds) ≡ of_rules rules ds
unfolding preserved
of_rules-preserved_apart rules other [] apart = refl
of_rules-preserved_apart rules other (d ∷ ds) apart = ground (
  arith,
  contains_all_one (Set.new_set other) d.code,
  member-new_set other d.code,
  apart d.code,
  of_rules-preserved_apart rules other ds apart,
)

present-update_value :
    (m : Dict Text (List Diagnostic)) (uri : Text) (f : List Diagnostic → List Diagnostic)
    → present uri (update_value [] m uri f) ≡ f (present uri m)
unfolding update_value get_unchecked
present-update_value m uri f =
    ground (arith, lookup-insert uri uri (f (get_unchecked [] m uri)) m, eq_refl uri)

Keeps-of_rules :
    (uri : Text) (rules : List Text) (c : Call (List Diagnostic)) (m : Dict Text (List Diagnostic))
    → Keeps uri rules c
    → of_rules rules (present uri (apply [] c m)) ≡ of_rules rules (present uri m)
unfolding apply for_rules get_unchecked
Keeps-of_rules uri rules c m (elsewhere _ a) =
    ap (λ o. of_rules rules (elim o [ none ↦ [] | some ds ↦ ds ])) (apply-Avoids [] uri c m a)
Keeps-of_rules uri rules c m (other_rules other diags apart h) =
    rw (present-update_value m uri (for_rules other diags)) (
      rw (of_rules-append rules (preserved (Set.new_set other) (present uri m)) diags) (
        rw (of_rules_apart rules other diags apart h)
          (append-nil _ ∙ of_rules-preserved_apart rules other (present uri m) apart)))

Reach-of_rules :
    (uri : Text) (rules : List Text) {m : Dict Text (List Diagnostic)}
    {m' : Dict Text (List Diagnostic)}
    → Reach [] (Keeps uri rules) m m'
    → of_rules rules (present uri m') ≡ of_rules rules (present uri m)
Reach-of_rules uri rules here = refl
Reach-of_rules uri rules (next {m1} r c k) =
    Keeps-of_rules uri rules c m1 k ∙ Reach-of_rules uri rules r

-- Once the diagnostics of some rules were set for a file, all with codes of those rules, they are
-- the file's diagnostics with codes of those rules, in their order, whatever calls of other threads
-- follow that are about other files or set the diagnostics of other rules.
pub set_file_diagnostics_for_rules-Reach :
    {M : Type 0} (c : Cache M) (uri : Text) (rules : List Text) (diags : List Diagnostic)
    (m : Dict Text (List Diagnostic))
    → AreOfRules rules diags
    → Reach []
        (Keeps uri rules)
        (set_file_diagnostics_for_rules c uri rules diags).diagnostics_file
        m
    → of_rules rules (present uri m) ≡ diags
unfolding set_file_diagnostics_for_rules for_rules
set_file_diagnostics_for_rules-Reach c uri rules diags m h r =
    Reach-of_rules uri rules r
    ∙ (rw (present-update_value c.diagnostics_file uri (for_rules rules diags)) (
        rw
          (of_rules-append rules (preserved (Set.new_set rules) (present uri c.diagnostics_file))
            diags)
          (rw (of_rules-preserved_own rules (present uri c.diagnostics_file))
            (of_rules_own rules diags h))))
