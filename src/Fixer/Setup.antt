-- ===== src/Fixer/Setup.antt =====
-- pkg/fixer/fixer.go: how a fixer is set up, and what it asks of the linter.
use regal.Base.{
  ◌≡◌, refl, ◌⊎◌, inl, inr, Option, none, some, List, [], ◌∷◌, ◌++◌, if◌then◌else◌, ◌==◌, Text,
  Outcome, text_eq, nat_eq,
}
use regal.Fixer.Fixes.{Violation, Config, Fix}

pub data OnConflictOperation : Type 0 where
  on_conflict_error : OnConflictOperation
  on_conflict_rename : OnConflictOperation
  unsupported : Text → OnConflictOperation

pub operation-cases :
    (op : OnConflictOperation)
    → (op ≡ on_conflict_error) ⊎ ((op ≡ on_conflict_rename) ⊎ ((t : Text) × (op ≡ unsupported t)))
operation-cases on_conflict_error = inl refl
operation-cases on_conflict_rename = inr (inl refl)
operation-cases (unsupported t) = inr (inr (t, refl))

pub record Fixer : Type 0 where
  pub registered_fixes : List Fix
  pub on_conflict_operation : OnConflictOperation
  pub registered_roots : List Text

unfoldable pub new_fixer : Fixer
new_fixer = record {
  registered_fixes = [];
  on_conflict_operation = on_conflict_error;
  registered_roots = [];
}

unfoldable pub set_on_conflict_operation : Fixer → OnConflictOperation → Fixer
set_on_conflict_operation f operation = record f { on_conflict_operation = operation }

unfoldable pub register_fixes : Fixer → List Fix → Fixer
register_fixes f fixes = record f { registered_fixes = f.registered_fixes ++ fixes }

unfoldable pub register_roots : Fixer → List Text → Fixer
register_roots f roots = record f { registered_roots = f.registered_roots ++ roots }

unfoldable pub find_fix : Text → List Fix → Option Fix
find_fix name [] = none
find_fix name (fix ∷ fixes) = if fix.name == name then some fix else find_fix name fixes

unfoldable pub get_fix_for_name : Fixer → Text → Option Fix
unfolding find_fix
get_fix_for_name f name = find_fix name f.registered_fixes

-- What the fixer uses of the linter: `lint` is `ToInput` of the provider followed by `Lint`.
pub record Linter (S : Type 0) : Type 0 where
  pub determine_enabled_rules : Outcome (List Text)
  pub get_config : Outcome (Option Config)
  pub prepare : List Text → Outcome (Unit {0})
  pub lint : List Text → S → Outcome (List Violation)
