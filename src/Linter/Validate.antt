-- ===== src/Linter/Validate.antt =====
-- pkg/linter/linter.go: `validate`. `path_of` is the storage path of a module's package, empty where
-- the package has none.
pub mod Accepts
use regal.Base.{
  ℕ, ◌-◌, not, ◌&&◌, none, some, List, [], ◌∷◌, ◌++◌, ltb, if◌then◌else◌, length, get_elem?, ◌==◌,
  Text, codes, message, wrapped, Outcome, ok, err, text_eq, nat_eq,
}
use regal.Base.Dict.{Dict, keys}
use regal.Config.Settings.Types.{Category, Config}
use regal.Linter.Types.{Bundle, Linter}
use regal.Util.Set
use regal.Util.Set.{Set}

-- The categories and the rules that there are.
pub record Known : Type 0 where
  pub categories : Set Text
  pub rules : Set Text

-- `parts[i]` of a path that is long enough.
abbrev pub part : List Text → ℕ → Text
part parts i = elim (get_elem? parts i) [ none ↦ [] | some p ↦ p ]

-- One more name of each kind, if the path has the length that the names of its kind have.
unfoldable pub add_parts : (len : ℕ) → List Text → Known → Known
add_parts len parts known = if not (length parts == len) then known else record {
  categories = Set.add known.categories (part parts (len - 2) ∷ []);
  rules = Set.add known.rules (part parts (len - 1) ∷ []);
}

unfoldable pub configured_rules : Dict Text Category → Set Text → Set Text
configured_rules [] configured = configured
configured_rules ((_, cat) ∷ rules) configured =
    configured_rules rules (Set.add configured (keys cat))

module _ {M : Type 0} (path_of : M → List Text) where
  unfoldable pub add_modules : (len : ℕ) → List M → Known → Known
  unfolding add_parts
  add_modules len [] known = known
  add_modules len (m ∷ modules) known = add_modules len modules (add_parts len (path_of m) known)

  unfoldable pub add_bundles : List (Bundle M) → Known → Known
  unfolding add_modules
  add_bundles [] known = known
  add_bundles (b ∷ bundles) known = add_bundles bundles (add_modules 4 b.modules known)

module _ {M Q : Type 0} where
  unfoldable pub configured : Linter M Q → Config → Known
  unfolding configured_rules
  configured l conf = record {
    categories =
        Set.add (Set.add (Set.new_set (keys conf.rules)) l.enable_category) l.disable_category;
    rules = Set.add (Set.add (configured_rules conf.rules (Set.new_set [])) l.enable) l.disable;
  }

module _ {M Q : Type 0} (path_of : M → List Text) where
  -- The two sets that are looked up in: built-in rules first, custom rules then.
  unfoldable pub valid : Linter M Q → Known
  unfolding add_bundles add_modules
  valid l = add_modules path_of 5 l.custom_rule_modules (
      add_bundles path_of l.rule_bundles
        (record { categories = Set.new_set []; rules = Set.new_set [] }))

  -- `print` is how a set is printed.
  unfoldable pub validate : (print : Set Text → Text) → Linter M Q → Config → Outcome (Unit {0})
  unfolding valid configured
  validate print l conf = elim l.custom_rule_error [
    | some e ↦ err (wrapped (codes "failed to load custom rules:") e)
    | none ↦
        let invalid_categories = Set.diff (configured l conf).categories (valid l).categories in
        let invalid_rules = Set.diff (configured l conf).rules (valid l).rules in
        if ltb 0 (Set.size invalid_categories) && ltb 0 (Set.size invalid_rules)
        then err (
            message (
              codes "unknown categories: "
              ++ (print invalid_categories ++ (codes ", unknown rules: " ++ print invalid_rules))))
        else if ltb 0 (Set.size invalid_categories)
        then err (message (codes "unknown categories: " ++ print invalid_categories))
        else if ltb 0 (Set.size invalid_rules)
        then err (message (codes "unknown rules: " ++ print invalid_rules))
        else ok tt
  ]
