-- ===== src/Linter/Validate/Accepts.antt =====
-- pkg/linter/linter.go: which configurations `validate` accepts.
use regal.Base.{
  ℕ, ◌-◌, ◌≡◌, ◌↔◌, Bool, true, false, ◌&&◌, ◌||◌, none, List, [], ◌∷◌, arith, length, ◌==◌,
  contains, Text, ok, text_eq, nat_eq,
}
use regal.Base.Dict.{Dict, keys}
use regal.Config.Settings.Types.{Category, Config}
use regal.Linter.Types.{Bundle, Linter}
use regal.Linter.Validate.{
  Known, part, add_parts, configured_rules, add_modules, add_bundles, valid, configured, validate,
}
use regal.Util.Set
use regal.Util.Set.{Set, member}
use regal.Util.Set.Laws.{member-add, member-new_set, member-diff, size_zero_iff}

-- What the configuration and the options name.
abbrev pub in_category : Dict Text Category → Text → Bool
in_category [] name = false
in_category ((_, cat) ∷ rules) name = contains (keys cat) name || in_category rules name

-- A path of `len` parts that has the name at `i`.
abbrev pub at_part : (len i : ℕ) → List Text → Text → Bool
at_part len i parts name = length parts == len && part parts i == name

module _ {M : Type 0} (path_of : M → List Text) where
  abbrev pub any_module : (len i : ℕ) → List M → Text → Bool
  any_module len i [] name = false
  any_module len i (m ∷ modules) name =
      at_part len i (path_of m) name || any_module len i modules name

  abbrev pub any_bundle : (i : ℕ) → List (Bundle M) → Text → Bool
  any_bundle i [] name = false
  any_bundle i (b ∷ bundles) name = any_module 4 i b.modules name || any_bundle i bundles name

  member-add_parts :
      (len : ℕ) (parts : List Text) (known : Known) (name : Text)
      → (member (add_parts len parts known).rules name
          ≡ (member known.rules name || at_part len (len - 1) parts name))
        × (member (add_parts len parts known).categories name
            ≡ (member known.categories name || at_part len (len - 2) parts name))
  unfolding add_parts contains
  member-add_parts len parts known name = ground (
    arith,
    member-add known.rules (part parts (len - 1) ∷ []) name,
    member-add known.categories (part parts (len - 2) ∷ []) name,
  )

  member-add_modules :
      (len : ℕ) (modules : List M) (known : Known) (name : Text)
      → (member (add_modules path_of len modules known).rules name
          ≡ (member known.rules name || any_module len (len - 1) modules name))
        × (member (add_modules path_of len modules known).categories name
            ≡ (member known.categories name || any_module len (len - 2) modules name))
  unfolding add_modules
  member-add_modules len [] known name = ground arith
  member-add_modules len (m ∷ modules) known name = ground (
    arith,
    member-add_modules len modules (add_parts len (path_of m) known) name,
    member-add_parts len (path_of m) known name,
  )

  member-add_bundles :
      (bundles : List (Bundle M)) (known : Known) (name : Text)
      → (member (add_bundles path_of bundles known).rules name
          ≡ (member known.rules name || any_bundle 3 bundles name))
        × (member (add_bundles path_of bundles known).categories name
            ≡ (member known.categories name || any_bundle 2 bundles name))
  unfolding add_bundles
  member-add_bundles [] known name = ground arith
  member-add_bundles (b ∷ bundles) known name = ground (
    arith,
    member-add_bundles bundles (add_modules path_of 4 b.modules known) name,
    member-add_modules 4 b.modules known name,
  )

member-configured_rules :
    (rules : Dict Text Category) (s : Set Text) (name : Text)
    → member (configured_rules rules s) name ≡ (member s name || in_category rules name)
unfolding configured_rules
member-configured_rules [] s name = ground arith
member-configured_rules ((c, cat) ∷ rules) s name =
    ground (
      arith,
      member-configured_rules rules (Set.add s (keys cat)) name,
      member-add s (keys cat) name,
    )

module _ {M Q : Type 0} (path_of : M → List Text) where
  abbrev pub has_category : Linter M Q → Text → Bool
  has_category l name =
      any_bundle path_of 2 l.rule_bundles name || any_module path_of 5 3 l.custom_rule_modules name

  abbrev pub has_rule : Linter M Q → Text → Bool
  has_rule l name =
      any_bundle path_of 3 l.rule_bundles name || any_module path_of 5 4 l.custom_rule_modules name

  member-valid :
      (l : Linter M Q) (name : Text)
      → (member (valid path_of l).rules name ≡ has_rule l name)
        × (member (valid path_of l).categories name ≡ has_category l name)
  unfolding valid contains
  member-valid l name =
      let empty : Known = record { categories = Set.new_set []; rules = Set.new_set [] } in
      ground (
        arith,
        member-add_modules path_of 5 l.custom_rule_modules
            (add_bundles path_of l.rule_bundles empty) name,
        member-add_bundles path_of l.rule_bundles empty name,
        member-new_set {0} [] name,
      )

module _ {M Q : Type 0} where
  abbrev pub names_category : Linter M Q → Config → Text → Bool
  names_category l conf name =
      contains (keys conf.rules) name
      || contains l.enable_category name
      || contains l.disable_category name

  abbrev pub names_rule : Linter M Q → Config → Text → Bool
  names_rule l conf name =
      in_category conf.rules name || contains l.enable name || contains l.disable name

  member-configured :
      (l : Linter M Q) (conf : Config) (name : Text)
      → (member (configured l conf).rules name ≡ names_rule l conf name)
        × (member (configured l conf).categories name ≡ names_category l conf name)
  unfolding configured contains
  member-configured l conf name =
      let categories = Set.new_set (keys conf.rules) in
      let rules = configured_rules conf.rules (Set.new_set []) in
      ground (
        arith,
        member-configured_rules conf.rules (Set.new_set []) name,
        member-new_set {0} [] name,
        member-new_set (keys conf.rules) name,
        member-add categories l.enable_category name,
        member-add (Set.add categories l.enable_category) l.disable_category name,
        member-add rules l.enable name,
        member-add (Set.add rules l.enable) l.disable name,
      )

-- What a set lacks of another one.
diff_empty_iff :
    (s b : Set Text)
    → (Set.size (Set.diff s b) ≡ 0) ↔ ((j : Text) → member s j ≡ true → member b j ≡ true)
diff_empty_iff s b = (
  λ h j m. ground (arith, member-diff s b j, (size_zero_iff (Set.diff s b)).0 h j),
  λ h. (size_zero_iff (Set.diff s b)).1 (λ j. ground (arith, member-diff s b j, h j)),
)

module _ {M Q : Type 0} (path_of : M → List Text) (print : Set Text → Text) where
  accepted :
      (l : Linter M Q) (conf : Config)
      → (validate path_of print l conf ≡ ok tt) ↔ (
          (l.custom_rule_error ≡ none)
          × (Set.size (Set.diff (configured l conf).categories (valid path_of l).categories) ≡ 0)
          × (Set.size (Set.diff (configured l conf).rules (valid path_of l).rules) ≡ 0))
  unfolding validate
  accepted l conf = (λ h. ground (arith, h), λ (a, b, c). ground (arith, a, b, c))

  -- `validate` accepts exactly the linters without an error from the custom rules for which every
  -- category and every rule that the configuration or an option names is the third and the fourth
  -- part of the path of a module with four parts in a bundle, or the fourth and the fifth part of the
  -- path of a custom module with five.
  pub validate_iff :
      (l : Linter M Q) (conf : Config)
      → (validate path_of print l conf ≡ ok tt) ↔ (
          (l.custom_rule_error ≡ none)
          × ((c : Text) → names_category l conf c ≡ true → has_category path_of l c ≡ true)
          × ((r : Text) → names_rule l conf r ≡ true → has_rule path_of l r ≡ true))
  validate_iff l conf = (
    λ h.
        let (no_error, categories, rules) = (accepted l conf).0 h in
        (
          no_error,
          λ c m. ground (
            arith,
            member-valid path_of l c,
            member-configured l conf c,
            (diff_empty_iff (configured l conf).categories (valid path_of l).categories).0
                categories c,
          ),
          λ r m. ground (
            arith,
            member-valid path_of l r,
            member-configured l conf r,
            (diff_empty_iff (configured l conf).rules (valid path_of l).rules).0 rules r,
          ),
        ),
    λ (no_error, categories, rules). (accepted l conf).1 (
      no_error,
      (diff_empty_iff (configured l conf).categories (valid path_of l).categories).1 (λ c m.
          ground (arith, member-valid path_of l c, member-configured l conf c, categories c)),
      (diff_empty_iff (configured l conf).rules (valid path_of l).rules).1
          (λ r m. ground (arith, member-valid path_of l r, member-configured l conf r, rules r)),
    ),
  )
