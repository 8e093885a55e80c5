-- ===== src/Config/Settings/Levels.antt =====
-- pkg/config/bundle.go: the default configuration of the bundle with the user's merged into it. The
-- merge itself is a library's.
use regal.Base.{
  Bool, true, false, not, Option, none, some, [], ◌∷◌, if◌then◌else◌, Text, codes, Outcome, ok,
  ◌>>=◌, wrap, text_eq,
}
use regal.Base.Dict.{Dict, lookup, insert}
use regal.Config.Settings.Types.{Capabilities, Category, Config, Rule}

-- `for ruleName := range rulesByCategory`, and the loop around it.
unfoldable pub category_levels : Category → Dict Text Text → Dict Text Text
category_levels [] rule_levels = rule_levels
category_levels ((rule_name, rule) ∷ rules) rule_levels =
    category_levels rules (insert rule_name rule.level rule_levels)

unfoldable pub all_levels : Dict Text Category → Dict Text Text → Dict Text Text
unfolding category_levels
all_levels [] rule_levels = rule_levels
all_levels ((category_name, rules) ∷ categories) rule_levels =
    all_levels categories (category_levels rules rule_levels)

unfoldable pub provided_conf_levels : Config → Dict Text Text
unfolding all_levels
provided_conf_levels conf = all_levels conf.rules []

abbrev pub category_of : Option Category → Category
category_of none = []
category_of (some rules) = rules

-- The level that the user gave to the rule, empty if there is none.
unfoldable pub user_level : Config → (category_name rule_name : Text) → Text
user_level user_config category_name rule_name =
    elim (lookup rule_name (category_of (lookup category_name user_config.rules))) [
      | none ↦ []
      | some rule ↦ rule.level
    ]

abbrev pub no_level : Text → Bool
no_level [] = true
no_level (_ ∷ _) = false

unfoldable pub selected_level :
    (user_config merged_conf : Config) → (category_name rule_name provided_level : Text) → Text
unfolding user_level
selected_level user_config merged_conf category_name rule_name provided_level =
    if not (no_level (user_level user_config category_name rule_name))
    then user_level user_config category_name rule_name
    else elim (lookup category_name merged_conf.defaults.categories) [
      | some category_default ↦
          if not (no_level category_default.level) then category_default.level else provided_level
      | none ↦
          if not (no_level merged_conf.defaults.global.level)
          then merged_conf.defaults.global.level
          else provided_level
    ]

module _ (user_config merged_conf : Config) (provided_rule_levels : Dict Text Text) where
  -- The body of the inner loop.
  unfoldable pub set_level : Text → Text → Rule → Rule
  unfolding selected_level
  set_level category_name rule_name rule = elim (lookup rule_name provided_rule_levels) [
    | none ↦ rule
    | some provided_level ↦ record rule {
      level = selected_level user_config merged_conf category_name rule_name provided_level;
    }
  ]

  -- Each rule is replaced where it stands, so the loops change the maps entry by entry.
  unfoldable pub set_levels : Text → Category → Category
  unfolding set_level
  set_levels category_name [] = []
  set_levels category_name ((rule_name, rule) ∷ rules) =
      (rule_name, set_level category_name rule_name rule) ∷ set_levels category_name rules

  unfoldable pub set_all_levels : Dict Text Category → Dict Text Category
  unfolding set_levels
  set_all_levels [] = []
  set_all_levels ((category_name, rules) ∷ categories) =
      (category_name, set_levels category_name rules) ∷ set_all_levels categories

unfoldable pub extract_user_rule_levels :
    (user_config merged_conf : Config) → Dict Text Text → Config
unfolding set_all_levels
extract_user_rule_levels user_config merged_conf provided_rule_levels = record merged_conf {
  rules = set_all_levels user_config merged_conf provided_rule_levels merged_conf.rules;
}

-- `CapabilitiesForThisVersion` is embedded data of the engine, and `merge` is `mergo.Merge`.
module _ (capabilities_for_this_version : Capabilities) where
  unfoldable pub or_this_version : Option Capabilities → Option Capabilities
  or_this_version none = some capabilities_for_this_version
  or_this_version (some c) = some c

  unfoldable pub with_defaults_from_bundle :
      (merge : Config → Config → Outcome Config)
      → (default_config : Config) → (user_config : Option Config) → Outcome Config
  unfolding or_this_version extract_user_rule_levels provided_conf_levels
  with_defaults_from_bundle merge default_config none =
      ok (record default_config { capabilities = some capabilities_for_this_version })
  with_defaults_from_bundle merge default_config (some user_config) = do
    merged ← wrap (codes "failed to merge user config:") (merge default_config user_config)
    ok (
        extract_user_rule_levels user_config
          (record merged { capabilities = or_this_version merged.capabilities })
          (provided_conf_levels default_config))
