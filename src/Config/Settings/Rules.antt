-- ===== src/Config/Settings/Rules.antt =====
-- pkg/config/config.go: rules and defaults out of untyped values, and back. Making an `Ignore` of a
-- value, and a value of it, is a round trip through the JSON library.
use regal.Base.{
  Bool, true, false, not, ◌&&◌, Option, none, some, [], ◌∷◌, ◌++◌, if◌then◌else◌, length, ◌==◌,
  Text, codes, ℤ, pos, negsuc, Error, message, Outcome, ok, err, ◌>>=◌, wrap, text_eq, nat_eq,
}
use regal.Base.Dict.{Dict, lookup, insert, erase}
use regal.Config.Settings.Values.{Value, text, as_map, as_string}
use regal.Config.Settings.Types.{
  RegoVersion, rego_undefined, rego_v0, rego_v1, Default, Ignore, Rule, Category, Config, Features,
  zero_rule,
}

abbrev pub key_ignore : Text
key_ignore = codes "ignore"

abbrev pub key_level : Text
key_level = codes "level"

abbrev pub key_default : Text
key_default = codes "default"

abbrev pub not_a_map : Error
not_a_map = message (codes "result was not a map")

-- `level, ok := m["level"].(string)`: the new level, or the old one where there is none.
unfoldable pub level_of : Dict Text Value → Text → Text
level_of m old = elim (lookup key_level m) [
  | none ↦ old
  | some v ↦ elim (as_string v) [ none ↦ old | some s ↦ s ]
]

unfoldable pub default_from : Default → Value → Outcome Default
default_from d v = elim (as_map v) [
  | none ↦ err not_a_map
  | some m ↦ ok (record d { level = level_of m d.level })
]

unfoldable pub rego_version_from_config_value : Option ℤ → RegoVersion
rego_version_from_config_value none = rego_undefined
rego_version_from_config_value (some (pos n)) =
    if n == 0 then rego_v0 else if n == 1 then rego_v1 else rego_undefined
rego_version_from_config_value (some (negsuc n)) = rego_undefined

unfoldable pub is_zero : Option Features → Bool
is_zero none = true
is_zero (some f) = elim f.remote [ none ↦ true | some _ ↦ false ]

-- The loop of `MarshalYAML` over the extra settings.
unfoldable pub put_extra : Dict Text Value → Dict Text Value → Dict Text Value
put_extra result [] = result
put_extra result ((key, val) ∷ extra) =
    put_extra
      (if not (key == key_ignore) && not (key == key_level) then insert key val result else result)
      extra

module _ (encode_ignore : Ignore → Value) where
  unfoldable pub put_ignore : Option Ignore → Dict Text Value → Dict Text Value
  put_ignore none result = result
  put_ignore (some i) result =
      if not (length i.files == 0) then insert key_ignore (encode_ignore i) result else result

  unfoldable pub marshal_yaml : Rule → Dict Text Value
  unfolding put_ignore put_extra
  marshal_yaml rule =
      put_extra (put_ignore rule.ignore ((key_level, text rule.level) ∷ [])) rule.extra

module _ (decode_ignore : Value → Outcome Ignore) where
  unfoldable pub ignore_from : Option Value → Option Ignore → Outcome (Option Ignore)
  ignore_from none old = ok old
  ignore_from (some v) old = do
    dst ← wrap (codes "unmarshalling rule ignore failed:") (decode_ignore v)
    ok (some dst)

  -- `mapToConfig` of a rule.
  unfoldable pub rule_from : Rule → Value → Outcome Rule
  unfolding level_of ignore_from
  rule_from rule v = elim (as_map v) [
    | none ↦ err not_a_map
    | some m ↦ do
      ignore' ← ignore_from (lookup key_ignore m) rule.ignore
      ok (record {
        ignore = ignore';
        extra = erase key_ignore (erase key_level m);
        level = level_of m rule.level;
      })
  ]

  -- The inner loop of `extractRules`.
  unfoldable pub rules_from : Dict Text Value → Category → Outcome Category
  rules_from [] rule_map = ok rule_map
  rules_from ((rule_name, rule_data) ∷ raw) rule_map =
      let skipped = rules_from raw rule_map in
      if rule_name == key_default then skipped else do
        r ← wrap (codes "unmarshalling rule failed:") (rule_from zero_rule rule_data)
        rules_from raw (insert rule_name r rule_map)

  unfoldable pub categories_from :
      Dict Text Value → Dict Text Category → Outcome (Dict Text Category)
  unfolding rules_from
  categories_from [] category_map = ok category_map
  categories_from ((key, val) ∷ raw) category_map =
      let skipped = categories_from raw category_map in
      if key == key_default then skipped else elim (as_map val) [
        | none ↦ err (message (codes "rules for category " ++ key ++ codes " were not a map"))
        | some raw_rules ↦ do
          rule_map ← rules_from raw_rules []
          categories_from raw (insert key rule_map category_map)
      ]

  unfoldable pub extract_rules : Config → Dict Text Value → Outcome Config
  unfolding categories_from
  extract_rules config raw = do
    category_map ← categories_from raw []
    ok (record config { rules = category_map })

-- The loop of `extractDefaults` over the categories.
unfoldable pub category_defaults : Dict Text Value → Dict Text Default → Outcome (Dict Text Default)
unfolding default_from level_of
category_defaults [] found = ok found
category_defaults ((key, val) ∷ raw) found = elim (as_map val) [
  | none ↦ err (message (codes "rules for category " ++ key ++ codes " were not a map"))
  | some raw_rules ↦ elim (lookup key_default raw_rules) [
    | none ↦ category_defaults raw found
    | some v ↦ do
      d ←
          wrap (codes "unmarshalling category defaults failed:")
            (default_from (record { level = [] }) v)
      category_defaults raw (insert key d found)
  ]
]

unfoldable pub extract_defaults : Config → Dict Text Value → Outcome Config
unfolding default_from category_defaults
extract_defaults c raw = do
  g ← elim (lookup key_default raw) [
    | none ↦ ok c.defaults.global
    | some v ↦
        wrap (codes "unmarshalling global defaults failed:") (default_from c.defaults.global v)
  ]
  found ← category_defaults raw []
  ok (record c { defaults = record { categories = found; global = g } })
