-- ===== src/Config/Settings/Precedence.antt =====
-- pkg/config/bundle.go: where the level of a rule comes from.
use regal.Base.{
  ◌≡◌, refl, sym, ap, ◌∙◌, ◌≢◌, ◌⊎◌, inl, inr, true, false, none, some, [], ◌∷◌, arith,
  Option-cases, eq_iff, Text, Outcome, ok, >>=-eq-ok, wrap-eq-ok, text_eq, nat_eq,
}
use regal.Base.Dict.{Dict, lookup}
use regal.Config.Settings.Types.{Capabilities, Category, Config, Default, Defaults, Rule}
use regal.Config.Settings.Levels.{
  category_of, user_level, no_level, selected_level, set_level, set_levels, set_all_levels,
  extract_user_rule_levels, provided_conf_levels, or_this_version, with_defaults_from_bundle,
}

-- The level of a rule by the settings that give it one, the first of which wins.
pub data Chosen (user : Config) (defaults : Defaults) (category name provided level : Text)
    : Type 0 where
  by_user :
      level ≢ []
      → user_level user category name ≡ level
      → Chosen user defaults category name provided level
  by_category :
      (d : Default)
      → user_level user category name ≡ []
      → lookup category defaults.categories ≡ some d
      → level ≢ []
      → d.level ≡ level
      → Chosen user defaults category name provided level
  by_global :
      user_level user category name ≡ []
      → lookup category defaults.categories ≡ none
      → level ≢ []
      → defaults.global.level ≡ level
      → Chosen user defaults category name provided level
  by_bundle_category :
      (d : Default)
      → user_level user category name ≡ []
      → lookup category defaults.categories ≡ some d
      → d.level ≡ []
      → provided ≡ level
      → Chosen user defaults category name provided level
  by_bundle :
      user_level user category name ≡ []
      → lookup category defaults.categories ≡ none
      → defaults.global.level ≡ []
      → provided ≡ level
      → Chosen user defaults category name provided level

text_cases : (t : Text) → ((t ≡ []) × (no_level t ≡ true)) ⊎ ((t ≢ []) × (no_level t ≡ false))
text_cases [] = inl (refl, refl)
text_cases (c ∷ t) = inr ((λ e. cc), refl)

selected_level-Chosen :
    (user merged : Config) (category name provided : Text)
    → Chosen user merged.defaults category name provided
        (selected_level user merged category name provided)
unfolding selected_level
selected_level-Chosen user merged category name provided =
    elim (text_cases (user_level user category name)) [
      | inr (set_by_user, e) ↦ rw e (Chosen.by_user set_by_user refl)
      | inl (unset, e) ↦ rw e (elim (Option-cases (lookup category merged.defaults.categories)) [
        | inr (d, k) ↦ rw k (elim (text_cases d.level) [
          | inl (empty, e') ↦ rw e' (Chosen.by_bundle_category d unset k empty refl)
          | inr (given, e') ↦ rw e' (Chosen.by_category d unset k given refl)
        ])
        | inl k ↦ rw k (elim (text_cases merged.defaults.global.level) [
          | inl (empty, e') ↦ rw e' (Chosen.by_bundle unset k empty refl)
          | inr (given, e') ↦ rw e' (Chosen.by_global unset k given refl)
        ])
      ])
    ]

module _ (user merged : Config) (provided : Dict Text Text) where
  lookup-set_levels :
      (category name : Text) (rules : Category) (r : Rule)
      → lookup name rules ≡ some r
      → lookup name (set_levels user merged provided category rules)
        ≡ some (set_level user merged provided category name r)
  unfolding set_levels lookup
  lookup-set_levels category name [] r k = cc
  lookup-set_levels category name ((n, rule) ∷ rules) r k =
      ground (arith, eq_iff n name, lookup-set_levels category name rules r)

  lookup-set_all_levels :
      (category name : Text) (categories : Dict Text Category) (r : Rule)
      → lookup name (category_of (lookup category categories)) ≡ some r
      → lookup name (category_of (lookup category (set_all_levels user merged provided categories)))
        ≡ some (set_level user merged provided category name r)
  unfolding set_all_levels lookup
  lookup-set_all_levels category name [] r k = absurd (cc)
  lookup-set_all_levels category name ((c, rules) ∷ categories) r k = ground (
    arith,
    eq_iff c category,
    lookup-set_levels category name rules r,
    lookup-set_all_levels category name categories r,
  )

-- A rule before and after the levels are chosen.
pub record Levelled (user : Config) (defaults : Defaults) (provided : Dict Text Text)
    (category name : Text) (r now : Rule) : Type 0 where
  pub ignore_kept : now.ignore ≡ r.ignore
  pub extra_kept : now.extra ≡ r.extra
  pub unknown : lookup name provided ≡ none → now.level ≡ r.level
  pub known :
      (level : Text)
      → lookup name provided ≡ some level
      → Chosen user defaults category name level now.level

set_level-Levelled :
    (user merged : Config) (provided : Dict Text Text) (category name : Text) (r : Rule)
    → Levelled user merged.defaults provided category name r
        (set_level user merged provided category name r)
unfolding set_level
set_level-Levelled user merged provided category name r =
    elim (Option-cases (lookup name provided)) [
      | inl none_known ↦
          rw (none_known, set_level)
            (record {
              ignore_kept = refl;
              extra_kept = refl;
              unknown = λ e. refl;
              known = λ level e. absurd (cc (e, none_known));
            })
      | inr (p, found) ↦
          rw (found, set_level)
            (record {
              ignore_kept = refl;
              extra_kept = refl;
              unknown = λ e. absurd (cc (e, found));
              known = λ level e.
                  let same : p ≡ level = ground (arith, e, found) in
                  rw (← same) (selected_level-Chosen user merged category name p);
            })
    ]

module _ (this_version : Capabilities) (merge : Config → Config → Outcome Config) where
  -- Where the user's configuration is merged into that of the bundle, the merge keeps all but its
  -- rules, its capabilities are those of this version if it has none, and every rule of the merge is
  -- there with its ignored files and its extra settings, and at its level if the bundle has no rule
  -- of that name; else at the first level that is given by the user for the rule, by the default of
  -- its category, by the global default if there is no default of the category, or by the bundle.
  pub with_defaults_from_bundle-levels :
      (default user conf : Config)
      → with_defaults_from_bundle this_version merge default (some user) ≡ ok conf
      → (merged : Config) × (merge default user ≡ ok merged)
        × (conf ≡ record merged {
          capabilities = or_this_version this_version merged.capabilities;
          rules = conf.rules;
        })
        × ((category name : Text) (r : Rule)
            → lookup name (category_of (lookup category merged.rules)) ≡ some r
            → (now : Rule) × (lookup name (category_of (lookup category conf.rules)) ≡ some now)
              × Levelled user merged.defaults (provided_conf_levels default) category name r now)
  unfolding with_defaults_from_bundle extract_user_rule_levels
  with_defaults_from_bundle-levels default user conf h =
      let (merged, done, rest) = >>=-eq-ok _ _ h in
      let with_caps : Config = record merged {
        capabilities = or_this_version this_version merged.capabilities;
      } in
      let provided = provided_conf_levels default in
      let same : extract_user_rule_levels user with_caps provided ≡ conf = ground (arith, rest) in
      (
        merged,
        wrap-eq-ok _ _ done,
        ground (arith, rest),
        λ category name r k. (
          set_level user with_caps provided category name r,
          ap (λ (c : Config). lookup name (category_of (lookup category c.rules))) (sym same)
              ∙ lookup-set_all_levels user with_caps provided category name merged.rules r k,
          set_level-Levelled user with_caps provided category name r,
        ),
      )
