-- ===== src/Config/Settings/Extracted.antt =====
-- pkg/config/config.go: what `extractRules` reads.
use regal.Base.{
  ◌≡◌, refl, sym, ◌∙◌, ◌⊎◌, inl, inr, true, false, none, some, [], ◌∷◌, arith, Bool-cases,
  Option-cases, ◌==◌, eq_iff, eq_refl, Text, Outcome, ok, panicked, >>=-eq-ok, wrap-eq-ok, text_eq,
  nat_eq,
}
use regal.Base.Dict.{Dict, lookup, insert, lookup-insert, Distinct}
use regal.Config.Settings.Values.{Value, as_map}
use regal.Config.Settings.Types.{Ignore, Rule, Category, Config, zero_rule}
use regal.Config.Settings.Rules.{key_default, rule_from, rules_from, categories_from, extract_rules}

-- A loop that reads each entry of a map into another one, but for the key `default`.
record Reads {W : Type 0} (read : Value → Outcome W)
    (loop : Dict Text Value → Dict Text W → Outcome (Dict Text W)) : Type 0 where
  at_end : (m : Dict Text W) → loop [] m ≡ ok m
  skip :
      (key : Text) (v : Value) (raw : Dict Text Value) (m : Dict Text W)
      → (key == key_default) ≡ true
      → loop ((key, v) ∷ raw) m ≡ loop raw m
  step :
      (key : Text) (v : Value) (raw : Dict Text Value) (m out : Dict Text W)
      → (key == key_default) ≡ false
      → loop ((key, v) ∷ raw) m ≡ ok out
      → (w : W) × (read v ≡ ok w) × (loop raw (insert key w m) ≡ ok out)

module _ {W : Type 0} (read : Value → Outcome W)
    (loop : Dict Text Value → Dict Text W → Outcome (Dict Text W)) (reads : Reads read loop) where
  reads_untouched :
      (raw : Dict Text Value) (m out : Dict Text W) (name : Text)
      → ((name == key_default) ≡ true) ⊎ (lookup name raw ≡ none)
      → loop raw m ≡ ok out
      → lookup name out ≡ lookup name m
  unfolding lookup
  reads_untouched [] m out name k h = ground (arith, reads.at_end m)
  reads_untouched ((key, v) ∷ raw) m out name k h = elim (Bool-cases (key == key_default)) [
    | inl skipped ↦
        ground
          (arith, eq_iff key name, reads.skip key v raw m skipped, reads_untouched raw m out name)
    | inr other ↦
        let (w, one, rest) = reads.step key v raw m out other h in
        ground (
          arith,
          eq_iff key name,
          reads_untouched raw (insert key w m) out name,
          lookup-insert key name w m,
        )
  ]

  reads_found :
      (raw : Dict Text Value) (m out : Dict Text W) (name : Text) {v : Value}
      → Distinct raw
      → (name == key_default) ≡ false
      → lookup name raw ≡ some v
      → loop raw m ≡ ok out
      → (w : W) × (read v ≡ ok w) × (lookup name out ≡ some w)
  unfolding lookup
  reads_found [] m out name d other k h = cc
  reads_found ((key, v') ∷ raw) m out name {v} (fresh, d) other k h =
      elim (Bool-cases (key == name)) [
        | inl same ↦
            let e : key ≡ name = (eq_iff key name).0 same in
            let (w, one, rest) = reads.step key v' raw m out (rw e other) h in
            let v_eq : v' ≡ v = ground (arith, k, same) in
            (
              w,
              rw (← v_eq) one,
              ground (
                arith,
                same,
                eq_iff key name,
                reads_untouched raw (insert key w m) out name,
                lookup-insert key name w m,
                fresh,
                rest,
              ),
            )
        | inr apart ↦
            let k' : lookup name raw ≡ some v = rw apart at k in
            elim (Bool-cases (key == key_default)) [
              | inl skipped ↦
                  reads_found raw m out name d other k' (sym (reads.skip key v' raw m skipped) ∙ h)
              | inr read_too ↦
                  let (w, one, rest) = reads.step key v' raw m out read_too h in
                  reads_found raw (insert key w m) out name d other k' rest
            ]
      ]

-- A map whose values are maps without repeated keys, where they are maps.
abbrev pub AllDistinct : Dict Text Value → Type 0
AllDistinct raw =
    Distinct raw
    × ((key : Text) (v : Value) (m : Dict Text Value)
        → lookup key raw ≡ some v
        → as_map v ≡ some m
        → Distinct m)

module _ (decode_ignore : Value → Outcome Ignore) where
  rules_from-Reads :
      Reads (rule_from decode_ignore zero_rule) (λ raw m. rules_from decode_ignore raw m)
  unfolding rules_from
  rules_from-Reads = record {
    at_end = λ m. refl;
    skip = λ key v raw m e. rw e refl;
    step = λ key v raw m out e h.
        let (r, one, rest) = >>=-eq-ok _ _ (rw e at h) in (r, wrap-eq-ok _ _ one, rest);
  }

  category_from : Value → Outcome Category
  category_from val = elim (as_map val) [
    | none ↦ panicked
    | some raw_rules ↦ rules_from decode_ignore raw_rules []
  ]

  category_from-map :
      (v : Value) (raw_rules : Dict Text Value)
      → as_map v ≡ some raw_rules
      → category_from v ≡ rules_from decode_ignore raw_rules []
  unfolding category_from
  category_from-map v raw_rules found = rw (found, category_from) refl

  categories_step :
      (key : Text) (v : Value) (raw : Dict Text Value) (m out : Dict Text Category)
      → (key == key_default) ≡ false
      → categories_from decode_ignore ((key, v) ∷ raw) m ≡ ok out
      → (w : Category) × (category_from v ≡ ok w)
        × (categories_from decode_ignore raw (insert key w m) ≡ ok out)
  unfolding categories_from category_from
  categories_step key v raw m out e h = elim (Option-cases (as_map v)) [
    | inl no_map ↦ absurd (ground (arith, h, e, no_map))
    | inr (raw_rules, found) ↦
        let (w, one, rest) = >>=-eq-ok _ _ (rw (e, found) at h) in
        (w, category_from-map v raw_rules found ∙ one, rest)
  ]

  categories_from-Reads : Reads category_from (λ raw m. categories_from decode_ignore raw m)
  unfolding categories_from
  categories_from-Reads = record {
    at_end = λ m. refl;
    skip = λ key v raw m e. rw e refl;
    step = categories_step;
  }

  -- What the category `key` of the result is read from.
  pub record CategoryRead (key : Text) (v : Value) (rules : Dict Text Category) : Type 0 where
    pub raw_rules : Dict Text Value
    pub is_map : as_map v ≡ some raw_rules
    pub category : Category
    pub stored : lookup key rules ≡ some category
    pub no_default : lookup key_default category ≡ none
    pub absent : (name : Text) → lookup name raw_rules ≡ none → lookup name category ≡ none
    pub present :
        (name : Text) (setting : Value)
        → (name == key_default) ≡ false
        → lookup name raw_rules ≡ some setting
        → (r : Rule) × (rule_from decode_ignore zero_rule setting ≡ ok r)
          × (lookup name category ≡ some r)

  category_from-ok :
      (v : Value) (cat : Category)
      → category_from v ≡ ok cat
      → (raw_rules : Dict Text Value) × (as_map v ≡ some raw_rules)
        × (rules_from decode_ignore raw_rules [] ≡ ok cat)
  unfolding category_from
  category_from-ok v cat h = elim (Option-cases (as_map v)) [
    | inl no_map ↦ absurd (ground (arith, h, no_map))
    | inr (raw_rules, found) ↦ (raw_rules, found, sym (category_from-map v raw_rules found) ∙ h)
  ]

  category_read :
      (raw : Dict Text Value) (out : Dict Text Category) (key : Text) (v : Value)
      → AllDistinct raw
      → (key == key_default) ≡ false
      → lookup key raw ≡ some v
      → categories_from decode_ignore raw [] ≡ ok out
      → CategoryRead key v out
  unfolding lookup
  category_read raw out key v (d, inner) other k h =
      let (cat, one, found) =
        reads_found category_from (λ r m. categories_from decode_ignore r m) categories_from-Reads
          raw [] out key d other k h in
      let (raw_rules, is_map, read) = category_from-ok v cat one in
      let loop : Dict Text Value → Category → Outcome Category =
        λ r m. rules_from decode_ignore r m in
      record {
        raw_rules = raw_rules;
        is_map = is_map;
        category = cat;
        stored = found;
        no_default =
            reads_untouched (rule_from decode_ignore zero_rule) loop rules_from-Reads raw_rules []
              cat key_default (inl (eq_refl key_default)) read;
        absent = λ name gone.
            reads_untouched (rule_from decode_ignore zero_rule) loop rules_from-Reads raw_rules []
              cat name (inr gone) read;
        present = λ name setting fresh there.
            reads_found (rule_from decode_ignore zero_rule) loop rules_from-Reads raw_rules [] cat
              name (inner key v raw_rules k is_map) fresh there read;
      }

  -- Where `extractRules` succeeds, the rules hold no category `default` and none that the file does
  -- not name; every other one is a map in the file, and holds what `mapToConfig` reads for each of
  -- its names but `default`, and nothing else.
  pub extract_rules_lem :
      (config c : Config) (raw : Dict Text Value)
      → AllDistinct raw
      → extract_rules decode_ignore config raw ≡ ok c
      → (lookup key_default c.rules ≡ none)
        × ((key : Text) → lookup key raw ≡ none → lookup key c.rules ≡ none)
        × ((key : Text) (v : Value)
            → (key == key_default) ≡ false
            → lookup key raw ≡ some v
            → CategoryRead key v c.rules)
  unfolding extract_rules lookup
  extract_rules_lem config c raw distinct h =
      let (out, read, done) = >>=-eq-ok _ _ h in
      let loop : Dict Text Value → Dict Text Category → Outcome (Dict Text Category) =
        λ r m. categories_from decode_ignore r m in
      let same : out ≡ c.rules = ground (arith, done) in
      (
        rw (← same) (
            reads_untouched category_from loop categories_from-Reads raw [] out key_default
              (inl (eq_refl key_default)) read),
        λ key gone. rw (← same) (
            reads_untouched category_from loop categories_from-Reads raw [] out key (inr gone)
              read),
        λ key v other k. rw (← same) (category_read raw out key v distinct other k read),
      )
