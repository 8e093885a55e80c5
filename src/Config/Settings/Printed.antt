-- ===== src/Config/Settings/Printed.antt =====
-- pkg/config/config.go: a rule that `MarshalYAML` wrote is read again.
use regal.Base.{
  ◌≡◌, refl, inl, inr, Bool, false, ◌||◌, Option, none, some, [], ◌∷◌, arith, if◌then◌else◌,
  Bool-cases, length, ◌==◌, eq_iff, eq_refl, Text, text_beq, Outcome, ok, ◌>>=◌, wrap, text_eq,
  nat_eq,
}
use regal.Base.Dict.{Dict, lookup, insert, erase, lookup-insert, lookup-erase, Distinct}
use regal.Config.Settings.Values.{Value, text, object, fields_of, entries_of-fields_of}
use regal.Config.Settings.Types.{Ignore, Rule, zero_rule}
use regal.Config.Settings.Rules.{
  key_ignore, key_level, put_extra, put_ignore, marshal_yaml, rule_from, ignore_from, level_of,
}

abbrev pub is_key : Text → Bool
is_key k = k == key_ignore || k == key_level

abbrev override : Option Value → Option Value → Option Value
override none old = old
override (some v) old = some v

override-none : (v : Option Value) → override v none ≡ v
override-none none = refl
override-none (some v) = refl

lookup-put_extra :
    (result extra : Dict Text Value)
    → Distinct extra
    → (k : Text)
    → lookup k (put_extra result extra)
      ≡ (if is_key k then lookup k result else override (lookup k extra) (lookup k result))
unfolding put_extra lookup
lookup-put_extra result [] d k = ground arith
lookup-put_extra result ((key, val) ∷ extra) (fresh, d) k = ground (
  arith,
  eq_iff key k,
  eq_iff key key_ignore,
  eq_iff key key_level,
  eq_iff k key_ignore,
  eq_iff k key_level,
  lookup-put_extra result extra d k,
  lookup-put_extra (insert key val result) extra d k,
  lookup-insert key k val result,
)

-- An `Ignore` without files is not written.
abbrev pub kept : Option Ignore → Option Ignore
kept none = none
kept (some i) = if length i.files == 0 then none else some i

keys_differ : (key_level == key_ignore) ≡ false
unfolding text_beq
keys_differ = refl

module _ (encode_ignore : Ignore → Value) where
  abbrev written : Option Ignore → Option Value
  written none = none
  written (some i) = if length i.files == 0 then none else some (encode_ignore i)

  lookup-start :
      (i : Option Ignore) (level k : Text)
      → lookup k (put_ignore encode_ignore i ((key_level, text level) ∷ [])) ≡ (
          if k == key_ignore then written i else if k == key_level then some (text level) else none)
  unfolding put_ignore lookup insert
  lookup-start none level k =
      ground (arith, keys_differ, eq_iff k key_ignore, eq_iff k key_level, eq_iff key_level k)
  lookup-start (some i) level k = ground (
    arith,
    keys_differ,
    eq_iff k key_ignore,
    eq_iff key_ignore k,
    eq_iff k key_level,
    eq_iff key_level k,
  )

  lookup-marshal_yaml :
      (rule : Rule)
      → Distinct rule.extra
      → (k : Text)
      → lookup k (marshal_yaml encode_ignore rule) ≡ (
          if k == key_ignore
          then written rule.ignore
          else if k == key_level
          then some (text rule.level)
          else lookup k rule.extra)
  unfolding marshal_yaml
  lookup-marshal_yaml rule d k = ground (
    arith,
    lookup-put_extra (put_ignore encode_ignore rule.ignore ((key_level, text rule.level) ∷ []))
        rule.extra d k,
    lookup-start rule.ignore rule.level k,
    override-none (lookup k rule.extra),
  )

  module _ (decode_ignore : Value → Outcome Ignore) where
    written_back :
        (i : Option Ignore)
        → ((j : Ignore) → decode_ignore (encode_ignore j) ≡ ok j)
        → ignore_from decode_ignore (written i) none ≡ ok (kept i)
    unfolding ignore_from wrap ◌>>=◌
    written_back none law = refl
    written_back (some i) law = elim (Bool-cases (length i.files == 0)) [
      | inl no_files ↦ rw no_files refl
      | inr files ↦ rw files (rw (law i) refl)
    ]

    ignore_written :
        (rule : Rule)
        → Distinct rule.extra
        → lookup key_ignore (marshal_yaml encode_ignore rule) ≡ written rule.ignore
    ignore_written rule d =
        ground (arith, lookup-marshal_yaml rule d key_ignore, eq_refl key_ignore)

    level_written :
        (rule : Rule) (old : Text)
        → Distinct rule.extra
        → level_of (marshal_yaml encode_ignore rule) old ≡ rule.level
    unfolding level_of
    level_written rule old d =
        let found : lookup key_level (marshal_yaml encode_ignore rule) ≡ some (text rule.level) =
          ground (arith, lookup-marshal_yaml rule d key_level, eq_refl key_level, keys_differ) in
        rw (found, level_of) refl

    extra_written :
        (rule : Rule) (k : Text)
        → Distinct rule.extra
        → lookup k (erase key_ignore (erase key_level (marshal_yaml encode_ignore rule)))
          ≡ (if is_key k then none else lookup k rule.extra)
    extra_written rule k d = ground (
      arith,
      lookup-erase key_ignore k (erase key_level (marshal_yaml encode_ignore rule)),
      lookup-erase key_level k (marshal_yaml encode_ignore rule),
      lookup-marshal_yaml rule d k,
      eq_iff k key_ignore,
      eq_iff key_ignore k,
      eq_iff k key_level,
      eq_iff key_level k,
    )

    -- Reading the map that `MarshalYAML` makes of a rule gives its level, its ignored files unless
    -- there are none, and every extra setting but those that are called `level` or `ignore`, if the
    -- JSON library reads an `Ignore` that it wrote.
    pub rule_from-marshal_yaml :
        (rule : Rule)
        → Distinct rule.extra
        → ((j : Ignore) → decode_ignore (encode_ignore j) ≡ ok j)
        → (r : Rule) × (rule_from decode_ignore zero_rule
              (object (fields_of (marshal_yaml encode_ignore rule)))
            ≡ ok r)
          × (r.level ≡ rule.level)
          × (r.ignore ≡ kept rule.ignore)
          × ((k : Text) → lookup k r.extra ≡ (if is_key k then none else lookup k rule.extra))
    unfolding rule_from ◌>>=◌
    rule_from-marshal_yaml rule d law =
        let m = marshal_yaml encode_ignore rule in
        (
          record {
            ignore = kept rule.ignore;
            extra = erase key_ignore (erase key_level m);
            level = level_of m [];
          },
          rw (entries_of-fields_of m)
              (rw (ignore_written rule d) (rw (written_back rule.ignore law) refl)),
          level_written rule [] d,
          refl,
          λ k. extra_written rule k d,
        )
