-- ===== src/Config/Settings/Tests.antt =====
-- The configuration at concrete inputs.
use regal.Base.{
  ◌≡◌, refl, ap, subst, ◌↔◌, true, false, none, some, List, [], ◌∷◌, ◌++◌, arith, if◌then◌else◌,
  ◌==◌, Text, codes, text_beq, message, Outcome, ok, err, ◌>>=◌, text_eq, nat_eq,
}
use regal.Base.Dict.{Dict, lookup, insert, erase, Distinct}
use regal.Config.Settings.Values.{
  Value, null, number, text, object, fields_of, as_map, entries_of-fields_of,
}
use regal.Config.Settings.Types.{
  Builtin, Capabilities, Config, Ignore, Rule, zero_rule, zero_config,
}
use regal.Config.Settings.Rules.{key_default, marshal_yaml, rule_from, extract_rules}
use regal.Config.Settings.Levels.{
  category_of, provided_conf_levels, or_this_version, with_defaults_from_bundle,
}
use regal.Config.Settings.Source.{
  EngineBuiltin, EngineCapabilities, From, MarshallingIntermediary, capabilities_url,
  unmarshal_yaml,
}
use regal.Config.Settings.Printed.{is_key, kept, rule_from-marshal_yaml}
use regal.Config.Settings.Extracted.{AllDistinct, CategoryRead, extract_rules_lem}
use regal.Config.Settings.Precedence.{Levelled, with_defaults_from_bundle-levels}
use regal.Config.Settings.Selected.{
  Selected, BuiltinsRead, capabilities_url_iff, capabilities_url_alone, unmarshal_yaml-builtins,
}

-- A JSON library that writes an `Ignore` as the list of its files alone.
abbrev encode_files : List Text → Dict Text Value
encode_files [] = []
encode_files (f ∷ fs) = (f, null) ∷ encode_files fs

abbrev encode : Ignore → Value
encode i = object (fields_of (encode_files i.files))

abbrev file_names : Dict Text Value → List Text
file_names [] = []
file_names ((f, _) ∷ m) = f ∷ file_names m

abbrev decode : Value → Outcome Ignore
decode v = elim (as_map v) [
  | none ↦ err (message (codes "not an object"))
  | some m ↦ ok (record { files = file_names m })
]

file_names-encode_files : (fs : List Text) → file_names (encode_files fs) ≡ fs
file_names-encode_files [] = refl
file_names-encode_files (f ∷ fs) = ap (λ r. f ∷ r) (file_names-encode_files fs)

decode-encode : (i : Ignore) → decode (encode i) ≡ ok i
decode-encode i =
    rw (entries_of-fields_of (encode_files i.files)) (rw (file_names-encode_files i.files) refl)

abbrev strict : Rule
strict = record {
  ignore = some (record { files = codes "a.rego" ∷ [] });
  extra = (codes "max-length", number (codes "80")) ∷ [];
  level = codes "error";
}

strict-Distinct : Distinct strict.extra
unfolding lookup
strict-Distinct = (refl, tt)

rule_from-marshal_yaml_example :
    (r : Rule) × (rule_from decode zero_rule (object (fields_of (marshal_yaml encode strict)))
      ≡ ok r)
    × (r.level ≡ strict.level)
    × (r.ignore ≡ kept strict.ignore)
    × ((k : Text) → lookup k r.extra ≡ (if is_key k then none else lookup k strict.extra))
rule_from-marshal_yaml_example =
    rule_from-marshal_yaml encode decode strict strict-Distinct decode-encode

abbrev line_length : Dict Text Value
line_length = (codes "level", text (codes "error")) ∷ []

abbrev style : Dict Text Value
style =
    (codes "default", object (fields_of line_length))
    ∷ (codes "line-length", object (fields_of line_length))
    ∷ []

abbrev raw : Dict Text Value
raw = (codes "style", object (fields_of style)) ∷ (codes "default", null) ∷ []

abbrev read_rules : Dict Text (Dict Text Rule)
read_rules =
    (
      codes "style",
      (codes "line-length", record { ignore = none; extra = []; level = codes "error" }) ∷ [],
    )
    ∷ []

raw_read : extract_rules decode zero_config raw ≡ ok (record zero_config { rules = read_rules })
unfolding extract_rules regal.Base.◌>>=◌ regal.Base.text_beq rule_from lookup insert erase
raw_read = refl

style-Distinct : Distinct style
unfolding lookup text_beq
style-Distinct = (refl, (refl, tt))

style_only :
    (key : Text) (v : Value) (m : Dict Text Value)
    → lookup key raw ≡ some v
    → as_map v ≡ some m
    → Distinct m
unfolding lookup
style_only key v m k is_map =
    let e : style ≡ m = ground (arith, k, is_map) in subst (λ x. Distinct x) e style-Distinct

raw-AllDistinct : AllDistinct raw
unfolding lookup text_beq
raw-AllDistinct = ((refl, (refl, tt)), λ key v m k is_map. style_only key v m k is_map)

extract_rules_lem_example :
    (lookup key_default read_rules ≡ none)
    × ((key : Text) → lookup key raw ≡ none → lookup key read_rules ≡ none)
    × ((key : Text) (v : Value)
        → (key == key_default) ≡ false
        → lookup key raw ≡ some v
        → CategoryRead decode key v read_rules)
extract_rules_lem_example =
    extract_rules_lem decode zero_config (record zero_config { rules = read_rules }) raw
      raw-AllDistinct raw_read

abbrev no_capabilities : Capabilities
no_capabilities = record { builtins = []; future_keywords = []; features = [] }

abbrev bundled : Config
bundled = record zero_config { rules = read_rules }

-- A merge that only takes the defaults of the user.
abbrev take_defaults : Config → Config → Outcome Config
take_defaults default user = ok (record default { defaults = user.defaults })

abbrev lenient : Config
lenient = record zero_config {
  defaults = record { categories = []; global = record { level = codes "ignore" } };
}

abbrev combined : Config
combined = record bundled {
  defaults = lenient.defaults;
  capabilities = some no_capabilities;
  rules =
      (
        codes "style",
        (codes "line-length", record { ignore = none; extra = []; level = codes "ignore" }) ∷ [],
      )
      ∷ [];
}

combined_lem :
    with_defaults_from_bundle no_capabilities take_defaults bundled (some lenient) ≡ ok combined
unfolding with_defaults_from_bundle regal.Base.◌>>=◌ lookup insert regal.Base.text_beq
combined_lem = refl

with_defaults_from_bundle-levels_example :
    (merged : Config) × (take_defaults bundled lenient ≡ ok merged)
    × (combined ≡ record merged {
      capabilities = or_this_version no_capabilities merged.capabilities;
      rules = combined.rules;
    })
    × ((category name : Text) (r : Rule)
        → lookup name (category_of (lookup category merged.rules)) ≡ some r
        → (now : Rule) × (lookup name (category_of (lookup category combined.rules)) ≡ some now)
          × Levelled lenient merged.defaults (provided_conf_levels bundled) category name r now)
with_defaults_from_bundle-levels_example =
    with_defaults_from_bundle-levels no_capabilities take_defaults bundled lenient combined
      combined_lem

abbrev opa : From
opa = record { engine = codes "opa"; version = text (codes "v0.58.0"); file = []; url = [] }

abbrev opa_url : Text
opa_url = codes "regal:///capabilities/opa/v0.58.0"

capabilities_url_iff_example :
    (capabilities_url (λ p. ok p) opa ≡ ok opa_url) ↔ Selected (λ p. ok p) opa opa_url
capabilities_url_iff_example = capabilities_url_iff (λ p. ok p) opa opa_url

abbrev web : From
web = record {
  engine = [];
  version = null;
  file = [];
  url = codes "https://example.org/capabilities.json";
}

capabilities_url_alone_example :
    capabilities_url (λ p. ok p) web
    ≡ err (
        message (codes "capabilities from.url and from.version" ++ codes " are mutually exclusive"))
capabilities_url_alone_example = capabilities_url_alone (λ p. ok p) web (λ e. cc) refl refl refl

abbrev subset : EngineBuiltin
subset = record {
  name = codes "object.subset";
  func_args = codes "any" ∷ [];
  result = some (codes "any");
}

abbrev engine_caps : EngineCapabilities
engine_caps = record { builtins = subset ∷ []; future_keywords = []; features = [] }

abbrev written : MarshallingIntermediary
written = record {
  rules = [];
  project = none;
  from = opa;
  plus = some subset ∷ [];
  minus = codes "object.subset" ∷ codes "http.send" ∷ [];
  ignore = record { files = [] };
  check_version = true;
}

abbrev boolean_subset : Builtin
boolean_subset = record { decl = record { result = codes "boolean"; args = codes "any" ∷ [] } }

abbrev loaded : Config
loaded = record zero_config {
  capabilities_url = opa_url;
  capabilities = some (record {
    builtins = (codes "object.subset", boolean_subset) ∷ [];
    future_keywords = [];
    features = [];
  });
  features = some (record { remote = some (record { check_version = true }) });
}

loaded_lem : unmarshal_yaml decode (λ p. ok p) (λ u. ok engine_caps) zero_config written ≡ ok loaded
unfolding unmarshal_yaml regal.Base.◌>>=◌ lookup regal.Base.text_beq regal.Go.Strings.has_prefix
    insert erase
loaded_lem = refl

unmarshal_yaml-builtins_example :
    (opa_caps : EngineCapabilities) × (caps : Capabilities) × (Selected
      (λ p. ok p)
      written.from
      loaded.capabilities_url)
    × (◌≡◌ {A = Outcome EngineCapabilities} (ok engine_caps) (ok opa_caps))
    × (loaded.capabilities ≡ some caps)
    × BuiltinsRead written opa_caps caps
unmarshal_yaml-builtins_example =
    unmarshal_yaml-builtins decode (λ p. ok p) (λ u. ok engine_caps) zero_config loaded written
      loaded_lem
