-- ===== src/Config/Settings/Source.antt =====
-- pkg/config/config.go: `UnmarshalYAML` of the configuration, behind the YAML library that fills the
-- intermediary. `abs` is `filepath.Abs`, and `find` is `capabilities.Lookup`. A type of the policy
-- engine is the text that it prints.
use regal.Base.{
  Bool, true, false, not, ◌&&◌, Option, none, some, List, [], ◌∷◌, ◌++◌, if◌then◌else◌, ◌==◌, Text,
  codes, Error, message, Outcome, ok, err, panicked, ◌>>=◌, wrap, text_eq, nat_eq,
}
use regal.Base.Dict.{Dict, lookup, insert, erase}
use regal.Go.Strings.{has_prefix}
use regal.Config.Settings.Values.{Value, text}
use regal.Config.Settings.Types.{Builtin, Capabilities, Config, Ignore, Project}
use regal.Config.Settings.Rules.{extract_defaults, extract_rules}

-- `capabilities.from`; the version is of type `any`, nil where it is missing.
pub record From : Type 0 where
  pub engine : Text
  pub version : Value
  pub file : Text
  pub url : Text

-- A built-in of the policy engine that has a declaration, which `fromOPABuiltin` reads without a test,
-- and the capabilities of the engine.
pub record EngineBuiltin : Type 0 where
  pub name : Text
  pub func_args : List Text
  pub result : Option Text

pub record EngineCapabilities : Type 0 where
  pub builtins : List EngineBuiltin
  pub future_keywords : List Text
  pub features : List Text

pub record MarshallingIntermediary : Type 0 where
  pub rules : Dict Text Value
  pub project : Option Project
  pub from : From
  pub plus : List (Option EngineBuiltin)
  pub minus : List Text
  pub ignore : Ignore
  pub check_version : Bool

-- `s != ""`
abbrev pub is_set : Text → Bool
is_set [] = false
is_set (_ ∷ _) = true

-- `v != ""` for an `any`: only the empty string is equal to it.
abbrev pub differs_from_empty : Value → Bool
differs_from_empty (text s) = is_set s
differs_from_empty _ = true

abbrev pub default_url : Text
default_url = codes "regal:///capabilities/default"

abbrev exclusive : Text → Error
exclusive pair = message (pair ++ codes " are mutually exclusive")

-- The version that goes with an engine.
unfoldable pub engine_url : Text → Value → Outcome Text
engine_url engine (text version) =
    if engine == codes "opa" && not (has_prefix version (codes "v"))
    then err (
        message
          (codes "capabilities: from.version must be a valid OPA version (with a 'v' prefix)"))
    else ok (codes "regal:///capabilities/" ++ (engine ++ (codes "/" ++ version)))
engine_url engine _ = err (message (codes "capabilities: from.version must be a string"))

unfoldable pub file_url : Text → Text
file_url absfp =
    codes "file://" ++ (if has_prefix absfp (codes "/") then absfp else codes "/" ++ absfp)

module _ (abs : Text → Outcome Text) where
  unfoldable pub capabilities_url : From → Outcome Text
  unfolding engine_url file_url
  capabilities_url from =
      if is_set from.url && is_set from.file
      then err (exclusive (codes "capabilities from.url and from.file"))
      else if is_set from.url && is_set from.engine
      then err (exclusive (codes "capabilities from.url and from.engine"))
      else if is_set from.url && differs_from_empty from.version
      then err (exclusive (codes "capabilities from.url and from.version"))
      else if is_set from.file && is_set from.engine
      then err (exclusive (codes "capabilities from.file and from.engine"))
      else if is_set from.engine && not (differs_from_empty from.version)
      then err (
          message
            (codes "please set the version for the engine from which to load capabilities from"))
      else if is_set from.engine
      then engine_url from.engine from.version
      else if is_set from.file
      then (do
        absfp ←
            wrap
              (codes "unable to load capabilities from '"
                ++ (from.file ++ codes "', failed to determine absolute path:"))
              (abs from.file)
        ok (file_url absfp))
      else if not (is_set from.url)
      then ok default_url
      else ok from.url

-- `builtinResultOverrides`
abbrev pub builtin_result_overrides : Dict Text Text
builtin_result_overrides = (codes "object.subset", codes "boolean") ∷ []

unfoldable pub from_opa_builtin : EngineBuiltin → Builtin
from_opa_builtin builtin =
    let printed : Text = elim builtin.result [ none ↦ [] | some r ↦ r ] in
    let corrected : Text = elim (lookup builtin.name builtin_result_overrides) [
      | none ↦ printed
      | some r ↦ r
    ] in
    record { decl = record { result = corrected; args = builtin.func_args } }

unfoldable pub from_opa_builtins : List EngineBuiltin → Dict Text Builtin → Dict Text Builtin
unfolding from_opa_builtin
from_opa_builtins [] result = result
from_opa_builtins (b ∷ bs) result = from_opa_builtins bs (insert b.name (from_opa_builtin b) result)

unfoldable pub from_opa_capabilities : EngineCapabilities → Capabilities
unfolding from_opa_builtins
from_opa_capabilities c = record {
  builtins = from_opa_builtins c.builtins [];
  future_keywords = c.future_keywords;
  features = c.features;
}

unfoldable pub remove_builtins : List Text → Dict Text Builtin → Dict Text Builtin
remove_builtins [] builtins = builtins
remove_builtins (name ∷ minus) builtins = remove_builtins minus (erase name builtins)

-- A nil pointer in the list is followed.
unfoldable pub add_builtins :
    List (Option EngineBuiltin) → Dict Text Builtin → Outcome (Dict Text Builtin)
unfolding from_opa_builtin
add_builtins [] builtins = ok builtins
add_builtins (none ∷ plus) builtins = panicked
add_builtins (some b ∷ plus) builtins =
    add_builtins plus (insert b.name (from_opa_builtin b) builtins)

module _ (decode_ignore : Value → Outcome Ignore) (abs : Text → Outcome Text)
    (find : Text → Outcome EngineCapabilities) where
  unfoldable pub unmarshal_yaml : Config → MarshallingIntermediary → Outcome Config
  unfolding extract_defaults extract_rules capabilities_url from_opa_capabilities remove_builtins
      add_builtins
  unmarshal_yaml c result = do
    c1 ← wrap (codes "extracting defaults failed:") (extract_defaults c result.rules)
    c2 ← wrap (codes "extracting rules failed:") (extract_rules decode_ignore c1 result.rules)
    url ← capabilities_url abs result.from
    opa_caps ← wrap (codes "failed to load capabilities:") (find url)
    let caps = from_opa_capabilities opa_caps
    builtins ← add_builtins result.plus (remove_builtins result.minus caps.builtins)
    ok (record c2 {
      ignore = result.ignore;
      capabilities_url = url;
      capabilities = some (record caps { builtins = builtins });
      project = result.project;
      features =
          if result.check_version
          then some (record { remote = some (record { check_version = true }) })
          else c2.features;
    })
