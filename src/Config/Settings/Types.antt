-- ===== src/Config/Settings/Types.antt =====
-- pkg/config/config.go: the types of the configuration. A pointer is an `Option`, and the engine's
-- `RegoVersion` is its three values.
use regal.Base.{Bool, Option, none, List, [], Text, ℤ, text_eq}
use regal.Base.Dict.{Dict}
use regal.Config.Settings.Values.{Value}

pub data RegoVersion : Type 0 where
  rego_undefined rego_v0 rego_v1 : RegoVersion

pub record Root : Type 0 where
  pub path : Text
  pub rego_version : Option ℤ

pub record Project : Type 0 where
  pub roots : Option (List Root)
  pub rego_version : Option ℤ

pub record Default : Type 0 where
  pub level : Text

pub record Defaults : Type 0 where
  pub categories : Dict Text Default
  pub global : Default

pub record RemoteFeatures : Type 0 where
  pub check_version : Bool

pub record Features : Type 0 where
  pub remote : Option RemoteFeatures

pub record Ignore : Type 0 where
  pub files : List Text

pub record Rule : Type 0 where
  pub ignore : Option Ignore
  pub extra : Dict Text Value
  pub level : Text

pub record Decl : Type 0 where
  pub result : Text
  pub args : List Text

pub record Builtin : Type 0 where
  pub decl : Decl

pub record Capabilities : Type 0 where
  pub builtins : Dict Text Builtin
  pub future_keywords : List Text
  pub features : List Text

abbrev pub Category : Type 0
Category = Dict Text Rule

pub record Config : Type 0 where
  pub defaults : Defaults
  pub rules : Dict Text Category
  pub capabilities : Option Capabilities
  pub features : Option Features
  pub project : Option Project
  pub capabilities_url : Text
  pub ignore : Ignore

abbrev pub zero_rule : Rule
zero_rule = record { ignore = none; extra = []; level = [] }

abbrev pub zero_config : Config
zero_config = record {
  defaults = record { categories = []; global = record { level = [] } };
  rules = [];
  capabilities = none;
  features = none;
  project = none;
  capabilities_url = [];
  ignore = record { files = [] };
}
