-- ===== src/Fixer/Fixes/Types.antt =====
-- pkg/fixer/fixes/fixes.go and pkg/report/report.go: what a fix is given and what it returns. Of
-- the configuration only what a fix reads is kept, and a pointer that may be nil is an `Option`.
use regal.Base.{
  ℕ, Bool, not, Option, none, List, [], ◌∷◌, if◌then◌else◌, Text, codes, ℤ, Error, message, Outcome,
  ok, text_eq,
}
use regal.Base.Dict.{Dict}
use regal.Go.Strings.{join}

pub record Position : Type 0 where
  pub row : ℤ
  pub column : ℤ

pub record Location : Type 0 where
  pub end : Option Position
  pub text : Option Text
  pub file : Text
  pub column : ℤ
  pub row : ℤ

pub record Violation : Type 0 where
  pub title : Text
  pub description : Text
  pub category : Text
  pub level : Text
  pub location : Location
  pub is_aggregate : Bool

-- The dynamic type of a rule's extra setting is only ever tested for a Boolean.
pub data Extra : Type 0 where
  boolean : Bool → Extra
  other : Extra

pub record Rule : Type 0 where
  pub level : Text
  pub extra : Dict Text Extra

pub record Config : Type 0 where
  pub rules : Dict Text (Dict Text Rule)

pub record RuntimeOptions : Type 0 where
  pub config : Option Config
  pub base_dir : Text
  pub locations : List Location

pub record FixCandidate : Type 0 where
  pub filename : Text
  pub contents : Text

pub record Rename : Type 0 where
  pub from_path : Text
  pub to_path : Text

pub record FixResult : Type 0 where
  pub rename : Option Rename
  pub title : Text
  pub root : Text
  pub contents : Text

-- The interface `Fix`.
pub record Fix : Type 0 where
  pub name : Text
  pub fix : FixCandidate → Option RuntimeOptions → Outcome (List FixResult)

abbrev pub newline : ℕ
newline = 10

abbrev pub missing_options : Error
missing_options = message (codes "missing runtime options")

-- The last lines of the fixes that edit a text line by line.
unfoldable pub finish : (title root : Text) → List Text × Bool → Outcome (List FixResult)
finish title root (lines, fixed) =
    if not fixed
    then ok []
    else ok
        (record { rename = none; title = title; root = root; contents = join lines newline } ∷ [])
