-- ===== src/Config/Settings/Values.antt =====
-- What decoding YAML or JSON into `any` gives. A number keeps its spelling, which is never read.
use regal.Base.{◌≡◌, refl, ap, Bool, Option, none, some, [], ◌∷◌, Text, text_eq}
use regal.Base.Dict.{Dict}

mutual
  pub data Value : Type 0 where
    null : Value
    boolean : Bool → Value
    number : Text → Value
    text : Text → Value
    array : Items → Value
    object : Fields → Value

  pub data Items : Type 0 where
    no_items : Items
    item : Value → Items → Items

  pub data Fields : Type 0 where
    no_fields : Fields
    field : Text → Value → Fields → Fields

-- A `map[string]any`, and the value that holds it.
abbrev pub entries_of : Fields → Dict Text Value
entries_of no_fields = []
entries_of (field k v fs) = (k, v) ∷ entries_of fs

abbrev pub fields_of : Dict Text Value → Fields
fields_of [] = no_fields
fields_of ((k, v) ∷ m) = field k v (fields_of m)

-- `v.(map[string]any)` and `v.(string)`
abbrev pub as_map : Value → Option (Dict Text Value)
as_map (object fs) = some (entries_of fs)
as_map _ = none

abbrev pub as_string : Value → Option Text
as_string (text s) = some s
as_string _ = none

pub entries_of-fields_of : (m : Dict Text Value) → entries_of (fields_of m) ≡ m
entries_of-fields_of [] = refl
entries_of-fields_of ((k, v) ∷ m) = ap (λ r. (k, v) ∷ r) (entries_of-fields_of m)
