-- ===== src/Policy/Values.antt =====
-- backend/internal/policy/values.go: JSON values and what the accessors make of them.
use pikship.Prelude.{String, Bool, Option, none, some, List, if◌then◌else◌}
use pikship.Prelude.Int.{ℤ, pos}
use pikship.Prelude.Int64.{fits}

-- The JSON text of a `Value`, by what it is: `absent` is the empty text, `other` a JSON that is
-- none of the rest.
pub data Value : Type 0 where
  number : ℤ → Value
  text : String → Value
  boolean : Bool → Value
  texts : List String → Value
  null absent other : Value

-- The types that a setting is declared with.
pub data ValueType : Type 0 where
  int64_type paise_type string_type bool_type duration_type string_list_type string_set_type :
      ValueType

-- `AsInt64`: `json.Unmarshal` takes null for the zero value and refuses what an int64 cannot hold.
abbrev pub as_int64 : Value → Option ℤ
as_int64 (number n) = if fits n then some n else none
as_int64 null = some (pos 0)
as_int64 _ = none

abbrev pub as_paise : Value → Option ℤ
as_paise v = as_int64 v

abbrev pub as_string : Value → Option String
as_string (text s) = some s
as_string null = some ""
as_string _ = none

abbrev pub as_bool : Value → Option Bool
as_bool (boolean b) = some b
as_bool null = some Bool.false
as_bool _ = none

-- A null leaves a nil slice.
abbrev pub as_string_list : Value → Option (List String)
as_string_list (texts l) = some l
as_string_list null = some List.[]
as_string_list _ = none
