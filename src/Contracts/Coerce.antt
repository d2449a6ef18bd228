-- ===== src/Contracts/Coerce.antt =====
-- valueForType of backend/internal/contracts/contracts.go. What Go makes of a JSON number as an int64
-- and of a JSON list as texts are parameters.
use pikship.Prelude.{String, Option, none, some, List}
use pikship.Prelude.Int.{ℤ}
use pikship.Policy.Values.{
  Value, number, boolean, text, texts, ValueType, int64_type, paise_type, string_type, bool_type,
  duration_type, string_list_type, string_set_type,
}

module _ (truncated : Value → Option ℤ) (strings_of : Value → Option (List String)) where
  abbrev pub as_number : Option ℤ → Option Value
  as_number none = none
  as_number (some n) = some (number n)

  abbrev pub as_texts : Option (List String) → Option Value
  as_texts none = none
  as_texts (some l) = some (texts l)

  abbrev pub as_flag : Value → Option Value
  as_flag (boolean b) = some (boolean b)
  as_flag _ = none

  abbrev pub as_text : Value → Option Value
  as_text (text s) = some (text s)
  as_text _ = none

  -- `valueForType`.
  unfoldable pub value_for_type : ValueType → Value → Option Value
  value_for_type int64_type v = as_number (truncated v)
  value_for_type paise_type v = as_number (truncated v)
  value_for_type bool_type v = as_flag v
  value_for_type string_type v = as_text v
  value_for_type duration_type v = as_text v
  value_for_type string_list_type v = as_texts (strings_of v)
  value_for_type string_set_type v = as_texts (strings_of v)
