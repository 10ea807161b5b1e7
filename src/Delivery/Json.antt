-- ===== src/Delivery/Json.antt =====
-- Decoded JSON values as Python has them, `dict.get`, truthiness and `str(x or "")`.
use daily_firehose.Common.{
  ℕ, zero, String, Bool, true, false, not, ◌||◌, Option, none, some, str_eq, truthy, if◌then◌else◌,
}

-- A float is its `repr`; an integer is its sign and magnitude.
mutual
  pub data Json : Type 0 where
    null : Json
    boolean : Bool → Json
    integer : Bool → ℕ → Json
    float : String → Json
    text : String → Json
    array : Items → Json
    object : Fields → Json

  pub data Items : Type 0 where
    no_items : Items
    item : Json → Items → Items

  pub data Fields : Type 0 where
    no_fields : Fields
    field : String → Json → Fields → Fields

-- `d.get(key)`; the keys of a decoded object are distinct
abbrev pub get : String → Fields → Json
get key no_fields = null
get key (field name value rest) = if str_eq name key then value else get key rest

-- `bool(value)`
abbrev pub is_truthy : Json → Bool
is_truthy null = false
is_truthy (boolean b) = b
is_truthy (integer negative zero) = false
is_truthy (integer negative n) = true
is_truthy (float repr) = not (str_eq repr "0.0" || str_eq repr "-0.0")
is_truthy (text s) = truthy s
is_truthy (array no_items) = false
is_truthy (array xs) = true
is_truthy (object no_fields) = false
is_truthy (object xs) = true

-- `value if isinstance(value, dict) else None`
abbrev pub as_dict : Json → Option Fields
as_dict (object fields) = some fields
as_dict null = none
as_dict (boolean b) = none
as_dict (integer negative n) = none
as_dict (float repr) = none
as_dict (text s) = none
as_dict (array xs) = none

-- `str` of a value; `repr` stands for Python's text of a value that is no text
abbrev pub to_text : (Json → String) → Json → String
to_text repr (text s) = s
to_text repr null = "None"
to_text repr (boolean true) = "True"
to_text repr (boolean false) = "False"
to_text repr (integer negative n) = repr (integer negative n)
to_text repr (float s) = s
to_text repr (array xs) = repr (array xs)
to_text repr (object xs) = repr (object xs)

-- `str(value or "")`
abbrev pub text_or_empty : (Json → String) → Json → String
text_or_empty repr value = if is_truthy value then to_text repr value else ""
