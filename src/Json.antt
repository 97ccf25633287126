-- ===== src/Json.antt =====
-- json_object_helper of src/json_helper.c: the fields of a struct are filled from the items of a JSON
-- object. cJSON is a parameter.
pub mod Stored
mod Tests
use cc_utils.Base.{
  ℕ, zero, suc, ◌+◌, ◌-◌, ◌^◌, ◌%◌, Bool, true, false, Option, none, some, List, [], ◌∷◌, ◌++◌, leb,
  ◌==◌, if◌then◌else◌, length, replicate, take,
}
use cc_utils.Base.Outcome.{Outcome, ok, fault, ◌>>=◌, ◌>>◌, assert}
use cc_utils.Base.Int.{ℤ, pos, negsuc}
use cc_utils.Base.Bytes.{Bytes, word}
use cc_utils.Base.Memory.{put_all}

-- CH_TYPE_INT, CH_TYPE_FLOAT and CH_TYPE_STRING
abbrev pub ch_type_int : ℕ
ch_type_int = 1

abbrev pub ch_type_float : ℕ
ch_type_float = 2

abbrev pub ch_type_string : ℕ
ch_type_string = 3

-- `json2struct_t`
pub record Json2Struct : Type 0 where
  pub name : Bytes
  pub type : ℕ
  pub offset : ℕ
  pub length : ℕ
  pub must : Bool

-- The fields of a `cJSON` that are read: numbers are their bit patterns.
pub record Item : Type 0 where
  pub valueint : ℕ
  pub valuedouble : ℕ
  pub valuestring : Option Bytes

-- cJSON_GetObjectItem() of the object, whether it is one, and the conversion of a double to a float.
pub record Object : Type 0 where
  pub is_object : Bool
  pub get_item : Bytes → Option Item
  pub to_float : ℕ → ℕ

-- (int64_t)valueint
abbrev pub widened : ℕ → ℕ
widened v = if leb (2 ^ 31) v then v + 2 ^ 64 - 2 ^ 32 else v

unfoldable pub int_bytes : ℕ → ℕ → Bytes
int_bytes len v =
    if len == 1
    then word 1 v
    else if len == 2
    then word 2 v
    else if len == 4
    then word 4 v
    else word 8 (widened v)

unfoldable pub float_bytes : Object → ℕ → ℕ → Bytes
float_bytes obj len v = if len == 4 then word 4 (obj.to_float v) else word 8 v

-- strncpy(ptr, valuestring, length): the characters, and zeros up to the length
unfoldable pub string_bytes : ℕ → Option Bytes → Outcome Bytes
string_bytes len none = fault
string_bytes len (some s) = ok (take len (s ++ replicate len 0))

-- What is stored for an item; of a NULL, where the switch goes through it, nothing is read.
unfoldable pub field_bytes : Object → Json2Struct → Option Item → Outcome Bytes
field_bytes obj j none =
    if j.type == ch_type_int
    then fault
    else if j.type == ch_type_float
    then fault
    else if j.type == ch_type_string
    then fault
    else ok []
field_bytes obj j (some item) =
    if j.type == ch_type_int
    then ok (int_bytes j.length item.valueint)
    else if j.type == ch_type_float
    then ok (float_bytes obj j.length item.valuedouble)
    else if j.type == ch_type_string
    then string_bytes j.length item.valuestring
    else ok []

-- A struct of `size` bytes
module _ (obj : Object) (size : ℕ) where
  -- A write behind the end of the struct is a fault.
  unfoldable pub store_field : (ℕ → ℕ) → ℕ → Bytes → Outcome (ℕ → ℕ)
  store_field s offset bytes =
      if leb (offset + length bytes) size then ok (put_all s offset bytes) else fault

  abbrev is_missing : Option Item → Bool → Bool
  is_missing none must = must
  is_missing (some _) must = false

  -- What is returned, and the struct.
  unfoldable pub helper_loop : List Json2Struct → (ℕ → ℕ) → Outcome (ℤ × (ℕ → ℕ))
  helper_loop [] s = ok (pos 0, s)
  helper_loop (j ∷ js) s =
      let item = obj.get_item j.name in
      let rest = field_bytes obj j item >>= λ bytes.
      store_field s j.offset bytes >>= λ s. helper_loop js s in
      if is_missing item j.must then ok (negsuc 1, s) else rest

  unfoldable pub json_object_helper : List Json2Struct → (ℕ → ℕ) → Outcome (ℤ × (ℕ → ℕ))
  json_object_helper js s = assert obj.is_object >> helper_loop js s
