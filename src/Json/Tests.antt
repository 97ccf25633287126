-- ===== src/Json/Tests.antt =====
-- A struct with an int, a string of four characters and a short.
use cc_utils.Base.{
  ℕ, ◌*◌, ◌%◌, ◌≡◌, refl, true, inl, inr, none, some, List, [], ◌∷◌, if◌then◌else◌, All, arith,
}
use mathlib.Core.List.{map}
use cc_utils.Base.Outcome.{ok}
use cc_utils.Base.Int.{pos}
use cc_utils.Base.Bytes.{bytes_eq}
use cc_utils.Json.{Item, Object, ch_type_int, ch_type_string, json_object_helper}
use cc_utils.Json.Stored.{
  Field, int_typed, string_typed, IsField, IsHeld, Outside, json_object_helper-IsHeld,
}

abbrev five : Item
five = record { valueint = 5; valuedouble = 0; valuestring = none }

abbrev hey : Item
hey = record { valueint = 0; valuedouble = 0; valuestring = some (b'h' ∷ b'e' ∷ b'y' ∷ []) }

abbrev object : Object
object = record {
  is_object = true;
  get_item = λ name. if bytes_eq name (b's' ∷ []) then some hey else some five;
  to_float = λ w. w;
}

abbrev int_field : Field
int_field = record {
  described = record { name = b'i' ∷ []; type = ch_type_int; offset = 0; length = 4; must = true };
  item = five;
}

abbrev string_field : Field
string_field = record {
  described = record {
    name = b's' ∷ [];
    type = ch_type_string;
    offset = 4;
    length = 4;
    must = true;
  };
  item = hey;
}

abbrev short_field : Field
short_field = record {
  described = record { name = b't' ∷ []; type = ch_type_int; offset = 8; length = 2; must = true };
  item = five;
}

int_IsField : IsField object 12 int_field
int_IsField = record {
  found = refl;
  typed = int_typed refl (omega arith) (inr (inr (inl refl)));
  inside = omega arith;
}

string_IsField : IsField object 12 string_field
string_IsField = record {
  found = refl;
  typed = string_typed (b'h' ∷ b'e' ∷ b'y' ∷ []) refl refl;
  inside = omega arith;
}

short_IsField : IsField object 12 short_field
short_IsField = record {
  found = refl;
  typed = int_typed refl (omega arith) (inr (inl refl));
  inside = omega arith;
}

abbrev fields : List Field
fields = int_field ∷ string_field ∷ short_field ∷ []

abbrev garbage : ℕ → ℕ
garbage x = x * 7 % 256

json_object_helper-IsHeld_example :
    (s' : ℕ → ℕ) × (json_object_helper object 12 (map (λ f. f.described) fields) garbage
      ≡ ok (pos 0, s'))
    × All (IsHeld object s') fields
    × ((x : ℕ) → All (Outside x) fields → s' x ≡ garbage x)
json_object_helper-IsHeld_example =
    json_object_helper-IsHeld object 12 fields garbage refl
      (int_IsField, (string_IsField, (short_IsField, tt)))
      ((inl (omega arith), (inl (omega arith), tt)), ((inl (omega arith), tt), (tt, tt)))
