-- ===== src/Transport/Names.antt =====
-- The name checks of trace_transport.cpp (lines 21 to 73) against the contract of Protocol/Layout.
use hook_nt.Prelude.{ℕ, ◌+◌, ◌-◌, ◌≤◌, ◌<◌, min, Bool, ◌||◌}
use hook_nt.Prelude.{◌≡◌, refl, none, some, List, [], ◌∷◌, length, take, arith}
use hook_nt.Prelude.{ltb, ◌==◌, if◌then◌else◌, get_or}
use hook_nt.Memory.{c_str}
use hook_nt.Protocol.Layout.{is_field_name, is_identifier}
use hook_nt.Transport.{
  scan_string, get_bounded_string_length, is_valid_field_name, is_valid_identifier,
}

scan_string_lem :
    (value : List ℕ) (maximum index : ℕ)
    → index ≤ maximum + 1
    → scan_string value maximum index ≡ index + min (length (c_str value)) (maximum + 1 - index)
unfolding scan_string
scan_string_lem [] maximum index h = omega arith
scan_string_lem (c ∷ value) maximum index h =
    ground (arith, scan_string_lem value maximum (index + 1))

-- The length of a C string's text, unless the text is empty or longer than the maximum.
pub get_bounded_string_length_lem :
    (value : List ℕ) (maximum : ℕ)
    → maximum < 256
    → get_bounded_string_length (some value) maximum ≡ (
        if length (c_str value) == 0 || ltb maximum (length (c_str value))
        then none
        else some (length (c_str value)))
unfolding get_bounded_string_length
get_bounded_string_length_lem value maximum h = ground (arith, scan_string_lem value maximum 0)

pub take-c_str : (value : List ℕ) → take (length (c_str value)) value ≡ c_str value
take-c_str [] = refl
take-c_str (c ∷ value) = ground (arith, take-c_str value)

pub length-c_str-le : (value : List ℕ) → length (c_str value) ≤ length value
length-c_str-le [] = omega arith
length-c_str-le (c ∷ value) = ground (arith, length-c_str-le value)

get_or-c_str : (value : List ℕ) (c : ℕ) (cs : List ℕ) → c_str value ≡ c ∷ cs → get_or value 0 0 ≡ c
get_or-c_str [] c cs e = cc
get_or-c_str (d ∷ value) c cs e = ground arith

field_name_step :
    (name text : List ℕ)
    → c_str name ≡ text
    → is_valid_field_name (some name) ≡ (if is_field_name text then some (length text) else none)
unfolding is_valid_field_name
field_name_step name [] e = ground (arith, get_bounded_string_length_lem name 63)
field_name_step name (c ∷ cs) e =
    ground (arith, get_bounded_string_length_lem name 63, take-c_str name, get_or-c_str name c cs)

-- A field name is accepted exactly when its text meets the contract, and then with its length.
pub is_valid_field_name_lem :
    (name : List ℕ)
    → is_valid_field_name (some name)
      ≡ (if is_field_name (c_str name) then some (length (c_str name)) else none)
is_valid_field_name_lem name = field_name_step name (c_str name) refl

-- The name of a module or of an API is accepted exactly when its text meets the contract, and then
-- with its length.
pub is_valid_identifier_lem :
    (name : List ℕ) (module_name : Bool)
    → is_valid_identifier (some name) 63 module_name
      ≡ (if is_identifier module_name (c_str name) then some (length (c_str name)) else none)
unfolding is_valid_identifier
is_valid_identifier_lem name module_name =
    ground (arith, get_bounded_string_length_lem name 63, take-c_str name)
