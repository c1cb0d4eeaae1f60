-- ===== src/Helpers/JsonProp.antt =====
-- The JSON properties of src/helpers/json_helper.h. A `none` stands for the use of a number as a
-- pointer, or of a pointer as a number or as a pointer to another type.
use iotex_arduino.Base.{ℕ, ◌+◌, ◌-◌, ◌%◌, List, [], ◌∷◌, ◌++◌, Bool, true, false}
use iotex_arduino.Base.{◌&&◌, Option, none, some, ◌>>=◌, ◌==◌, if◌then◌else◌, codes, decimal}
use iotex_arduino.Base.{c_string, replicate}
use iotex_arduino.Json.{copy_string}
use iotex_arduino.Helpers.SetValue.{CppType, uint8, uint64, boolean, c_string_type, string_type}
use iotex_arduino.Helpers.SetValue.{object, bytes, array}

-- The union: its eight bytes as a number, the characters of an array of the heap, a string of the
-- heap, or a null pointer.
pub data Value : Type 0 where
  bits : ℕ → Value
  characters : List ℕ → Value
  text : List ℕ → Value
  null_pointer : Value

pub record JsonProp : Type 0 where
  pub type : CppType
  pub name : List ℕ
  pub initialized : Bool
  pub value : Value
  pub bytes_count : ℕ

-- The structures that are derived, by their method to print a value.
pub data Kind : Type 0 where
  string_prop uint8_prop uint64_prop bytes_prop bool_prop array_prop : Kind

abbrev pub type_of : Kind → CppType
type_of string_prop = string_type
type_of uint8_prop = uint8
type_of uint64_prop = uint64
type_of bytes_prop = bytes
type_of bool_prop = boolean
type_of array_prop = array

-- A new property. `memory` is what the members hold that no constructor sets.
unfoldable pub json_prop_new : Kind → List ℕ → JsonProp → JsonProp
json_prop_new kind name memory = record memory {
  type = type_of kind;
  name = name;
  initialized = false;
}

-- The move constructor: the new property, on what its union holds before, and the old one.
unfoldable pub json_prop_move : JsonProp → Value → JsonProp × JsonProp
json_prop_move orig memory =
    if orig.initialized
    then (orig, record orig { value = null_pointer })
    else (record orig { value = memory }, orig)

-- The setters. The array of a C string has no place for its terminator.
unfoldable pub set_value_c_string : List ℕ → JsonProp → Option JsonProp
set_value_c_string value prop = some (record prop { value = characters value; initialized = true })

unfoldable pub set_value_string : List ℕ → JsonProp → Option JsonProp
set_value_string value prop = some (record prop { value = text value; initialized = true })

unfoldable pub set_value_uint64 : ℕ → JsonProp → Option JsonProp
set_value_uint64 value prop = some (record prop { initialized = true; value = bits value })

abbrev pub bit_of : Bool → ℕ
bit_of true = 1
bit_of false = 0

-- Only the first byte is written. A `none` is a pointer of which one byte changes.
unfoldable pub set_value_boolean : Bool → JsonProp → Option JsonProp
set_value_boolean value prop = elim prop.value [
  | bits n ↦ some (record prop { initialized = true; value = bits (n - n % 256 + bit_of value) })
  | null_pointer ↦ some (record prop { initialized = true; value = bits (bit_of value) })
  | _ ↦ none
]

-- The getters of pointers.
unfoldable pub get_value_c_string : JsonProp → Value
get_value_c_string prop = if prop.initialized then prop.value else null_pointer

unfoldable pub get_value_string : JsonProp → Value
get_value_string prop = if prop.initialized then prop.value else null_pointer

unfoldable pub get_value_uint64 : JsonProp → Option ℕ
get_value_uint64 prop = elim prop.value [ bits n ↦ some n | null_pointer ↦ some 0 | _ ↦ none ]

-- The first byte, which is 0 or 1 in a `bool`.
unfoldable pub get_value_bool : JsonProp → Option Bool
get_value_bool prop = elim (get_value_uint64 prop) [
  | none ↦ none
  | some n ↦ if n % 256 == 0 then some false else if n % 256 == 1 then some true else none
]

abbrev pub is_heap_allocated : CppType → Bool
is_heap_allocated c_string_type = true
is_heap_allocated string_type = true
is_heap_allocated object = true
is_heap_allocated bytes = true
is_heap_allocated _ = false

-- The destructor: how many objects it frees.
unfoldable pub destroy : JsonProp → Option ℕ
destroy prop =
    if prop.initialized && is_heap_allocated prop.type
    then elim prop.value [ bits n ↦ none | null_pointer ↦ some 0 | _ ↦ some 1 ]
    else some 0

-- `sprintf` of a number into an array of zeroes, which is appended to a string.
unfoldable pub print_number : ℕ → ℕ → Option (List ℕ)
print_number size n = do buf ← copy_string (replicate size 0) (decimal n ++ (0 ∷ [])); c_string buf

unfoldable pub append_value : Kind → JsonProp → Option (List ℕ)
append_value string_prop prop = elim prop.value [
  | text s ↦ some (codes "\"" ++ (s ++ codes "\""))
  | _ ↦ none
]
append_value uint8_prop prop = do n ← get_value_uint64 prop; print_number 4 (n % 256)
append_value uint64_prop prop = do n ← get_value_uint64 prop; print_number 21 n
append_value bytes_prop prop = some []
append_value bool_prop prop = do
  b ← get_value_bool prop
  some (if b then codes "true" else codes "false")
append_value array_prop prop = some []

unfoldable pub to_string : Kind → JsonProp → Bool → Option (List ℕ)
to_string kind prop enclose = do
  value ← append_value kind prop
  some (
      (if enclose then codes "{" else [])
      ++ (codes "\""
          ++ (prop.name ++ (codes "\":" ++ (value ++ (if enclose then codes "}" else []))))))
