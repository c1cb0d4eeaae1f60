-- ===== src/Helpers/SetValue.antt =====
-- The two functions SetValueFromJsonObject, of src/helpers/json_helper.cpp and of
-- src/protobuf/pb_api.cpp, with the types of src/helpers/reflection_helper.h. A `none` stands for a
-- write behind the array of a C string.
pub mod Agreement
use iotex_arduino.Base.{ℕ, ◌+◌, ◌-◌, ◌%◌, ◌^◌, List, Bool, true, false, not}
use iotex_arduino.Base.{Option, none, some, ltb, ◌==◌, if◌then◌else◌}
use iotex_arduino.ResultCode.{ResultCode, success, error_json_parse}
use iotex_arduino.Json.{JsonLibrary, copy_string, accepts_string}

pub data CppType : Type 0 where
  uint8 uint16 uint32 uint64 bigint boolean c_string_type string_type object bytes array : CppType

-- What `pData` points to; for a type that is not stored, the bytes that are there.
abbrev pub Pointee : CppType → Type 0
Pointee boolean = Bool
Pointee c_string_type = List ℕ
Pointee string_type = List ℕ
Pointee object = List ℕ
Pointee bigint = List ℕ
Pointee bytes = List ℕ
Pointee array = List ℕ
Pointee _ = ℕ

-- The conversion of an `int` to 64 bits without a sign.
abbrev pub extended : ℕ → ℕ
extended n = if ltb (n % 2 ^ 32) (2 ^ 31) then n % 2 ^ 32 else n % 2 ^ 32 + (2 ^ 64 - 2 ^ 32)

module _ (library : JsonLibrary) where
  -- The second switch of json_helper.cpp.
  unfoldable pub helper_store_value :
      (type : CppType) → library.Json → Pointee type → Option (Pointee type)
  helper_store_value c_string_type json target = copy_string target (library.value_string json)
  helper_store_value string_type json target = some (library.value_string json)
  helper_store_value boolean json target = some (not (library.value_int json == 0))
  helper_store_value uint8 json target = some (library.value_int json % 2 ^ 8)
  helper_store_value uint16 json target = some (library.value_int json % 2 ^ 16)
  helper_store_value uint32 json target = some (library.value_int json % 2 ^ 32)
  helper_store_value uint64 json target = some (extended (library.value_int json))
  helper_store_value bigint json target = some target
  helper_store_value object json target = some target
  helper_store_value bytes json target = some target
  helper_store_value array json target = some target

  -- The second switch of pb_api.cpp.
  unfoldable pub response_store_value :
      (type : CppType) → library.Json → Pointee type → Option (Pointee type)
  response_store_value c_string_type json target = copy_string target (library.value_string json)
  response_store_value string_type json target = some (library.value_string json)
  response_store_value boolean json target = some (not (library.value_int json == 0))
  response_store_value uint8 json target = some (library.value_int json % 2 ^ 8)
  response_store_value uint16 json target = some (library.value_int json % 2 ^ 16)
  response_store_value uint32 json target = some (library.value_int json % 2 ^ 32)
  response_store_value uint64 json target = some (extended (library.value_int json))
  response_store_value object json target = some target
  response_store_value bytes json target = some target
  response_store_value array json target = some target
  response_store_value bigint json target = some target

  -- The first switch of json_helper.cpp.
  unfoldable pub helper_accepts : CppType → library.Json → ℕ → Bool
  helper_accepts object json max_size = library.is_object json
  helper_accepts boolean json max_size = library.is_bool json
  helper_accepts c_string_type json max_size = accepts_string library json max_size
  helper_accepts string_type json max_size = accepts_string library json max_size
  helper_accepts uint8 json max_size = library.is_number json
  helper_accepts uint16 json max_size = library.is_number json
  helper_accepts uint32 json max_size = library.is_number json
  helper_accepts uint64 json max_size = library.is_number json
  helper_accepts _ json max_size = false

  -- The first switch of pb_api.cpp.
  unfoldable pub response_accepts : CppType → library.Json → ℕ → Bool
  response_accepts object json max_size = library.is_object json
  response_accepts boolean json max_size = library.is_bool json
  response_accepts c_string_type json max_size = accepts_string library json max_size
  response_accepts string_type json max_size = accepts_string library json max_size
  response_accepts uint8 json max_size = library.is_number json
  response_accepts uint16 json max_size = library.is_number json
  response_accepts uint32 json max_size = library.is_number json
  response_accepts uint64 json max_size = library.is_number json
  response_accepts bigint json max_size = library.is_number json
  response_accepts bytes json max_size = library.is_number json
  response_accepts array json max_size = library.is_number json

  unfoldable pub helper_set_value :
      (type : CppType) → library.Json → Pointee type → ℕ → Option (ResultCode × Pointee type)
  helper_set_value type json target max_size = elim (helper_accepts type json max_size) [
    | false ↦ some (error_json_parse, target)
    | true ↦ elim (helper_store_value type json target) [
      | none ↦ none
      | some target' ↦ some (success, target')
    ]
  ]

  unfoldable pub response_set_value :
      (type : CppType) → library.Json → Pointee type → ℕ → Option (ResultCode × Pointee type)
  response_set_value type json target max_size = elim (response_accepts type json max_size) [
    | false ↦ some (error_json_parse, target)
    | true ↦ elim (response_store_value type json target) [
      | none ↦ none
      | some target' ↦ some (success, target')
    ]
  ]
