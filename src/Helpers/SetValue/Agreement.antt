-- ===== src/Helpers/SetValue/Agreement.antt =====
-- What the two functions SetValueFromJsonObject of src/helpers/json_helper.cpp and
-- src/protobuf/pb_api.cpp return and leave in the target.
use iotex_arduino.Base.{ℕ, ◌*◌, ◌/◌, ◌%◌, ◌≤◌, ◌<◌, ◌≡◌, ◌≢◌, ◌↔◌, ◌⊎◌, inl, inr}
use iotex_arduino.Base.{◌&&◌, leb, leb→le, length-append, length-drop, take-append, drop-append}
use iotex_arduino.Base.{refl, arith, List, Bool, true, false, not, length, take, drop, Bool-cases}
use iotex_arduino.Base.{Option, none, some, ltb, if◌then◌else◌}
use iotex_arduino.ResultCode.{ResultCode, success, error_json_parse}
use iotex_arduino.Json.{JsonLibrary, copy_string, accepts_string}
use iotex_arduino.Helpers.SetValue.{
  CppType, Pointee, uint8, uint16, uint32, uint64, bigint, boolean,
}
use iotex_arduino.Helpers.SetValue.{c_string_type, string_type, object, bytes, array}
use iotex_arduino.Helpers.SetValue.{helper_store_value, response_store_value, helper_accepts}
use iotex_arduino.Helpers.SetValue.{response_accepts, helper_set_value, response_set_value}

-- The types whose values neither function stores, other than an object.
abbrev pub is_opaque : CppType → Bool
is_opaque bigint = true
is_opaque bytes = true
is_opaque array = true
is_opaque _ = false

module _ (library : JsonLibrary) where
  -- The JSON values that a type takes, a text by its length, when that is limited.
  abbrev pub Fits : CppType → library.Json → ℕ → Type 0
  Fits object json max_size = library.is_object json ≡ true
  Fits boolean json max_size = library.is_bool json ≡ true
  Fits c_string_type json max_size =
      (library.is_string json ≡ true)
      × ((max_size ≡ 0) ⊎ (length (library.value_string json) ≤ max_size))
  Fits string_type json max_size =
      (library.is_string json ≡ true)
      × ((max_size ≡ 0) ⊎ (length (library.value_string json) ≤ max_size))
  Fits bigint json max_size = ⊥
  Fits bytes json max_size = ⊥
  Fits array json max_size = ⊥
  Fits _ json max_size = library.is_number json ≡ true

  -- The value that a type has from a JSON value: the low bits of the `int`, with the sign in front for
  -- 64 bits; whether it is not 0; the text, in an array with what was behind it; and for an object what
  -- was there.
  abbrev pub IsStored : (type : CppType) → library.Json → Pointee type → Pointee type → Type 0
  IsStored uint8 json target value = value ≡ library.value_int json % 256
  IsStored uint16 json target value = value ≡ library.value_int json % 65536
  IsStored uint32 json target value = value ≡ library.value_int json % 4294967296
  IsStored uint64 json target value =
      (value % 4294967296 ≡ library.value_int json % 4294967296)
      × (value / 4294967296 ≡ library.value_int json / 2147483648 % 2 * 4294967295)
  IsStored boolean json target value = (value ≡ true) ↔ (library.value_int json ≢ 0)
  IsStored c_string_type json target value =
      let text = library.value_string json in
      (take (length text) value ≡ text)
      × (drop (length text) value ≡ drop (length text) target)
      × (length value ≡ length target)
  IsStored string_type json target value = value ≡ library.value_string json
  IsStored _ json target value = value ≡ target

  -- A text that is longer than the array that it is written to.
  abbrev pub Overruns : (type : CppType) → library.Json → Pointee type → Type 0
  Overruns c_string_type json target = length target < length (library.value_string json)
  Overruns _ json target = ⊥

  -- The results that a call may have: a write behind the array, a value, or a refusal.
  abbrev pub IsOutcome :
      (type : CppType)
      → library.Json
      → Pointee type
      → ℕ
      → Option (ResultCode × Pointee type)
      → Type 0
  IsOutcome type json target max_size none = Fits type json max_size × Overruns type json target
  IsOutcome type json target max_size (some (ret, value)) =
      ((ret ≡ success) × Fits type json max_size × IsStored type json target value)
      ⊎ ((ret ≡ error_json_parse) × ¬ Fits type json max_size × (value ≡ target))

  abbrev StoreOutcome :
      (type : CppType) → library.Json → Pointee type → Option (Pointee type) → Type 0
  StoreOutcome type json target none = Overruns type json target
  StoreOutcome type json target (some value) = IsStored type json target value

  set_value-IsOutcome :
      (type : CppType) (json : library.Json) (target : Pointee type) (max_size : ℕ)
      (accepted : Bool) (stored : Option (Pointee type))
      → (if accepted then Fits type json max_size else ¬ Fits type json max_size)
      → StoreOutcome type json target stored
      → IsOutcome type json target max_size (elim accepted [
        | false ↦ some (error_json_parse, target)
        | true ↦ elim stored [ none ↦ none | some target' ↦ some (success, target') ]
      ])
  set_value-IsOutcome type json target max_size false stored f s = inr (refl, f, refl)
  set_value-IsOutcome type json target max_size true none f s = (f, s)
  set_value-IsOutcome type json target max_size true (some value) f s = inl (refl, f, s)

  accepts_flag : (flag : Bool) → if flag then flag ≡ true else ¬ (flag ≡ true)
  accepts_flag true = refl
  accepts_flag false = λ e. cc

  string_test :
      (is_string : Bool) (max_size n : ℕ)
      → if is_string && not (ltb 0 max_size && ltb max_size n)
        then (is_string ≡ true) × ((max_size ≡ 0) ⊎ (n ≤ max_size))
        else ¬ ((is_string ≡ true) × ((max_size ≡ 0) ⊎ (n ≤ max_size)))
  string_test false max_size n = λ (e, h). cc
  string_test true max_size n = elim (Bool-cases (ltb 0 max_size && ltb max_size n)) [
    | inl e ↦ rw e (λ (t, h). ground arith)
    | inr e ↦ rw e (ground arith)
  ]

  accepts_string_lem :
      (json : library.Json) (max_size : ℕ)
      → if accepts_string library json max_size
        then (library.is_string json ≡ true)
          × ((max_size ≡ 0) ⊎ (length (library.value_string json) ≤ max_size))
        else ¬ (
            (library.is_string json ≡ true)
            × ((max_size ≡ 0) ⊎ (length (library.value_string json) ≤ max_size)))
  unfolding accepts_string
  accepts_string_lem json max_size =
      string_test (library.is_string json) max_size (length (library.value_string json))

  helper_accepts-Fits :
      (type : CppType) (json : library.Json) (max_size : ℕ)
      → if helper_accepts library type json max_size
        then Fits type json max_size
        else ¬ Fits type json max_size
  unfolding helper_accepts
  helper_accepts-Fits object json max_size = accepts_flag (library.is_object json)
  helper_accepts-Fits boolean json max_size = accepts_flag (library.is_bool json)
  helper_accepts-Fits c_string_type json max_size = accepts_string_lem json max_size
  helper_accepts-Fits string_type json max_size = accepts_string_lem json max_size
  helper_accepts-Fits bigint json max_size = λ e. e
  helper_accepts-Fits bytes json max_size = λ e. e
  helper_accepts-Fits array json max_size = λ e. e
  helper_accepts-Fits uint8 json max_size = accepts_flag (library.is_number json)
  helper_accepts-Fits uint16 json max_size = accepts_flag (library.is_number json)
  helper_accepts-Fits uint32 json max_size = accepts_flag (library.is_number json)
  helper_accepts-Fits uint64 json max_size = accepts_flag (library.is_number json)

  copied :
      (json : library.Json) (target : List ℕ)
      → StoreOutcome c_string_type json target (copy_string target (library.value_string json))
  unfolding copy_string
  copied json target =
      let text : List ℕ = library.value_string json in
      elim (Bool-cases (leb (length text) (length target))) [
        | inr long ↦ rw long (ground arith)
        | inl short ↦ rw short (
          take-append text (drop (length text) target),
          drop-append text (drop (length text) target),
          omega (
            arith,
            length-append text (drop (length text) target),
            length-drop (length text) target,
            leb→le (length text) (length target) short,
          ),
        )
      ]

  helper_store_value-StoreOutcome :
      (type : CppType) (json : library.Json) (target : Pointee type)
      → StoreOutcome type json target (helper_store_value library type json target)
  unfolding helper_store_value
  helper_store_value-StoreOutcome uint8 json target = refl
  helper_store_value-StoreOutcome uint16 json target = refl
  helper_store_value-StoreOutcome uint32 json target = refl
  helper_store_value-StoreOutcome uint64 json target = ground arith
  helper_store_value-StoreOutcome boolean json target = ground arith
  helper_store_value-StoreOutcome c_string_type json target = copied json target
  helper_store_value-StoreOutcome string_type json target = refl
  helper_store_value-StoreOutcome object json target = refl
  helper_store_value-StoreOutcome bigint json target = refl
  helper_store_value-StoreOutcome bytes json target = refl
  helper_store_value-StoreOutcome array json target = refl

  response_set_value-helper_set_value :
      (type : CppType) (json : library.Json) (target : Pointee type) (max_size : ℕ)
      → response_set_value library type json target max_size ≡ (
          if is_opaque type
          then some (if library.is_number json then success else error_json_parse, target)
          else helper_set_value library type json target max_size)
  unfolding helper_set_value response_set_value helper_accepts response_accepts helper_store_value
      response_store_value
  response_set_value-helper_set_value bigint json target max_size = ground arith
  response_set_value-helper_set_value bytes json target max_size = ground arith
  response_set_value-helper_set_value array json target max_size = ground arith
  response_set_value-helper_set_value uint8 json target max_size = refl
  response_set_value-helper_set_value uint16 json target max_size = refl
  response_set_value-helper_set_value uint32 json target max_size = refl
  response_set_value-helper_set_value uint64 json target max_size = refl
  response_set_value-helper_set_value boolean json target max_size = refl
  response_set_value-helper_set_value c_string_type json target max_size = refl
  response_set_value-helper_set_value string_type json target max_size = refl
  response_set_value-helper_set_value object json target max_size = refl

  helper_set_value-IsOutcome :
      (type : CppType) (json : library.Json) (target : Pointee type) (max_size : ℕ)
      → IsOutcome type json target max_size (helper_set_value library type json target max_size)
  unfolding helper_set_value
  helper_set_value-IsOutcome type json target max_size =
      set_value-IsOutcome type json target max_size (helper_accepts library type json max_size)
        (helper_store_value library type json target) (helper_accepts-Fits type json max_size)
        (helper_store_value-StoreOutcome type json target)

-- For a JSON value of the kind and the size of the type, SetValueFromJsonObject of json_helper.cpp
-- writes behind the array of a C string that is shorter than the text, and otherwise returns SUCCESS
-- with the value of the JSON in the target: the low bits of a number with its sign, whether a Boolean
-- is not 0, a text, and for an object what was there. For any other value, and always for BIGINT, BYTES
-- and ARRAY, it returns ERROR_JSON_PARSE and leaves the target as it is. That of pb_api.cpp does the
-- same, except for these three types, for which it leaves the target as it is and returns SUCCESS for a
-- number and ERROR_JSON_PARSE for anything else.
pub helper_set_value-response_set_value :
    (library : JsonLibrary) (type : CppType) (json : library.Json) (target : Pointee type)
    (max_size : ℕ)
    → IsOutcome library type json target max_size
        (helper_set_value library type json target max_size)
      × (response_set_value library type json target max_size ≡ (
          if is_opaque type
          then some (if library.is_number json then success else error_json_parse, target)
          else helper_set_value library type json target max_size))
helper_set_value-response_set_value library type json target max_size = (
  helper_set_value-IsOutcome library type json target max_size,
  response_set_value-helper_set_value library type json target max_size,
)
