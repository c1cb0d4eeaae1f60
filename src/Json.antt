-- ===== src/Json.antt =====
-- What src/protobuf/pb_api.cpp uses of the vendored JSON parser, and its SetValueFromJsonObject.
use iotex_arduino.Base.{
  zero, suc, ◌-◌, ◌≤◌, ◌≡◌, arith, replicate, length-replicate, in_array, ℕ, List, ◌++◌, Bool, not,
  ◌&&◌,
}
use iotex_arduino.Base.{Option, none, some, length, drop, ltb, leb, if◌then◌else◌}

-- The functions of extern/cjson; `Json` is the pointer, which may be null.
pub record JsonLibrary : Type 1 where
  pub Json : Type 0
  pub parse : List ℕ → Json
  pub is_null : Json → Bool
  pub get_object_item : Json → List ℕ → Json
  pub get_array_item : Json → ℕ → Json
  -- What `cJSON_ArrayForEach` goes through.
  pub array_items : Json → List Json
  pub is_object : Json → Bool
  pub is_array : Json → Bool
  pub is_bool : Json → Bool
  pub is_string : Json → Bool
  pub is_number : Json → Bool
  pub value_string : Json → List ℕ
  pub value_int : Json → ℕ
  -- `atol` of the C library, as a 64-bit pattern.
  pub atol : List ℕ → ℕ

-- memcpy of a text to the start of a buffer. A `none` stands for a write behind its end.
unfoldable pub copy_string : List ℕ → List ℕ → Option (List ℕ)
copy_string buffer text =
    if leb (length text) (length buffer) then some (text ++ drop (length text) buffer) else none

drop-replicate : (n m : ℕ) → drop n (replicate {A = ℕ} m 0) ≡ replicate (m - n) 0
drop-replicate zero m = ground arith
drop-replicate (suc n) zero = ground arith
drop-replicate (suc n) (suc m) = ground (arith, drop-replicate n m)

-- A text that is copied to the start of a cleared array.
pub copy_string_cleared :
    (n : ℕ) (text : List ℕ)
    → length text ≤ n
    → copy_string (replicate n 0) text ≡ some (in_array n text)
unfolding copy_string
copy_string_cleared n text h =
    ground (arith, length-replicate {A = ℕ} n 0, drop-replicate (length text) n)

module _ (library : JsonLibrary) where
  -- The test for C_STRING and STRING, with the size that 0 turns off.
  unfoldable pub accepts_string : library.Json → ℕ → Bool
  accepts_string json max_size =
      library.is_string json
      && not (ltb 0 max_size && ltb max_size (length (library.value_string json)))
