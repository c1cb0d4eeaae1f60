-- ===== src/Contract/Params.antt =====
-- generateBytesForParameter and the array encoders of src/contract/contract.cpp. A result is the
-- returned int32_t, as a bit pattern, and the vector `data`; a `none` stands for a read of what was
-- never written, an uninitialised local, another member of the union, or memory behind a value, or for
-- a write behind a local buffer.
use iotex_arduino.Base.{ℕ, zero, suc, ◌+◌, ◌-◌, ◌*◌, ◌%◌, ◌^◌, List, [], ◌∷◌, ◌++◌}
use iotex_arduino.Base.{Bool, true, false, ◌||◌, ◌&&◌, Option, none, some, length}
use iotex_arduino.Base.{◌>>=◌, ltb, leb, ◌==◌, if◌then◌else◌, not}
use iotex_arduino.Abi.{EthereumTypeName, uint, int, address, bool, bytes_static, string}
use iotex_arduino.Abi.{bytes_dynamic, array_static, array_dynamic, unknown, stored, ParameterValue}
use iotex_arduino.Abi.{parameter, Value, integer, text, bytes, elements, Elements}
use iotex_arduino.Abi.{none_left, element, type_of, parameter_is_dynamic}
use iotex_arduino.Contract.Words.{generate_bytes_for_uint, generate_bytes_for_int}
use iotex_arduino.Contract.Words.{generate_bytes_for_bool, generate_bytes_for_address}
use iotex_arduino.Contract.Words.{generate_bytes_for_static_bytes, generate_bytes_for_bytes}

abbrev pub Emission : Type 0
Emission = ℕ × List ℕ

abbrev pub is_unknown : EthereumTypeName → Bool
is_unknown unknown = true
is_unknown _ = false

-- The word of an encoder that succeeds with 32; after a failure the local buffer is unwritten.
abbrev pub append_word : List ℕ → Option (List ℕ) → Option Emission
append_word buffer none = none
append_word buffer (some word) = some (32, buffer ++ word)

-- generateBytesForSimpleType, and the insertion of its buffer. For a big integer it writes nothing.
-- For a BOOL it passes the address of the union member, which converts to true.
unfoldable pub generate_bytes_for_simple_type :
    Value → ℕ → Bool → EthereumTypeName → List ℕ → Option Emission
generate_bytes_for_simple_type (integer memory) size is_big_int uint buffer =
    if leb size 8 && not is_big_int
    then append_word buffer (generate_bytes_for_uint memory size)
    else none
generate_bytes_for_simple_type (integer memory) size is_big_int int buffer =
    if leb size 8 && not is_big_int
    then append_word buffer (generate_bytes_for_int memory size)
    else none
generate_bytes_for_simple_type value size is_big_int bool buffer =
    append_word buffer (some (generate_bytes_for_bool true))
generate_bytes_for_simple_type (bytes memory) size is_big_int address buffer =
    if leb 20 (length memory) then append_word buffer (generate_bytes_for_address memory) else none
generate_bytes_for_simple_type value size is_big_int type buffer = none

-- The loop that copies `bytes` bytes of the local buffer.
abbrev pub append_bytes : List ℕ → Option (List ℕ) → Option Emission
append_bytes buffer none = none
append_bytes buffer (some out) = some (length out % 2 ^ 32, buffer ++ out)

-- The cases of generateBytesForParameter that are no arrays.
unfoldable pub generate_flat : Value → ℕ → Bool → EthereumTypeName → List ℕ → Option Emission
generate_flat (bytes memory) size is_big_int bytes_dynamic buffer =
    if leb size (length memory)
    then append_bytes buffer (generate_bytes_for_bytes memory size)
    else none
generate_flat (text characters) size is_big_int string buffer =
    append_bytes buffer (generate_bytes_for_bytes characters (length characters))
generate_flat (bytes memory) size is_big_int bytes_static buffer =
    if leb size (length memory)
    then append_bytes buffer (generate_bytes_for_static_bytes memory size)
    else none
generate_flat value size is_big_int type buffer =
    generate_bytes_for_simple_type value size is_big_int type buffer

-- `param.size <= 0` on the int32_t, the early `break` that leaves `bytes` uninitialised.
abbrev pub not_positive : ℕ → Bool
not_positive size = (size == 0) || leb (2 ^ 31) size

abbrev pub first_is_dynamic : Elements → Bool
first_is_dynamic none_left = false
first_is_dynamic (element p ps) = parameter_is_dynamic p

abbrev pub add_bytes : ℕ → Emission → Emission
add_bytes n (m, buffer) = ((n + m) % 2 ^ 32, buffer)

-- Conversion of the returned int32_t to the `size_t` of elementTailSizes.
abbrev pub to_size_t : ℕ → ℕ
to_size_t n = if ltb n (2 ^ 31) then n else n + 2 ^ 64 - 2 ^ 32

-- The heads: `offset` is elementOffsets[i].
unfoldable pub element_heads : ℕ → List (ℕ × List ℕ) → List ℕ → Option (List ℕ)
element_heads offset [] buffer = some buffer
element_heads offset ((size, tail) ∷ tails) buffer = do
  word ← generate_bytes_for_uint (stored 8 offset) 8
  element_heads ((offset + to_size_t size) % 2 ^ 64) tails (buffer ++ word)

unfoldable pub append_tails : List (ℕ × List ℕ) → List ℕ → List ℕ
append_tails [] buffer = buffer
append_tails ((size, tail) ∷ tails) buffer = append_tails tails (buffer ++ tail)

unfoldable pub total_tails : List (ℕ × List ℕ) → ℕ
total_tails [] = 0
total_tails ((size, tail) ∷ tails) = length tail + total_tails tails

-- generateBytesForStaticArrayOfDynamicElements, from the encoded elements on.
unfoldable pub join_elements : ℕ → List ℕ → List (ℕ × List ℕ) → Option Emission
join_elements size buffer tails = do
  with_heads ← element_heads (32 * size) tails buffer
  some ((32 * length tails + total_tails tails) % 2 ^ 32, append_tails tails with_heads)

unfoldable mutual
  pub generate_bytes_for_parameter : ParameterValue → EthereumTypeName → List ℕ → Option Emission
  generate_bytes_for_parameter (parameter (elements items) size is_big_int own) array_static
        buffer =
      if not_positive size
      then none
      else if first_is_dynamic items
      then generate_dynamic_elements size items >>= join_elements size buffer
      else generate_static_elements size items buffer
  generate_bytes_for_parameter (parameter (elements items) size is_big_int own) array_dynamic
        buffer =
      if not_positive size
      then none
      else if first_is_dynamic items
      then some (2 ^ 32 - 1, buffer)
      else generate_bytes_for_uint (stored 4 size) 4 >>= λ word.
          generate_static_elements size items (buffer ++ word) >>= λ e. some (add_bytes 32 e)
  generate_bytes_for_parameter (parameter value size is_big_int own) type buffer =
      generate_flat value size is_big_int type buffer

  -- The loop of generateBytesForStaticArrayOfStaticElements over the elements from `i` on.
  pub generate_static_elements : ℕ → Elements → List ℕ → Option Emission
  generate_static_elements zero items buffer = some (0, buffer)
  generate_static_elements (suc n) none_left buffer = none
  generate_static_elements (suc n) (element p ps) buffer =
      if is_unknown (type_of p)
      then some (0, buffer)
      else generate_bytes_for_parameter p (type_of p) buffer >>= λ e.
          generate_static_elements n ps (e.1) >>= λ rest. some (add_bytes e.0 rest)

  -- Each element of a static array of dynamic elements, encoded by itself.
  pub generate_dynamic_elements : ℕ → Elements → Option (List (ℕ × List ℕ))
  generate_dynamic_elements zero items = some []
  generate_dynamic_elements (suc n) none_left = none
  generate_dynamic_elements (suc n) (element p ps) =
      generate_bytes_for_parameter p (type_of p) [] >>= λ e.
      generate_dynamic_elements n ps >>= λ rest. some (e ∷ rest)
