-- ===== src/Contract/Arguments.antt =====
-- Arguments of a call as the contract ABI lays them out, and the encoder of one parameter on them.
use iotex_arduino.Base.{ℕ, ◌-◌, ◌%◌, ◌^◌, ◌≤◌, ◌<◌, ◌≡◌, refl, ap, ◌∙◌}
use iotex_arduino.Base.{arith, List, [], ◌++◌, Bool, true, false, some}
use iotex_arduino.Base.{length, replicate}
use iotex_arduino.Abi.{
  EthereumTypeName, ParameterValue, make_param_uint, make_param_int, make_param_address,
}
use iotex_arduino.Abi.{make_param_string, make_param_bytes}
use iotex_arduino.Contract.Words.{generate_bytes_for_static_bytes}
use iotex_arduino.Contract.Words.{generate_bytes_for_bytes}
use iotex_arduino.Contract.BytesLaws.{address_lem, static_bytes_lem}
use iotex_arduino.Contract.WordLaws.{take-all, sign_extended}
use iotex_arduino.Contract.SignedWords.{int_word}
use iotex_arduino.Contract.BigEndian.{big_endian, uint_word}
use iotex_arduino.Contract.Params.{generate_flat}
use iotex_arduino.Contract.Params.{generate_bytes_for_simple_type, generate_bytes_for_parameter}

-- A signed integer is the bit pattern of its int64_t.
pub data Argument : Type 0 where
  uint_argument : ℕ → Argument
  int_argument : ℕ → Argument
  address_argument : List ℕ → Argument
  bytes_static_argument : List ℕ → Argument
  bytes_dynamic_argument : List ℕ → Argument
  string_argument : List ℕ → Argument

-- What the C types can hold, static bytes of a size that the contract ABI has, and sizes that a float
-- holds.
abbrev pub IsValid : Argument → Type 0
IsValid (uint_argument value) = value < 2 ^ 64
IsValid (int_argument value) = value < 2 ^ 64
IsValid (address_argument bytes) = length bytes ≡ 20
IsValid (bytes_static_argument bytes) = (0 < length bytes) × (length bytes ≤ 32)
IsValid (bytes_dynamic_argument bytes) = length bytes < 2 ^ 24
IsValid (string_argument text) = length text < 2 ^ 24

abbrev pub parameter_of : Argument → ParameterValue
parameter_of (uint_argument value) = make_param_uint value
parameter_of (int_argument value) = make_param_int value
parameter_of (address_argument bytes) = make_param_address bytes
parameter_of (bytes_static_argument bytes) = make_param_bytes bytes (length bytes) false
parameter_of (bytes_dynamic_argument bytes) = make_param_bytes bytes (length bytes) true
parameter_of (string_argument text) = make_param_string text

abbrev pub argument_type : Argument → EthereumTypeName
argument_type (uint_argument value) = EthereumTypeName.uint
argument_type (int_argument value) = EthereumTypeName.int
argument_type (address_argument bytes) = EthereumTypeName.address
argument_type (bytes_static_argument bytes) = EthereumTypeName.bytes_static
argument_type (bytes_dynamic_argument bytes) = EthereumTypeName.bytes_dynamic
argument_type (string_argument text) = EthereumTypeName.string

abbrev pub is_dynamic : Argument → Bool
is_dynamic (bytes_dynamic_argument bytes) = true
is_dynamic (string_argument text) = true
is_dynamic _ = false

-- Bytes with as few zeroes behind as make a multiple of 32.
abbrev pub padded : List ℕ → List ℕ
padded bytes = bytes ++ replicate ((32 - length bytes % 32) % 32) 0

abbrev pub encoding : Argument → List ℕ
encoding (uint_argument value) = big_endian 32 value
encoding (int_argument value) = big_endian 32 (sign_extended 8 value)
encoding (address_argument bytes) = replicate 12 0 ++ bytes
encoding (bytes_static_argument bytes) = padded bytes
encoding (bytes_dynamic_argument bytes) = big_endian 32 (length bytes) ++ padded bytes
encoding (string_argument text) = big_endian 32 (length text) ++ padded text

static_bytes_padded :
    (bytes : List ℕ)
    → length bytes < 2 ^ 24
    → generate_bytes_for_static_bytes bytes (length bytes) ≡ some (padded bytes)
static_bytes_padded bytes h =
    static_bytes_lem bytes (length bytes) h
    ∙ ap (λ t. some (t ++ replicate ((32 - length bytes % 32) % 32) 0)) (take-all bytes)

bytes_padded :
    (bytes : List ℕ)
    → length bytes < 2 ^ 24
    → generate_bytes_for_bytes bytes (length bytes)
      ≡ some (big_endian 32 (length bytes) ++ padded bytes)
unfolding generate_bytes_for_bytes
bytes_padded bytes small =
    ground (
      arith,
      uint_word 8 (length bytes) (omega arith) (omega arith),
      static_bytes_padded bytes small,
    )

small_size : (n : ℕ) → n < 2 ^ 31 → n % 2 ^ 32 ≡ n
small_size n h = omega arith

pub string_parameter :
    (text : List ℕ)
    → length text < 2 ^ 24
    → generate_bytes_for_parameter (make_param_string text) EthereumTypeName.string []
      ≡ some (length (encoding (string_argument text)) % 2 ^ 32, encoding (string_argument text))
unfolding generate_bytes_for_parameter generate_flat make_param_string
string_parameter text h = ground (arith, bytes_padded text h)

pub flat_argument :
    (a : Argument)
    → IsValid a
    → (n : ℕ) × (generate_bytes_for_parameter (parameter_of a) (argument_type a) []
        ≡ some (n, encoding a))
unfolding generate_bytes_for_parameter generate_flat generate_bytes_for_simple_type make_param_uint
    make_param_int make_param_address make_param_bytes make_param_string
flat_argument (uint_argument value) h = (32, rw (uint_word 8 value (omega arith) h))
flat_argument (int_argument value) h = (32, rw (int_word value h) refl)
flat_argument (address_argument bytes) h = (32, ground (arith, address_lem bytes))
flat_argument (bytes_static_argument bytes) (some_lem, h) = (
  length (padded bytes) % 2 ^ 32,
  ground (
    arith,
    small_size (length bytes) (omega (arith, h)),
    static_bytes_padded bytes (omega (arith, h)),
  ),
)
flat_argument (bytes_dynamic_argument bytes) h = (
  length (big_endian 32 (length bytes) ++ padded bytes) % 2 ^ 32,
  ground (arith, small_size (length bytes) (omega (arith, h)), bytes_padded bytes h),
)
flat_argument (string_argument text) h = (
  length (big_endian 32 (length text) ++ padded text) % 2 ^ 32,
  ground (arith, bytes_padded text h),
)
