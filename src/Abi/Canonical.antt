-- ===== src/Abi/Canonical.antt =====
-- The texts of types that getSignature writes and getTypeAndSizeFromString reads.
use iotex_arduino.Base.{ℕ, ◌+◌, ◌*◌, ◌≤◌, ◌<◌, ◌≡◌, refl, sym, ap, ◌∙◌}
use iotex_arduino.Base.{arith, List, [], ◌∷◌, ◌++◌, some, codes}
use iotex_arduino.Base.{decimal, decimal_one}
use iotex_arduino.Base.{atoi, append-nil}
use iotex_arduino.ResultCode.{success}
use iotex_arduino.Abi.{uint, int, address, bool, bytes_static, string}
use iotex_arduino.Abi.{bytes_dynamic, array_static, array_dynamic, InputOutputAbi}
use iotex_arduino.Abi.TypeText.{char_at, read_array_size, check_array}
use iotex_arduino.Abi.SizeText.{atoi-decimal}

-- The types that are no arrays, an integer by its bytes.
pub data Scalar : Type 0 where
  uint_scalar int_scalar bytes_scalar : ℕ → Scalar
  address_scalar bool_scalar string_scalar bytes_dynamic_scalar : Scalar

pub data AbiType : Type 0 where
  scalar dynamic_array : Scalar → AbiType
  static_array : Scalar → ℕ → AbiType

-- At most 32 bytes, and sizes of one digit.
abbrev pub IsScalar : Scalar → Type 0
IsScalar (uint_scalar n) = (0 < n) × (n ≤ 32)
IsScalar (int_scalar n) = (0 < n) × (n ≤ 32)
IsScalar (bytes_scalar n) = (0 < n) × (n ≤ 32)
IsScalar _ = Unit

abbrev pub IsAbiType : AbiType → Type 0
IsAbiType (scalar s) = IsScalar s
IsAbiType (dynamic_array s) = IsScalar s
IsAbiType (static_array s k) = IsScalar s × (k < 10)

abbrev pub set_scalar : Scalar → InputOutputAbi → InputOutputAbi
set_scalar (uint_scalar n) out = record out {
  type = uint;
  size_bytes = n;
  array_type_size_bytes = n;
}
set_scalar (int_scalar n) out = record out { type = int; size_bytes = n; array_type_size_bytes = n }
set_scalar (bytes_scalar n) out = record out {
  type = bytes_static;
  size_bytes = n;
  array_type_size_bytes = n;
}
set_scalar address_scalar out = record out { type = address }
set_scalar bool_scalar out = record out { type = bool }
set_scalar string_scalar out = record out { type = string }
set_scalar bytes_dynamic_scalar out = record out { type = bytes_dynamic }

-- The description of a type, in the fields that it has.
abbrev pub abi_of : AbiType → InputOutputAbi → InputOutputAbi
abi_of (scalar s) out = set_scalar s out
abi_of (dynamic_array s) out = record (set_scalar s out) {
  array_type = (set_scalar s out).type;
  type = array_dynamic;
}
abi_of (static_array s k) out = record (set_scalar s out) {
  array_type = (set_scalar s out).type;
  type = array_static;
  array_size = k;
}

abbrev pub scalar_text : Scalar → List ℕ
scalar_text (uint_scalar n) = codes "uint" ++ decimal (n * 8)
scalar_text (int_scalar n) = codes "int" ++ decimal (n * 8)
scalar_text (bytes_scalar n) = codes "bytes" ++ decimal n
scalar_text address_scalar = codes "address"
scalar_text bool_scalar = codes "bool"
scalar_text string_scalar = codes "string"
scalar_text bytes_dynamic_scalar = codes "bytes"

-- The text of a type in the language of contracts.
abbrev pub type_text : AbiType → List ℕ
type_text (scalar s) = scalar_text s
type_text (dynamic_array s) = scalar_text s ++ codes "[]"
type_text (static_array s k) = scalar_text s ++ (b'[' ∷ (decimal k ++ codes "]"))

-- What check_array does for the three ends of a text.
abbrev pub array_end : AbiType → List ℕ
array_end (scalar s) = []
array_end (dynamic_array s) = codes "[]"
array_end (static_array s k) = b'[' ∷ (decimal k ++ codes "]")

abbrev pub scalar_of : AbiType → Scalar
scalar_of (scalar s) = s
scalar_of (dynamic_array s) = s
scalar_of (static_array s k) = s

abbrev pub EndsWell : AbiType → Type 0
EndsWell (static_array s k) = k < 10
EndsWell _ = Unit

check_one_digit :
    (k : ℕ) (out : InputOutputAbi)
    → k < 10
    → check_array (b'[' ∷ (b'0' + k) ∷ b']' ∷ []) out
      ≡ some (success, record out { array_type = out.type; type = array_static; array_size = k })
unfolding check_array char_at read_array_size
check_one_digit k out h =
    ground (arith, ap atoi (sym (decimal_one k h)) ∙ atoi-decimal k (omega arith))

pub check_array_end :
    (t : AbiType) (out : InputOutputAbi)
    → EndsWell t
    → check_array (array_end t) (set_scalar (scalar_of t) out) ≡ some (success, abi_of t out)
check_array_end (scalar s) out h = unfold check_array in refl
check_array_end (dynamic_array s) out h = unfold check_array char_at in refl
check_array_end (static_array s k) out h =
    rw (decimal_one k h) (check_one_digit k (set_scalar s out) h)

pub type_text_lem : (t : AbiType) → type_text t ≡ scalar_text (scalar_of t) ++ array_end t
type_text_lem (scalar s) = sym (append-nil (scalar_text s))
type_text_lem (dynamic_array s) = refl
type_text_lem (static_array s k) = refl
