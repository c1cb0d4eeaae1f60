-- ===== src/Contract/ByteEncoding.antt =====
-- The encodings of arguments are bytes.
use iotex_arduino.Base.{ℕ, zero, suc, ◌+◌, arith, List, [], ◌∷◌}
use iotex_arduino.Base.{true, length, replicate, All, IsByte, All-append}
use iotex_arduino.Contract.BigEndian.{big_endian}
use iotex_arduino.Contract.WordLaws.{sign_extended}
use iotex_arduino.Contract.SignedWords.{big_endian-IsByte}
use iotex_arduino.Contract.Arguments.{int_argument}
use iotex_arduino.Contract.Arguments.{Argument, uint_argument, address_argument, encoding}
use iotex_arduino.Contract.Arguments.{
  bytes_static_argument, bytes_dynamic_argument, string_argument,
}
use iotex_arduino.Contract.Arguments.{padded}
use iotex_arduino.Contract.Supply.{encodings}
use iotex_arduino.Contract.AbiEncode.{abi_heads}

-- The bytes of an argument are bytes.
abbrev pub HasBytes : Argument → Type 0
HasBytes (uint_argument value) = Unit
HasBytes (int_argument value) = Unit
HasBytes (address_argument bytes) = All IsByte bytes
HasBytes (bytes_static_argument bytes) = All IsByte bytes
HasBytes (bytes_dynamic_argument bytes) = All IsByte bytes
HasBytes (string_argument text) = All IsByte text

zeroes-IsByte : (n : ℕ) → All IsByte (replicate n 0)
zeroes-IsByte zero = tt
zeroes-IsByte (suc n) = (omega arith, zeroes-IsByte n)

padded-IsByte : (bytes : List ℕ) → All IsByte bytes → All IsByte (padded bytes)
padded-IsByte bytes h = All-append IsByte bytes _ h (zeroes-IsByte _)

encoding-IsByte : (a : Argument) → HasBytes a → All IsByte (encoding a)
encoding-IsByte (uint_argument value) h = big_endian-IsByte 32 value
encoding-IsByte (int_argument value) h = big_endian-IsByte 32 (sign_extended 8 value)
encoding-IsByte (address_argument bytes) h =
    All-append IsByte (replicate 12 0) bytes (zeroes-IsByte 12) h
encoding-IsByte (bytes_static_argument bytes) h = padded-IsByte bytes h
encoding-IsByte (bytes_dynamic_argument bytes) h =
    All-append IsByte (big_endian 32 (length bytes)) (padded bytes)
      (big_endian-IsByte 32 (length bytes)) (padded-IsByte bytes h)
encoding-IsByte (string_argument text) h =
    All-append IsByte (big_endian 32 (length text)) (padded text)
      (big_endian-IsByte 32 (length text)) (padded-IsByte text h)

pub abi_heads-IsByte :
    (offset : ℕ) (arguments : List Argument)
    → All HasBytes arguments
    → All IsByte (abi_heads offset arguments)
abi_heads-IsByte offset [] h = tt
abi_heads-IsByte offset (uint_argument value ∷ arguments) (h, hs) =
    All-append IsByte (big_endian 32 value) (abi_heads offset arguments)
      (big_endian-IsByte 32 value) (abi_heads-IsByte offset arguments hs)
abi_heads-IsByte offset (int_argument value ∷ arguments) (h, hs) =
    All-append IsByte (big_endian 32 (sign_extended 8 value)) (abi_heads offset arguments)
      (big_endian-IsByte 32 (sign_extended 8 value)) (abi_heads-IsByte offset arguments hs)
abi_heads-IsByte offset (address_argument bytes ∷ arguments) (h, hs) =
    All-append IsByte (encoding (address_argument bytes)) (abi_heads offset arguments)
      (encoding-IsByte (address_argument bytes) h) (abi_heads-IsByte offset arguments hs)
abi_heads-IsByte offset (bytes_static_argument bytes ∷ arguments) (h, hs) =
    All-append IsByte (padded bytes) (abi_heads offset arguments) (padded-IsByte bytes h)
      (abi_heads-IsByte offset arguments hs)
abi_heads-IsByte offset (bytes_dynamic_argument bytes ∷ arguments) (h, hs) =
    All-append IsByte (big_endian 32 offset) _ (big_endian-IsByte 32 offset)
      (abi_heads-IsByte (offset + length (encoding (bytes_dynamic_argument bytes))) arguments hs)
abi_heads-IsByte offset (string_argument text ∷ arguments) (h, hs) =
    All-append IsByte (big_endian 32 offset) _ (big_endian-IsByte 32 offset)
      (abi_heads-IsByte (offset + length (encoding (string_argument text))) arguments hs)

pub encodings-IsByte :
    (arguments : List Argument) → All HasBytes arguments → All IsByte (encodings true arguments)
encodings-IsByte [] h = tt
encodings-IsByte (uint_argument value ∷ arguments) (h, hs) = encodings-IsByte arguments hs
encodings-IsByte (int_argument value ∷ arguments) (h, hs) = encodings-IsByte arguments hs
encodings-IsByte (address_argument bytes ∷ arguments) (h, hs) = encodings-IsByte arguments hs
encodings-IsByte (bytes_static_argument bytes ∷ arguments) (h, hs) = encodings-IsByte arguments hs
encodings-IsByte (bytes_dynamic_argument bytes ∷ arguments) (h, hs) =
    All-append IsByte (encoding (bytes_dynamic_argument bytes)) _
      (encoding-IsByte (bytes_dynamic_argument bytes) h) (encodings-IsByte arguments hs)
encodings-IsByte (string_argument text ∷ arguments) (h, hs) =
    All-append IsByte (encoding (string_argument text)) _ (encoding-IsByte (string_argument text) h)
      (encodings-IsByte arguments hs)
