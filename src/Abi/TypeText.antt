-- ===== src/Abi/TypeText.antt =====
-- InputOutputAbi::getTypeAndSizeFromString and getSizeFromStringAndCheckIfArray of src/abi/abi.cpp.
-- A `none` stands for a read behind a text or a buffer; the rest of the text is what `pCurr` is at.
use iotex_arduino.Base.{ℕ, zero, suc, ◌+◌, ◌/◌, List, [], ◌∷◌, ◌++◌, Bool, true, false, ◌>>=◌}
use iotex_arduino.Base.{◌&&◌, Option, none, some, codes, length, ltb, ◌==◌}
use iotex_arduino.Base.{if◌then◌else◌, is_digit, atoi, strip_prefix}
use iotex_arduino.ResultCode.{ResultCode, success, error_bad_parameter}
use iotex_arduino.Abi.{EthereumTypeName, uint, int, address, bool, bytes_static, string}
use iotex_arduino.Abi.{bytes_dynamic, array_static, array_dynamic, tuple_static, InputOutputAbi}
use iotex_arduino.Abi.Signature.{is_integer_type}

-- The loop that copies up to four digits to `sizeBuf`, with `rounds` left. `none` is the early
-- return; else the digits, and the text behind them. The digits are `from` and what is copied.
unfoldable pub read_size_digits : ℕ → List ℕ → List ℕ → Option (List ℕ × List ℕ)
read_size_digits zero from rest = some (from, rest)
read_size_digits (suc rounds) from [] = none
read_size_digits (suc rounds) from (c ∷ []) = elim (c == b'[') [
  | true ↦ some (from, c ∷ [])
  | false ↦ elim (is_digit c) [ true ↦ some (from ++ (c ∷ []), []) | false ↦ none ]
]
read_size_digits (suc rounds) from (c ∷ d ∷ rest) = elim (c == b'[') [
  | true ↦ some (from, c ∷ d ∷ rest)
  | false ↦ elim (is_digit c) [
    | true ↦ read_size_digits rounds (from ++ (c ∷ [])) (d ∷ rest)
    | false ↦ none
  ]
]

-- `atoi(sizeBuf)`: four digits leave no terminator in the buffer.
unfoldable pub size_value : List ℕ → Option ℕ
size_value digits = if ltb (length digits) 4 then atoi digits else none

-- `pCurr[i]`, where a text ends with its terminator.
unfoldable pub char_at : List ℕ → ℕ → Option ℕ
char_at [] zero = some 0
char_at [] (suc i) = none
char_at (c ∷ rest) zero = some c
char_at (c ∷ rest) (suc i) = char_at rest i

-- The loop that copies the size of a static array: `pCurr[i]` while `pCurr` advances too. Without a
-- `]` it moves behind the terminator and reads there.
unfoldable pub read_array_size : ℕ → List ℕ → List ℕ → Option (List ℕ)
read_array_size i buf [] = none
read_array_size i buf (c ∷ rest) = elim (c == b']') [
  | true ↦ some buf
  | false ↦ elim (char_at (c ∷ rest) i) [
    | none ↦ none
    | some x ↦ read_array_size (i + 1) (buf ++ (x ∷ [])) rest
  ]
]

abbrev pub has_size : EthereumTypeName → Bool
has_size bytes_static = true
has_size type = is_integer_type type

-- The last part, from the text behind the size on.
unfoldable pub check_array : List ℕ → InputOutputAbi → Option (ResultCode × InputOutputAbi)
check_array [] out = some (success, out)
check_array (c ∷ rest) out = elim (c == b'[') [
  | false ↦ some (success, out)
  | true ↦ elim (char_at rest 0) [
    | none ↦ none
    | some d ↦ elim (d == b']') [
      | true ↦ some (success, record out { array_type = out.type; type = array_dynamic })
      | false ↦ do
        buf ← read_array_size 0 [] rest
        size ← atoi buf
        some (success, record out { array_type = out.type; type = array_static; array_size = size })
    ]
  ]
]

abbrev pub set_size : EthereumTypeName → ℕ → InputOutputAbi → InputOutputAbi
set_size type n out =
    let size = if is_integer_type type then n / 8 else n in
    record out { size_bytes = size; array_type_size_bytes = size }

-- getSizeFromStringAndCheckIfArray on the text behind the name of the type.
unfoldable pub get_size_and_check_if_array :
    List ℕ → InputOutputAbi → Option (ResultCode × InputOutputAbi)
get_size_and_check_if_array rest out =
    if is_integer_type out.type && (length rest == 0)
    then some (success, record out { size_bytes = 32 })
    else if has_size out.type
    then elim (read_size_digits 4 [] rest) [
      | none ↦ some (error_bad_parameter, out)
      | some (digits, behind) ↦ do
        n ← size_value digits
        check_array behind (set_size out.type n out)
    ]
    else check_array rest out

-- The alternatives of getTypeAndSizeFromString from a name on. Without a match the result is SUCCESS
-- and `out` is as it was.
unfoldable pub match_string : List ℕ → InputOutputAbi → Option (ResultCode × InputOutputAbi)
match_string str out = elim (strip_prefix (codes "string") str) [
  | some rest ↦ get_size_and_check_if_array rest (record out { type = string })
  | none ↦ some (success, out)
]

unfoldable pub match_bytes : List ℕ → InputOutputAbi → Option (ResultCode × InputOutputAbi)
match_bytes str out = elim (strip_prefix (codes "bytes") str) [
  | some [] ↦ some (success, record out { type = bytes_dynamic })
  | some (c ∷ rest) ↦ elim (c == b'[') [
    | true ↦ get_size_and_check_if_array (c ∷ rest) (record out { type = bytes_dynamic })
    | false ↦ get_size_and_check_if_array (c ∷ rest) (record out { type = bytes_static })
  ]
  | none ↦ match_string str out
]

unfoldable pub match_named : List ℕ → InputOutputAbi → Option (ResultCode × InputOutputAbi)
match_named str out = elim (strip_prefix (codes "uint") str) [
  | some rest ↦ get_size_and_check_if_array rest (record out { type = uint })
  | none ↦ elim (strip_prefix (codes "int") str) [
    | some rest ↦ get_size_and_check_if_array rest (record out { type = int })
    | none ↦ elim (strip_prefix (codes "address") str) [
      | some rest ↦ get_size_and_check_if_array rest (record out { type = address })
      | none ↦ elim (strip_prefix (codes "bool") str) [
        | some rest ↦ get_size_and_check_if_array rest (record out { type = bool })
        | none ↦ match_bytes str out
      ]
    ]
  ]
]

unfoldable pub get_type_and_size_from_string :
    List ℕ → InputOutputAbi → Option (ResultCode × InputOutputAbi)
get_type_and_size_from_string [] out = some (error_bad_parameter, out)
get_type_and_size_from_string (c ∷ str) out = elim (c == b'(') [
  | true ↦ some (success, record out { type = tuple_static })
  | false ↦ match_named (c ∷ str) out
]
