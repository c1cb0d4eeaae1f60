-- ===== src/Abi/ArraySize.antt =====
-- The size of a static array of two digits: the loop that copies it skips the second digit.
use iotex_arduino.Base.{ℕ, ◌+◌, ◌/◌, ◌%◌, ◌≤◌, ◌<◌, ◌≡◌, refl, ◌∙◌, arith, [], ◌∷◌}
use iotex_arduino.Base.{◌++◌, some, codes, decimal, decimal_two, atoi, digits_value}
use iotex_arduino.Base.{signed_value}
use iotex_arduino.ResultCode.{success}
use iotex_arduino.Abi.{InputOutputAbi, array_static}
use iotex_arduino.Abi.TypeText.{char_at, read_array_size, check_array}
use iotex_arduino.Abi.TypeText.{get_type_and_size_from_string}
use iotex_arduino.Abi.Canonical.{Scalar, IsScalar, set_scalar, abi_of, static_array, type_text}
use iotex_arduino.Abi.RoundTrip.{parse_scalar}

first_digit : (d : ℕ) → d < 10 → atoi ((b'0' + d) ∷ b']' ∷ []) ≡ some d
unfolding atoi digits_value signed_value
first_digit d h = ground arith

check_two_digits :
    (d e : ℕ) (out : InputOutputAbi)
    → d < 10
    → e < 10
    → check_array (b'[' ∷ (b'0' + d) ∷ (b'0' + e) ∷ b']' ∷ []) out
      ≡ some (success, record out { array_type = out.type; type = array_static; array_size = d })
unfolding check_array char_at read_array_size
check_two_digits d e out h k = ground (arith, first_digit d h)

-- From the text of a static array with a size of two digits, getTypeAndSizeFromString reads a static
-- array of the same elements whose size is the first digit.
pub two_digit_size :
    (s : Scalar) (k : ℕ) (out : InputOutputAbi)
    → IsScalar s
    → 10 ≤ k
    → k < 100
    → get_type_and_size_from_string (type_text (static_array s k)) out
      ≡ some (success, abi_of (static_array s (k / 10)) out)
two_digit_size s k out h low high =
    parse_scalar s (b'[' ∷ (decimal k ++ codes "]")) out h refl
    ∙ rw (decimal_two k low high)
        (check_two_digits (k / 10) (k % 10) (set_scalar s out) (omega arith) (omega arith))
