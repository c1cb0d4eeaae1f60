-- ===== src/Base/Numbers.antt =====
-- `atoi` of the C library, and prefixes of texts.
use Prim.Native.Nat.{ℕ, ◌+◌, ◌*◌, ◌-◌, ◌^◌}
use mathlib.Core.Bool.{Bool, true, false, ◌&&◌, ◌||◌}
use mathlib.Core.Option.{Option, none, some}
use mathlib.Core.List.{List, [], ◌∷◌}
use iotex_arduino.Base.Tests.{leb, ltb, ◌==◌, if◌then◌else◌}

abbrev pub is_digit : ℕ → Bool
is_digit c = leb b'0' c && leb c b'9'

-- The characters that `isspace` accepts.
abbrev is_space : ℕ → Bool
is_space c = (c == b' ') || (leb 9 c && leb c 13)

-- The digits at the front, and the number that they continue.
unfoldable pub digits_value : ℕ → List ℕ → ℕ
digits_value acc [] = acc
digits_value acc (c ∷ s) = elim (is_digit c) [
  | true ↦ digits_value (acc * 10 + (c - b'0')) s
  | false ↦ acc
]

-- The bit pattern of the 32-bit result. A number that an `int` does not hold is undefined.
unfoldable pub signed_value : Bool → ℕ → Option ℕ
signed_value negative n =
    if negative
    then if leb n (2 ^ 31) then some (if n == 0 then 0 else 2 ^ 32 - n) else none
    else if ltb n (2 ^ 31)
    then some n
    else none

unfoldable pub atoi : List ℕ → Option ℕ
atoi [] = some 0
atoi (c ∷ s) = elim (is_space c) [
  | true ↦ atoi s
  | false ↦ elim (c == b'-') [
    | true ↦ signed_value true (digits_value 0 s)
    | false ↦ elim (c == b'+') [
      | true ↦ signed_value false (digits_value 0 s)
      | false ↦ signed_value false (digits_value 0 (c ∷ s))
    ]
  ]
]

-- What stands behind a prefix.
unfoldable pub strip_prefix : List ℕ → List ℕ → Option (List ℕ)
strip_prefix [] s = some s
strip_prefix (c ∷ p) [] = none
strip_prefix (c ∷ p) (d ∷ s) = elim (c == d) [ true ↦ strip_prefix p s | false ↦ none ]
