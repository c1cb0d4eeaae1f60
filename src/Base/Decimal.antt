-- ===== src/Base/Decimal.antt =====
-- The text that `%d` and `%u` print for a number.
use Prim.Native.Nat.{◌-◌, ℕ, zero, suc, ◌+◌, ◌/◌, ◌%◌, ◌^◌, ◌<◌, ◌≤◌}
use native.Mathlib.Nat.{pow-suc}
use native.Mathlib.Omega.{arith}
use mathlib.Core.Logic.{inl, inr}
use mathlib.Core.Path.{◌≡◌, refl}
use mathlib.Core.List.{List, [], ◌∷◌, ◌++◌}
use iotex_arduino.Base.Lists.{length, length-append}
use iotex_arduino.Base.Tests.{ltb, Bool-cases, if◌then◌else◌}

-- A number in decimal by repeated division, of k + 1 digits at most.
unfoldable pub decimal_digits : ℕ → ℕ → List ℕ
decimal_digits zero n = (b'0' + n % 10) ∷ []
decimal_digits (suc k) n =
    let front = decimal_digits k (n / 10) in
    if ltb n 10 then (b'0' + n) ∷ [] else front ++ ((b'0' + n % 10) ∷ [])

-- A number has no more digits than itself and one.
unfoldable pub decimal : ℕ → List ℕ
unfolding decimal_digits
decimal n = decimal_digits n n

pub lt-ten-pow : (n : ℕ) → n < 10 ^ suc n
lt-ten-pow zero = omega arith
lt-ten-pow (suc n) = omega (arith, lt-ten-pow n, pow-suc 10 (suc n))

pub decimal_digits_fuel :
    (k j n : ℕ) → n < 10 ^ suc k → n < 10 ^ suc j → decimal_digits k n ≡ decimal_digits j n
unfolding decimal_digits
decimal_digits_fuel zero zero n h g = refl
decimal_digits_fuel zero (suc j) n h g = ground arith
decimal_digits_fuel (suc k) zero n h g = ground arith
decimal_digits_fuel (suc k) (suc j) n h g = ground (
  arith,
  decimal_digits_fuel k j (n / 10) (omega (arith, pow-suc 10 (suc k)))
      (omega (arith, pow-suc 10 (suc j))),
)

-- A number below 1000 in one, two or three digits.
pub decimal_one : (n : ℕ) → n < 10 → decimal n ≡ (b'0' + n) ∷ []
unfolding decimal decimal_digits
decimal_one zero h = refl
decimal_one (suc n) h = ground arith

pub decimal_short : (n : ℕ) → n < 1000 → decimal n ≡ decimal_digits 2 n
unfolding decimal
decimal_short n h = decimal_digits_fuel n 2 n (lt-ten-pow n) (omega arith)

pub decimal_two : (n : ℕ) → 10 ≤ n → n < 100 → decimal n ≡ (b'0' + n / 10) ∷ (b'0' + n % 10) ∷ []
unfolding decimal_digits
decimal_two n l h = ground (arith, decimal_short n)

pub decimal_three :
    (n : ℕ)
    → 100 ≤ n
    → n < 1000
    → decimal n ≡ (b'0' + n / 10 / 10) ∷ (b'0' + n / 10 % 10) ∷ (b'0' + n % 10) ∷ []
unfolding decimal_digits
decimal_three n l h = ground (arith, decimal_short n)

length-decimal_digits : (k n : ℕ) → length (decimal_digits k n) ≤ suc k
unfolding decimal_digits
length-decimal_digits zero n = omega arith
length-decimal_digits (suc k) n = ground (
  arith,
  length-decimal_digits k (n / 10),
  length-append (decimal_digits k (n / 10)) ((b'0' + n % 10) ∷ []),
)

-- The text of a number below 10 ^ (k + 1) has k + 1 characters at most.
pub length-decimal : (k n : ℕ) → n < 10 ^ suc k → length (decimal n) ≤ suc k
unfolding decimal
length-decimal k n h = rw (decimal_digits_fuel n k n (lt-ten-pow n) h) (length-decimal_digits k n)

-- `%d` of the bit pattern of a 32-bit integer.
unfoldable pub print_int : ℕ → List ℕ
print_int n = if ltb n (2 ^ 31) then decimal n else b'-' ∷ decimal (2 ^ 32 - n)

pub print_int-decimal : (n : ℕ) → n < 65536 → print_int n ≡ decimal n
unfolding print_int
print_int-decimal n h = ground (arith, h)

pub length-print_int : (n : ℕ) → n < 2 ^ 32 → length (print_int n) ≤ 11
unfolding print_int
length-print_int n h = elim (Bool-cases (ltb n (2 ^ 31))) [
  | inl small ↦ rw small (omega (arith, length-decimal 9 n (ground (arith, small))))
  | inr large ↦ rw large (omega (arith, length-decimal 9 (2 ^ 32 - n) (ground (arith, large))))
]
