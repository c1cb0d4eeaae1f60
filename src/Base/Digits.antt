-- ===== src/Base/Digits.antt =====
-- The number that `atoi` reads back from a printed one, and the first place of a character.
use Prim.Native.Nat.{ℕ, zero, suc, ◌+◌, ◌*◌, ◌-◌, ◌/◌, ◌%◌, ◌^◌, ◌<◌}
use native.Mathlib.Nat.{pow-suc}
use native.Mathlib.Omega.{arith}
use mathlib.Core.Path.{◌≡◌, refl, ap}
use mathlib.Core.Logic.{◌≢◌, inl, inr}
use mathlib.Core.Bool.{true, false}
use mathlib.Core.Option.{Option, none, some}
use mathlib.Core.List.{List, [], ◌∷◌, ◌++◌}
use iotex_arduino.Base.Tests.{ltb, ◌==◌, Bool-cases}
use iotex_arduino.Base.Lists.{length, take, drop}
use iotex_arduino.Base.Text.{All, All-append}
use iotex_arduino.Base.Numbers.{is_digit, digits_value, signed_value, atoi}
use iotex_arduino.Base.Decimal.{decimal_digits, decimal, lt-ten-pow}

abbrev pub AllDigits : List ℕ → Type 0
AllDigits s = All (λ c. is_digit c ≡ true) s

pub decimal_digits-AllDigits : (k n : ℕ) → AllDigits (decimal_digits k n)
unfolding decimal_digits
decimal_digits-AllDigits zero n = (ground arith, tt)
decimal_digits-AllDigits (suc k) n = elim (Bool-cases (ltb n 10)) [
  | inl small ↦ rw small (ground (arith, small), tt)
  | inr large ↦ rw large (
      All-append (λ (c : ℕ). is_digit c ≡ true) (decimal_digits k (n / 10)) ((b'0' + n % 10) ∷ [])
        (decimal_digits-AllDigits k (n / 10)) (ground arith, tt))
]

digits_value-append :
    (acc : ℕ) (s t : List ℕ)
    → AllDigits s
    → digits_value acc (s ++ t) ≡ digits_value (digits_value acc s) t
unfolding digits_value
digits_value-append acc [] t h = refl
digits_value-append acc (c ∷ s) t (h, hs) =
    ground (arith, h, digits_value-append (acc * 10 + (c - b'0')) s t hs)

digits_value-decimal_digits : (k n : ℕ) → n < 10 ^ suc k → digits_value 0 (decimal_digits k n) ≡ n
unfolding digits_value decimal_digits
digits_value-decimal_digits zero n h = ground arith
digits_value-decimal_digits (suc k) n h = elim (Bool-cases (ltb n 10)) [
  | inl small ↦ ground (arith, small)
  | inr large ↦ rw large (
      rw
        (digits_value-append 0 (decimal_digits k (n / 10)) ((b'0' + n % 10) ∷ [])
          (decimal_digits-AllDigits k (n / 10)))
        (ground
          (arith, digits_value-decimal_digits k (n / 10) (omega (arith, pow-suc 10 (suc k))))))
]

atoi-digits : (s : List ℕ) → AllDigits s → atoi s ≡ signed_value false (digits_value 0 s)
unfolding atoi digits_value signed_value
atoi-digits [] h = refl
atoi-digits (c ∷ s) (h, hs) = ground (arith, h)

pub atoi-decimal : (n : ℕ) → n < 2 ^ 31 → atoi (decimal n) ≡ some n
unfolding decimal signed_value
atoi-decimal n h =
    rw (atoi-digits (decimal n) (decimal_digits-AllDigits n n))
      (rw (digits_value-decimal_digits n n (lt-ten-pow n)) (ground arith))

pub decimal-AllDigits : (n : ℕ) → AllDigits (decimal n)
unfolding decimal
decimal-AllDigits n = decimal_digits-AllDigits n n

-- `indexOf` of a text for a character.
unfoldable pub first_index : ℕ → List ℕ → Option ℕ
first_index c [] = none
first_index c (d ∷ s) = elim (d == c) [
  | true ↦ some 0
  | false ↦ elim (first_index c s) [ none ↦ none | some i ↦ some (suc i) ]
]

abbrev pub Without : ℕ → List ℕ → Type 0
Without c s = All (λ d. d ≢ c) s

pub first_index-found :
    (c : ℕ) (s t : List ℕ) → Without c s → first_index c (s ++ (c ∷ t)) ≡ some (length s)
unfolding first_index
first_index-found c [] t h = ground arith
first_index-found c (d ∷ s) t (h, hs) = ground (arith, h, first_index-found c s t hs)

pub first_index-absent : (c : ℕ) (s : List ℕ) → Without c s → first_index c s ≡ none
unfolding first_index
first_index-absent c [] h = refl
first_index-absent c (d ∷ s) (h, hs) = ground (arith, h, first_index-absent c s hs)

pub AllDigits-Without : (c : ℕ) (s : List ℕ) → is_digit c ≡ false → AllDigits s → Without c s
AllDigits-Without c [] h a = tt
AllDigits-Without c (d ∷ s) h (a, as_) = (λ e. ground (arith, e, h, a), AllDigits-Without c s h as_)

module _ {ℓ} {A : Type ℓ} where
  pub take-append : (xs ys : List A) → take (length xs) (xs ++ ys) ≡ xs
  take-append [] ys = refl
  take-append (x ∷ xs) ys = ap (λ t. x ∷ t) (take-append xs ys)

  pub drop-append : (xs ys : List A) → drop (length xs) (xs ++ ys) ≡ ys
  drop-append [] ys = refl
  drop-append (x ∷ xs) ys = drop-append xs ys

  pub drop-append_one : (xs ys : List A) (x : A) → drop (length xs + 1) (xs ++ (x ∷ ys)) ≡ ys
  drop-append_one [] ys x = refl
  drop-append_one (z ∷ xs) ys x =
      let e : length (z ∷ xs) + 1 ≡ suc (length xs + 1) = omega arith in
      rw e (drop-append_one xs ys x)
