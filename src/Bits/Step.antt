-- ===== src/Bits/Step.antt =====
-- One equation for the lowest digit of each operation. The native operations stand for `bitwise`,
-- which counts down the digits that may be left.
use Prim.Native.Nat.{min, max, digits, bitwise, differ, bit_and, bit_or, bit_xor}
use Prim.Native.Nat.{bit_and-bitwise, bit_or-bitwise, bit_xor-bitwise}
use iotex_arduino.Base.{ℕ, zero, suc, ◌+◌, ◌*◌, ◌/◌, ◌%◌, ◌≤◌, ◌≡◌, refl, sym, ap, ◌∙◌, arith}

module _ (ended : ℕ → ℕ) (join : ℕ → ℕ → ℕ) where
  -- A count above the number gives what the number itself gives.
  spare_count :
      (bound count x y : ℕ)
      → count ≤ bound
      → x ≤ count
      → digits ended join count x y ≡ bitwise ended join x y
  spare_count bound zero zero y p q = refl
  spare_count bound (suc count) zero y p q = refl
  spare_count bound zero (suc x) y p q = absurd (omega arith)
  spare_count zero (suc count) (suc x) y p q = absurd (omega arith)
  spare_count (suc bound) (suc count) (suc x) y p q =
      ap (λ t. t * 2 + join (suc x % 2) (y % 2))
        (spare_count bound count (suc x / 2) (y / 2) (omega arith) (omega arith)
          ∙ sym (spare_count bound x (suc x / 2) (y / 2) (omega arith) (omega arith)))

  halves :
      (x y : ℕ)
      → bitwise ended join (suc x) y
        ≡ bitwise ended join (suc x / 2) (y / 2) * 2 + join (suc x % 2) (y % 2)
  halves x y =
      ap (λ t. t * 2 + join (suc x % 2) (y % 2))
        (spare_count x x (suc x / 2) (y / 2) (omega arith) (omega arith))

pub bit_or_step : (x y : ℕ) → bit_or x y ≡ bit_or (x / 2) (y / 2) * 2 + max (x % 2) (y % 2)
bit_or_step zero y = omega (arith, bit_or-bitwise 0 y, bit_or-bitwise 0 (y / 2))
bit_or_step (suc x) y =
    omega
      (arith, halves (λ t. t) max x y, bit_or-bitwise (suc x) y, bit_or-bitwise (suc x / 2) (y / 2))

pub bit_and_step : (x y : ℕ) → bit_and x y ≡ bit_and (x / 2) (y / 2) * 2 + min (x % 2) (y % 2)
bit_and_step zero y = omega (arith, bit_and-bitwise 0 y, bit_and-bitwise 0 (y / 2))
bit_and_step (suc x) y =
    omega (
      arith,
      halves (λ t. 0) min x y,
      bit_and-bitwise (suc x) y,
      bit_and-bitwise (suc x / 2) (y / 2),
    )

differ_mod : (x y : ℕ) → x ≤ 1 → y ≤ 1 → differ x y ≡ (x + y) % 2
differ_mod zero zero p q = refl
differ_mod zero (suc zero) p q = refl
differ_mod (suc zero) zero p q = refl
differ_mod (suc zero) (suc zero) p q = refl
differ_mod zero (suc (suc y)) p q = absurd (omega arith)
differ_mod (suc zero) (suc (suc y)) p q = absurd (omega arith)
differ_mod (suc (suc x)) y p q = absurd (omega arith)

pub bit_xor_step : (x y : ℕ) → bit_xor x y ≡ bit_xor (x / 2) (y / 2) * 2 + (x + y) % 2
bit_xor_step zero y = omega (arith, bit_xor-bitwise 0 y, bit_xor-bitwise 0 (y / 2))
bit_xor_step (suc x) y = omega (
  arith,
  halves (λ t. t) differ x y,
  bit_xor-bitwise (suc x) y,
  bit_xor-bitwise (suc x / 2) (y / 2),
  differ_mod (suc x % 2) (y % 2) (omega arith) (omega arith),
)
