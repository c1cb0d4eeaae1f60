-- ===== src/Bits/Mask.antt =====
-- `|` of disjoint fields and `&` with a low mask, as arithmetic.
use Prim.Native.Nat.{bit_and, bit_or}
use mathlib.Core.Path.{ap}
use native.Mathlib.Nat.{pow-suc, one-le-pow, mod-one}
use iotex_arduino.Base.{ℕ, zero, suc, ◌+◌, ◌-◌, ◌*◌, ◌/◌, ◌%◌, ◌^◌, ◌≤◌, ◌<◌, ◌≡◌, refl, arith}
use iotex_arduino.Bits.Step.{bit_or_step, bit_and_step}
use iotex_arduino.Bits.Xor.{half_mod, double-field}

join_nothing : (bound x : ℕ) → x ≤ bound → bit_or x 0 ≡ x
join_nothing bound zero p = refl
join_nothing zero (suc x) p = absurd (omega arith)
join_nothing (suc bound) (suc x) p =
    let half = join_nothing bound (suc x / 2) (omega arith) in
    omega (arith, half, bit_or_step (suc x) 0)

mask_nothing : (bound x : ℕ) → x ≤ bound → bit_and x 0 ≡ 0
mask_nothing bound zero p = refl
mask_nothing zero (suc x) p = absurd (omega arith)
mask_nothing (suc bound) (suc x) p =
    let half = mask_nothing bound (suc x / 2) (omega arith) in
    omega (arith, half, bit_and_step (suc x) 0)

-- `(high << k) | low` is a sum when `low` fits `k` bits.
pub or_fields : (k high low : ℕ) → low < 2 ^ k → bit_or (high * 2 ^ k) low ≡ high * 2 ^ k + low
or_fields zero high low h = ground (arith, join_nothing high high)
or_fields (suc k) high low h = omega (
  arith,
  double-field high k,
  bit_or_step (high * 2 ^ suc k) low,
  ap (λ t. bit_or t (low / 2)) half,
  or_fields k high (low / 2) (omega (arith, pow-suc 2 k)),
)
  where
    half : high * 2 ^ suc k / 2 ≡ high * 2 ^ k
    half = omega (arith, double-field high k)

-- A mask of `k` low bits is the remainder by `2 ^ k`.
pub and_mask : (k x : ℕ) → bit_and x (2 ^ k - 1) ≡ x % 2 ^ k
and_mask zero x = rw (mod-one x) (mask_nothing x x (omega arith))
and_mask (suc k) x = ground (
  arith,
  bit_and_step x (2 ^ suc k - 1),
  pow-suc 2 k,
  one-le-pow k 2,
  half_mod k x,
  and_mask k (x / 2),
)
