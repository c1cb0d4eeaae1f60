-- ===== src/Bits/Xor.antt =====
-- Exclusive or is a commutative group of exponent 2, and acts on bit fields separately.
use Prim.Native.Nat.{bit_xor}
use mathlib.Core.Path.{ap}
use native.Mathlib.Nat.{
  pow-suc, pow-succ', one-le-pow, div-div-eq-div-mul, div-add-mod, add-mul-mod_self_right,
  mod-eq_of_lt, mod-lt, mod-one, div-one,
}
use iotex_arduino.Base.{ℕ, zero, suc, ◌+◌, ◌*◌, ◌/◌, ◌%◌, ◌^◌, ◌≤◌, ◌<◌, ◌≡◌, refl, sym, ◌∙◌, arith}
use iotex_arduino.Bits.Step.{bit_xor_step}

xor_comm_fuel : (n a b : ℕ) → a + b ≤ n → bit_xor a b ≡ bit_xor b a
xor_comm_fuel zero zero zero h = refl
xor_comm_fuel zero (suc a) b h = absurd (omega arith)
xor_comm_fuel zero zero (suc b) h = absurd (omega arith)
xor_comm_fuel (suc n) a b h =
    omega (arith, bit_xor_step a b, bit_xor_step b a, xor_comm_fuel n (a / 2) (b / 2) (omega arith))

pub xor_comm : (a b : ℕ) → bit_xor a b ≡ bit_xor b a
xor_comm a b = xor_comm_fuel (a + b) a b (omega arith)

xor_self_fuel : (n a : ℕ) → a ≤ n → bit_xor a a ≡ 0
xor_self_fuel n zero h = refl
xor_self_fuel zero (suc a) h = absurd (omega arith)
xor_self_fuel (suc n) (suc a) h =
    omega (arith, bit_xor_step (suc a) (suc a), xor_self_fuel n (suc a / 2) (omega arith))

pub xor_self : (a : ℕ) → bit_xor a a ≡ 0
xor_self a = xor_self_fuel a a (omega arith)

zero-xor_fuel : (n b : ℕ) → b ≤ n → bit_xor 0 b ≡ b
zero-xor_fuel n zero h = refl
zero-xor_fuel zero (suc b) h = absurd (omega arith)
zero-xor_fuel (suc n) (suc b) h =
    omega (arith, bit_xor_step 0 (suc b), zero-xor_fuel n (suc b / 2) (omega arith))

pub zero-xor : (b : ℕ) → bit_xor 0 b ≡ b
zero-xor b = zero-xor_fuel b b (omega arith)

pub xor-half : (a b : ℕ) → bit_xor a b / 2 ≡ bit_xor (a / 2) (b / 2)
xor-half a b = omega (arith, bit_xor_step a b)

pub xor-parity : (a b : ℕ) → bit_xor a b % 2 ≡ (a + b) % 2
xor-parity a b = omega (arith, bit_xor_step a b)

-- Two numbers with the same halves and the same parity.
eq_of_half : (x y : ℕ) → x / 2 ≡ y / 2 → x % 2 ≡ y % 2 → x ≡ y
eq_of_half x y h p = omega arith

xor_assoc_fuel : (n a b c : ℕ) → a + b + c ≤ n → bit_xor (bit_xor a b) c ≡ bit_xor a (bit_xor b c)
xor_assoc_fuel zero zero zero zero h = refl
xor_assoc_fuel zero zero zero (suc c) h = absurd (omega arith)
xor_assoc_fuel zero zero (suc b) c h = absurd (omega arith)
xor_assoc_fuel zero (suc a) b c h = absurd (omega arith)
xor_assoc_fuel (suc n) a b c h =
    eq_of_half _ _
      (rw (xor-half (bit_xor a b) c, xor-half a b, xor-half a (bit_xor b c), xor-half b c)
        (xor_assoc_fuel n (a / 2) (b / 2) (c / 2) (omega arith)))
      (omega (
        arith,
        xor-parity (bit_xor a b) c,
        xor-parity a b,
        xor-parity a (bit_xor b c),
        xor-parity b c,
      ))

pub xor_assoc : (a b c : ℕ) → bit_xor (bit_xor a b) c ≡ bit_xor a (bit_xor b c)
xor_assoc a b c = xor_assoc_fuel (a + b + c) a b c (omega arith)

-- The middle two of four change places.
pub xor_middle :
    (a b c d : ℕ) → bit_xor (bit_xor a b) (bit_xor c d) ≡ bit_xor (bit_xor a c) (bit_xor b d)
xor_middle a b c d = cc (
  xor_assoc a b (bit_xor c d),
  xor_assoc a c (bit_xor b d),
  xor_assoc b c d,
  xor_assoc c b d,
  xor_comm b c,
)

pub double-field : (q k : ℕ) → q * 2 ^ suc k ≡ 2 * (q * 2 ^ k)
double-field q k = omega (arith, ap (λ (t : ℕ). q * t) (pow-suc 2 k))

half_div : (k a : ℕ) → a / 2 ^ suc k ≡ a / 2 / 2 ^ k
half_div k a = rw (pow-succ' 2 k) (sym (div-div-eq-div-mul a 2 (2 ^ k)))

mod_double : (m a : ℕ) → 0 < m → a % (m * 2) ≡ a / 2 % m * 2 + a % 2
mod_double m a h =
    ap (λ (t : ℕ). t % (m * 2)) parts
    ∙ add-mul-mod_self_right (a / 2 % m * 2 + a % 2) (a / 2 / m) (m * 2)
    ∙ mod-eq_of_lt (omega (arith, mod-lt (a / 2) h))
  where
    parts : a ≡ a / 2 % m * 2 + a % 2 + a / 2 / m * (m * 2)
    parts = omega (arith, div-add-mod (a / 2) m)

pub half_mod : (k a : ℕ) → a % 2 ^ suc k ≡ a / 2 % 2 ^ k * 2 + a % 2
half_mod k a = rw (pow-suc 2 k) (mod_double (2 ^ k) a (one-le-pow k 2 (omega arith)))

-- Shifts and masks distribute over exclusive or.
pub xor-div : (k a b : ℕ) → bit_xor a b / 2 ^ k ≡ bit_xor (a / 2 ^ k) (b / 2 ^ k)
xor-div zero a b = rw (div-one (bit_xor a b), div-one a, div-one b)
xor-div (suc k) a b =
    rw (half_div k (bit_xor a b), half_div k a, half_div k b, xor-half a b)
      (xor-div k (a / 2) (b / 2))

pub xor-mod : (k a b : ℕ) → bit_xor a b % 2 ^ k ≡ bit_xor (a % 2 ^ k) (b % 2 ^ k)
xor-mod zero a b = rw (mod-one (bit_xor a b), mod-one a, mod-one b)
xor-mod (suc k) a b = ground (
  arith,
  half_mod k (bit_xor a b),
  half_mod k a,
  half_mod k b,
  xor-half a b,
  xor-parity a b,
  xor-mod k (a / 2) (b / 2),
  bit_xor_step (a % 2 ^ suc k) (b % 2 ^ suc k),
)

pub xor-mul : (k a b : ℕ) → bit_xor (a * 2 ^ k) (b * 2 ^ k) ≡ bit_xor a b * 2 ^ k
xor-mul zero a b = ground arith
xor-mul (suc k) a b = ground (
  arith,
  double-field a k,
  double-field b k,
  double-field (bit_xor a b) k,
  bit_xor_step (a * 2 ^ suc k) (b * 2 ^ suc k),
  xor-mul k a b,
)

-- Disjoint fields: `(q << k) ^ r` is a sum when `r` fits `k` bits.
pub xor_fields : (k q r : ℕ) → r < 2 ^ k → bit_xor (q * 2 ^ k) r ≡ q * 2 ^ k + r
xor_fields zero q r h = ground (arith, xor_comm q 0, zero-xor q)
xor_fields (suc k) q r h =
    ground (
      arith,
      bit_xor_step (q * 2 ^ suc k) r,
      double-field q k,
      xor_fields k q (r / 2) (omega arith),
    )

-- A result has no more digits than its arguments.
pub xor-lt : (k a b : ℕ) → a < 2 ^ k → b < 2 ^ k → bit_xor a b < 2 ^ k
xor-lt k a b h g =
    rw (← mod-eq_of_lt h, ← mod-eq_of_lt g, ← xor-mod k a b)
      (mod-lt (bit_xor a b) (one-le-pow k 2 (omega arith)))
