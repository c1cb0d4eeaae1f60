-- ===== src/Contract/BigEndian.antt =====
-- The big-endian form of a number as the contract ABI defines it, and the word of a stored integer.
use native.Mathlib.Nat.{pow-suc}
use iotex_arduino.Base.{ℕ, zero, suc, ◌+◌, ◌-◌, ◌/◌, ◌%◌, ◌^◌, ◌≤◌, ◌<◌, ◌≡◌, refl, ap, ◌∙◌}
use iotex_arduino.Base.{arith, List, [], ◌∷◌, ◌++◌, some, append_assoc, append-nil}
use iotex_arduino.Base.{length, length-append, get_or, replicate}
use iotex_arduino.Encoder.Digits.{horner, horner-append}
use iotex_arduino.Abi.{stored}
use iotex_arduino.Contract.Words.{swapped, generate_bytes_for_uint}

-- `n` digits to the base 256, the most significant first.
abbrev pub big_endian : ℕ → ℕ → List ℕ
big_endian zero v = []
big_endian (suc n) v = big_endian n (v / 256) ++ (v % 256 ∷ [])

pub length-big_endian : (n v : ℕ) → length (big_endian n v) ≡ n
length-big_endian zero v = refl
length-big_endian (suc n) v =
    omega
      (arith, length-append (big_endian n (v / 256)) (v % 256 ∷ []), length-big_endian n (v / 256))

pub horner-big_endian : (n v : ℕ) → v < 256 ^ n → horner 256 0 (big_endian n v) ≡ v
horner-big_endian zero v h = omega arith
horner-big_endian (suc n) v h = omega (
  arith,
  horner-append 256 0 (big_endian n (v / 256)) (v % 256 ∷ []),
  horner-big_endian n (v / 256) (omega (arith, pow-suc 256 n)),
)

swapped-first : (x : ℕ) (p : List ℕ) (n : ℕ) → swapped (x ∷ p) (suc n) ≡ swapped p n ++ (x ∷ [])
unfolding swapped
swapped-first x p zero = refl
swapped-first x p (suc n) = ap (◌∷◌ (get_or p n 0)) (swapped-first x p n)

swapped-stored_step :
    (n v : ℕ)
    → swapped (stored (suc n) v) (suc n) ≡ swapped (stored n (v / 256)) n ++ (v % 256 ∷ [])
unfolding stored
swapped-stored_step n v = swapped-first (v % 256) (stored n (v / 256)) n

pub swapped-stored : (n v : ℕ) → swapped (stored n v) n ≡ big_endian n v
swapped-stored zero v = unfold swapped in refl
swapped-stored (suc n) v =
    swapped-stored_step n v ∙ ap (λ t. t ++ (v % 256 ∷ [])) (swapped-stored n (v / 256))

zero_behind : (k : ℕ) → replicate {A = ℕ} k 0 ++ (0 ∷ []) ≡ replicate (suc k) 0
zero_behind zero = refl
zero_behind (suc k) = ap (◌∷◌ 0) (zero_behind k)

big_endian-zero : (k : ℕ) → big_endian k 0 ≡ replicate k 0
big_endian-zero zero = refl
big_endian-zero (suc k) = ap (λ t. t ++ (0 ∷ [])) (big_endian-zero k) ∙ zero_behind k

-- A number that fits `n` digits has zeroes in front.
pub big_endian-front :
    (m k n v : ℕ) → m ≡ k + n → v < 256 ^ n → big_endian m v ≡ replicate k 0 ++ big_endian n v
big_endian-front m k zero v e h =
    cc (append-nil (replicate {A = ℕ} k 0), big_endian-zero k, number_zero, same)
  where
    number_zero : v ≡ 0
    number_zero = omega arith

    same : m ≡ k
    same = omega arith
big_endian-front zero k (suc n) v e h = absurd (omega arith)
big_endian-front (suc m) k (suc n) v e h =
    ap (λ t. t ++ (v % 256 ∷ []))
      (big_endian-front m k n (v / 256) (omega arith) (omega (arith, pow-suc 256 n)))
    ∙ append_assoc (replicate k 0) (big_endian n (v / 256)) (v % 256 ∷ [])

-- The word of an integer that is stored in `n` bytes.
pub uint_word :
    (n v : ℕ)
    → n ≤ 32
    → v < 256 ^ n
    → generate_bytes_for_uint (stored n v) n ≡ some (big_endian 32 v)
unfolding generate_bytes_for_uint
uint_word n v h fits =
    ground (arith, swapped-stored n v, big_endian-front 32 (32 - n) n v (omega arith) fits)
