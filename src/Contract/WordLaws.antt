-- ===== src/Contract/WordLaws.antt =====
-- The word encoders as arithmetic on the numbers that the bytes stand for.
use native.Mathlib.Nat.{pow-suc}
use iotex_arduino.Base.{ℕ, zero, suc, ◌+◌, ◌-◌, ◌*◌, ◌/◌, ◌^◌, ◌≤◌, ◌<◌, ◌≡◌, refl, ap, ◌∙◌}
use iotex_arduino.Base.{arith, List, [], ◌∷◌, ◌++◌, ◌⊎◌, inl, inr, some, All, IsByte}
use iotex_arduino.Base.{length, length-append, length-replicate, take, get_or, replicate, ltb, leb}
use iotex_arduino.Base.{if◌then◌else◌, Bool, true, false}
use iotex_arduino.Encoder.Digits.{horner, horner-append}
use iotex_arduino.Abi.{stored}
use iotex_arduino.Contract.Words.{swapped, generate_bytes_for_uint, is_negative}
use iotex_arduino.Contract.Words.{generate_bytes_for_int}

-- The number in memory, lowest byte first.
abbrev pub little_endian : List ℕ → ℕ
little_endian [] = 0
little_endian (b ∷ bs) = b + 256 * little_endian bs

take_top :
    (n : ℕ) (p : List ℕ)
    → n < length p
    → little_endian (take (suc n) p) ≡ little_endian (take n p) + get_or p n 0 * 256 ^ n
take_top n [] h = absurd (omega arith)
take_top zero (x ∷ p) h = omega arith
take_top (suc n) (x ∷ p) h =
    omega (arith, take_top n p (omega arith), ap (λ t. get_or p n 0 * t) (pow-suc 256 n))

swapped-horner :
    (acc n : ℕ) (p : List ℕ)
    → n ≤ length p
    → horner 256 acc (swapped p n) ≡ acc * 256 ^ n + little_endian (take n p)
unfolding swapped
swapped-horner acc zero p h = omega arith
swapped-horner acc (suc n) p h = omega (
  arith,
  swapped-horner (acc * 256 + get_or p n 0) n p (omega arith),
  take_top n p h,
  ap (λ t. acc * t) (pow-suc 256 n),
)

length-swapped : (p : List ℕ) (n : ℕ) → length (swapped p n) ≡ n
unfolding swapped
length-swapped p zero = refl
length-swapped p (suc n) = ap suc (length-swapped p n)

zeros-horner : (k : ℕ) (ys : List ℕ) → horner 256 0 (replicate k 0 ++ ys) ≡ horner 256 0 ys
zeros-horner zero ys = refl
zeros-horner (suc k) ys = zeros-horner k ys

ones-horner : (k acc : ℕ) → horner 256 acc (replicate k 255) + 1 ≡ (acc + 1) * 256 ^ k
ones-horner zero acc = omega arith
ones-horner (suc k) acc =
    omega (arith, ones-horner k (acc * 256 + 255), ap (λ t. acc * t) (pow-suc 256 k), pow-suc 256 k)

pub little_endian-stored : (n v : ℕ) → v < 256 ^ n → little_endian (stored n v) ≡ v
unfolding stored
little_endian-stored zero v h = omega arith
little_endian-stored (suc n) v h =
    omega (arith, little_endian-stored n (v / 256) (omega (arith, pow-suc 256 n)))

pub length-stored : (n v : ℕ) → length (stored n v) ≡ n
unfolding stored
length-stored zero v = refl
length-stored (suc n) v = ap suc (length-stored n (v / 256))

pub take-all : (p : List ℕ) → take (length p) p ≡ p
take-all [] = refl
take-all (x ∷ p) = ap (◌∷◌ x) (take-all p)

-- generateBytesForUint on at most 32 bytes gives one word of 32 bytes: the big-endian form of the
-- number that the bytes store in little-endian order.
pub uint-horner :
    (p : List ℕ) (size : ℕ)
    → size ≤ 32
    → size ≤ length p
    → (word : List ℕ) × (generate_bytes_for_uint p size ≡ some word)
      × (length word ≡ 32)
      × (horner 256 0 word ≡ little_endian (take size p))
unfolding generate_bytes_for_uint
uint-horner p size h l = (
  replicate (32 - size) 0 ++ swapped p size,
  ground arith,
  omega (
    arith,
    length-append (replicate (32 - size) 0) (swapped p size),
    length-replicate {A = ℕ} (32 - size) 0,
    length-swapped p size,
  ),
  zeros-horner (32 - size) (swapped p size) ∙ swapped-horner 0 size p l ∙ omega arith,
)

-- The sizes of the signed integer types.
abbrev pub IsIntSize : ℕ → Type 0
IsIntSize size = (size ≡ 1) ⊎ ((size ≡ 2) ⊎ ((size ≡ 4) ⊎ (size ≡ 8)))

abbrev pub sign_extended : ℕ → ℕ → ℕ
sign_extended size v = if ltb (v * 2) (256 ^ size) then v else 2 ^ 256 - 256 ^ size + v

-- The bit that is read through the cast pointer is the sign bit of the stored number.
is_negative_lem :
    (p : List ℕ) (size : ℕ)
    → length p ≡ 8
    → All IsByte p
    → IsIntSize size
    → is_negative p size ≡ leb (256 ^ size) (little_endian (take size p) * 2)
unfolding is_negative
is_negative_lem (a ∷ b ∷ c ∷ d ∷ e ∷ f ∷ g ∷ h ∷ []) size l
      (ha, (hb, (hc, (hd, (he, (hf, (hg, (hh, _)))))))) s =
    elim s [
      | inl q ↦ rw q (ground arith)
      | inr (inl q) ↦ rw q (ground arith)
      | inr (inr (inl q)) ↦ rw q (ground arith)
      | inr (inr (inr q)) ↦ rw q (ground arith)
    ]
is_negative_lem _ size l h s = absurd (omega arith)

padded-horner :
    (negative : Bool) (size : ℕ) (p : List ℕ)
    → size ≤ length p
    → horner 256 0 (replicate (32 - size) (if negative then 0xff else 0) ++ swapped p size)
        + (if negative then 256 ^ size else 0)
      ≡ (if negative then 256 ^ (32 - size) * 256 ^ size else 0) + little_endian (take size p)
padded-horner true size p h = omega (
  arith,
  horner-append 256 0 (replicate (32 - size) 255) (swapped p size),
  swapped-horner (horner 256 0 (replicate (32 - size) 255)) size p h,
  ap (λ t. t * 256 ^ size) (ones-horner (32 - size) 0),
)
padded-horner false size p h =
    omega (arith, zeros-horner (32 - size) (swapped p size), swapped-horner 0 size p h)

whole_word : (size : ℕ) → IsIntSize size → 256 ^ (32 - size) * 256 ^ size ≡ 2 ^ 256
whole_word size s = elim s [
  | inl q ↦ rw q
  | inr (inl q) ↦ rw q
  | inr (inr (inl q)) ↦ rw q
  | inr (inr (inr q)) ↦ rw q
]

pow-size-le : (size : ℕ) → IsIntSize size → 256 ^ size ≤ 2 ^ 256
pow-size-le size s = elim s [
  | inl q ↦ rw q (omega arith)
  | inr (inl q) ↦ rw q (omega arith)
  | inr (inr (inl q)) ↦ rw q (omega arith)
  | inr (inr (inr q)) ↦ rw q (omega arith)
]

padded-sign_extended :
    (p : List ℕ) (size : ℕ)
    → length p ≡ 8
    → All IsByte p
    → IsIntSize size
    → horner 256 0
        (replicate (32 - size) (if is_negative p size then 0xff else 0) ++ swapped p size)
      ≡ sign_extended size (little_endian (take size p))
padded-sign_extended p size l b s = ground (
  arith,
  is_negative_lem p size l b s,
  padded-horner (is_negative p size) size p (omega arith),
  whole_word size s,
  pow-size-le size s,
)

-- generateBytesForInt on the eight bytes of the union and a size of 1, 2, 4 or 8 gives one word of
-- 32 bytes: the stored number, sign-extended to 256 bits.
pub int-horner :
    (p : List ℕ) (size : ℕ)
    → length p ≡ 8
    → All IsByte p
    → IsIntSize size
    → (word : List ℕ) × (generate_bytes_for_int p size ≡ some word)
      × (length word ≡ 32)
      × (horner 256 0 word ≡ sign_extended size (little_endian (take size p)))
unfolding generate_bytes_for_int
int-horner p size l b s =
    let pad : ℕ = if is_negative p size then 0xff else 0 in
    (
      replicate (32 - size) pad ++ swapped p size,
      ground arith,
      omega (
        arith,
        length-append (replicate (32 - size) pad) (swapped p size),
        length-replicate (32 - size) pad,
        length-swapped p size,
      ),
      padded-sign_extended p size l b s,
    )
