-- ===== src/Contract/BytesLaws.antt =====
-- The encoders of an address and of bytes: padding, length and reading back.
use iotex_arduino.Base.{
  ℕ, zero, suc, ◌+◌, ◌-◌, ◌*◌, ◌/◌, ◌%◌, ◌^◌, ◌≤◌, ◌<◌, ◌≡◌, refl, sym, ap, ◌∙◌,
}
use iotex_arduino.Base.{ltb, false, none, lt→ltb, arith, List, [], ◌∷◌, ◌++◌, some}
use iotex_arduino.Base.{length, length-append, length-replicate, take, drop, replicate}
use iotex_arduino.Base.{length-take}
use iotex_arduino.Encoder.Digits.{horner}
use iotex_arduino.Abi.{stored}
use iotex_arduino.Contract.Words.{swapped, generate_bytes_for_uint, endian_swap_loop, endian_swap}
use iotex_arduino.Contract.Words.{generate_bytes_for_address, generate_bytes_for_static_bytes}
use iotex_arduino.Contract.Words.{
  generate_bytes_for_bytes, groups_of_32, to_float, round_to, lost_digits,
}
use iotex_arduino.Contract.WordLaws.{uint-horner, little_endian, little_endian-stored}
use iotex_arduino.Contract.WordLaws.{length-stored, take-all}

-- An address is swapped twice, so its word is twelve zeroes and the twenty bytes as they are.
pub address_lem :
    (p : List ℕ) → length p ≡ 20 → generate_bytes_for_address p ≡ some (replicate 12 0 ++ p)
unfolding generate_bytes_for_address generate_bytes_for_uint endian_swap endian_swap_loop swapped
address_lem (a ∷ b ∷ c ∷ d ∷ e ∷ f ∷ g ∷ h ∷ i ∷ j ∷ k ∷ l ∷ m ∷ n ∷ o ∷ p ∷ q ∷ r ∷ s ∷ t ∷ [])
      len =
    refl
address_lem _ len = absurd (omega arith)

ltb-false : (a b : ℕ) → b ≤ a → ltb a b ≡ false
ltb-false a b h = ground arith

lost_digits_lem : (fuel n : ℕ) → n < 2 ^ 24 → lost_digits (suc fuel) n ≡ 0
unfolding lost_digits
lost_digits_lem fuel n h = rw (lt→ltb n (2 ^ 24) h) refl

lost_digit : (n : ℕ) → 2 ^ 24 ≤ n → n < 2 ^ 25 → lost_digits 64 n ≡ 1
unfolding lost_digits
lost_digit n low high =
    rw (ltb-false n (2 ^ 24) low) (ap suc (lost_digits_lem 62 (n / 2) (omega arith)))

rounded_down : (j : ℕ) → round_to 2 (2 ^ 24 + 32 * j + 1) ≡ 2 ^ 24 + 32 * j
unfolding round_to
rounded_down j = ground arith

round_to_lem : (n : ℕ) → round_to 1 n ≡ n
unfolding round_to
round_to_lem n = ground arith

-- A float holds every number below 2 ^ 24.
to_float_lem : (n : ℕ) → n < 2 ^ 24 → to_float n ≡ n
unfolding to_float
to_float_lem n h = ap (λ k. round_to (2 ^ k) n) (lost_digits_lem 63 n h) ∙ round_to_lem n

groups_of_32_lem : (n : ℕ) → n < 2 ^ 24 → groups_of_32 n ≡ (n + 31) / 32
unfolding groups_of_32
groups_of_32_lem n h = ap (λ m. (m + 31) / 32) (to_float_lem n h)

-- A size between 2 ^ 24 and 2 ^ 25 that is one more than a multiple of 32 is rounded down to it, and the
-- last byte is written behind the buffer.
static_bytes_overrun :
    (p : List ℕ) (j : ℕ)
    → j < 2 ^ 19
    → generate_bytes_for_static_bytes p (2 ^ 24 + 32 * j + 1) ≡ none
unfolding generate_bytes_for_static_bytes groups_of_32 to_float
static_bytes_overrun p j h =
    rw (lost_digit (2 ^ 24 + 32 * j + 1) (omega arith) (omega arith))
      (rw (rounded_down j) (ground arith))

-- generateBytesForStaticBytes gives the bytes, then as few zeroes as make a multiple of 32, for every
-- size below 2 ^ 24.
pub static_bytes_lem :
    (p : List ℕ) (size : ℕ)
    → size < 2 ^ 24
    → generate_bytes_for_static_bytes p size
      ≡ some (take size p ++ replicate ((32 - size % 32) % 32) 0)
unfolding generate_bytes_for_static_bytes
static_bytes_lem p size h = rw (groups_of_32_lem size h) (ground arith)

length-static_bytes :
    (p : List ℕ) (size : ℕ)
    → size ≤ length p
    → length (take size p ++ replicate ((32 - size % 32) % 32) 0) ≡ (size + 31) / 32 * 32
length-static_bytes p size h = omega (
  arith,
  length-append (take size p) (replicate ((32 - size % 32) % 32) 0),
  length-take size p,
  length-replicate {A = ℕ} ((32 - size % 32) % 32) 0,
)

pub take-append {ℓ} : {A : Type ℓ} (n : ℕ) (xs ys : List A) → length xs ≡ n → take n (xs ++ ys) ≡ xs
take-append zero [] ys e = refl
take-append zero (x ∷ xs) ys e = absurd (omega arith)
take-append (suc n) [] ys e = absurd (omega arith)
take-append (suc n) (x ∷ xs) ys e = ap (◌∷◌ x) (take-append n xs ys (omega arith))

pub drop-append {ℓ} : {A : Type ℓ} (n : ℕ) (xs ys : List A) → length xs ≡ n → drop n (xs ++ ys) ≡ ys
drop-append zero [] ys e = refl
drop-append zero (x ∷ xs) ys e = absurd (omega arith)
drop-append (suc n) [] ys e = absurd (omega arith)
drop-append (suc n) (x ∷ xs) ys e = drop-append n xs ys (omega arith)

-- For a size below 2 ^ 24, generateBytesForBytes gives whole words; the first is the length, and
-- behind it stand that many bytes of the value and then zeroes only.
pub bytes_lem :
    (p : List ℕ) (size : ℕ)
    → size ≤ length p
    → size < 2 ^ 24
    → (out : List ℕ) × (generate_bytes_for_bytes p size ≡ some out)
      × (length out ≡ 32 + (size + 31) / 32 * 32)
      × (horner 256 0 (take 32 out) ≡ size)
      × (take size (drop 32 out) ≡ take size p)
      × (drop size (drop 32 out) ≡ replicate ((32 - size % 32) % 32) 0)
unfolding generate_bytes_for_bytes
bytes_lem p size h small =
    let word = uint-horner (stored 8 size) 8 (omega arith) (omega (arith, length-stored 8 size)) in
    let zeroes : List ℕ = replicate ((32 - size % 32) % 32) 0 in
    let value : List ℕ = take size p ++ zeroes in
    let behind : drop 32 (word.0 ++ value) ≡ value = drop-append 32 word.0 value word.2 in
    let front : take 32 (word.0 ++ value) ≡ word.0 = take-append 32 word.0 value word.2 in
    let size_taken : length (take size p) ≡ size = omega (arith, length-take size p) in
    (
      word.0 ++ value,
      ground (arith, word.1, static_bytes_lem p size small),
      omega (arith, length-append word.0 value, word.2, length-static_bytes p size h),
      ap (horner 256 0) front
          ∙ word.3
          ∙ ap little_endian (
              ap (λ t. take t (stored 8 size)) (sym (length-stored 8 size))
              ∙ take-all (stored 8 size))
          ∙ little_endian-stored 8 size (omega arith),
      ap (take size) behind ∙ take-append size (take size p) zeroes size_taken,
      ap (drop size) behind ∙ drop-append size (take size p) zeroes size_taken,
    )
