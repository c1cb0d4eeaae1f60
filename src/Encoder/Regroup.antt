-- ===== src/Encoder/Regroup.antt =====
-- The groups of five bits stand for the same number as the bytes.
use iotex_arduino.Base.{ℕ, zero, suc, ◌+◌, ◌*◌, ◌≤◌, ◌<◌, ◌≡◌, refl, sym, ap, ◌∙◌}
use mathlib.Core.Path.{ap₂, subst}
use iotex_arduino.Base.{arith, List, [], ◌∷◌, ◌++◌, All, All-append, IsByte, length, length-append}
use iotex_arduino.Base.{get_or, holds_below, holds_below→test, ◌==◌, ==_iff}
use iotex_arduino.Base.{append_assoc, true}
use iotex_arduino.Bits.{bit_or, or_fields}
use iotex_arduino.Encoder.{bit_value, byte_bits, bits_as_bytes, fill_group, fill_groups}
use iotex_arduino.Encoder.Digits.{horner, horner-append}

byte_table : holds_below (λ x. horner 2 0 (byte_bits x) == x) 256 ≡ true
unfolding holds_below
byte_table = refl

byte_bits_value : (x : ℕ) → IsByte x → horner 2 0 (byte_bits x) ≡ x
byte_bits_value x h =
    (==_iff _ x).0 (holds_below→test (λ x. horner 2 0 (byte_bits x) == x) 256 x byte_table h)

byte_bits-horner : (acc x : ℕ) → IsByte x → horner 2 acc (byte_bits x) ≡ acc * 256 + x
byte_bits-horner acc x h = omega (arith, byte_bits_value x h)

abbrev pub IsBit : ℕ → Type 0
IsBit b = b ≤ 1

bit_value-IsBit : (x b : ℕ) → IsBit (bit_value x b)
bit_value-IsBit x b = ground arith

byte_bits-IsBit : (x : ℕ) → All IsBit (byte_bits x)
byte_bits-IsBit x = omega (arith, bit_value-IsBit)

pub bits-IsBit : (xs : List ℕ) → All IsBit (bits_as_bytes xs)
unfolding bits_as_bytes
bits-IsBit [] = tt
bits-IsBit (x ∷ xs) = All-append IsBit (byte_bits x) _ (byte_bits-IsBit x) (bits-IsBit xs)

pub length-bits : (xs : List ℕ) → length (bits_as_bytes xs) ≡ 8 * length xs
unfolding bits_as_bytes
length-bits [] = refl
length-bits (x ∷ xs) = omega (arith, length-append (byte_bits x) (bits_as_bytes xs), length-bits xs)

pub bits-horner :
    (acc : ℕ) (xs : List ℕ) → All IsByte xs → horner 2 acc (bits_as_bytes xs) ≡ horner 256 acc xs
unfolding bits_as_bytes
bits-horner acc [] h = refl
bits-horner acc (x ∷ xs) (h, hs) =
    horner-append 2 acc (byte_bits x) (bits_as_bytes xs)
    ∙ ap (λ t. horner 2 t (bits_as_bytes xs)) (byte_bits-horner acc x h)
    ∙ bits-horner (acc * 256 + x) xs hs

-- Five bits by `|=`, as a sum.
group_value :
    (a b c d e : ℕ)
    → IsBit a
    → IsBit b
    → IsBit c
    → IsBit d
    → IsBit e
    → bit_or (bit_or (bit_or (bit_or (bit_or 0 (a * 16)) (b * 8)) (c * 4)) (d * 2)) e
      ≡ a * 16 + b * 8 + c * 4 + d * 2 + e
group_value a b c d e ha hb hc hd he = ground (
  arith,
  or_fields 5 0 (a * 16),
  or_fields 4 a (b * 8),
  or_fields 3 (a * 2 + b) (c * 4),
  or_fields 2 ((a * 2 + b) * 2 + c) (d * 2),
  or_fields 1 (((a * 2 + b) * 2 + c) * 2 + d) e,
)

get_or-at :
    (pre post : List ℕ) (i k : ℕ) → i ≡ length pre + k → get_or (pre ++ post) i 0 ≡ get_or post k 0
get_or-at [] post i k e = ap (λ t. get_or post t 0) {y = k} (omega arith)
get_or-at (x ∷ pre) post zero k e = absurd (omega arith)
get_or-at (x ∷ pre) post (suc i) k e = get_or-at pre post i k (omega arith)

-- One group, read at an index.
fill_group-five :
    (pre post : List ℕ) (a b c d e : ℕ)
    → IsBit a
    → IsBit b
    → IsBit c
    → IsBit d
    → IsBit e
    → fill_group 5 (pre ++ (a ∷ b ∷ c ∷ d ∷ e ∷ post)) (length pre) 0
      ≡ a * 16 + b * 8 + c * 4 + d * 2 + e
unfolding fill_group
fill_group-five pre post a b c d e ha hb hc hd he =
    let tail = a ∷ b ∷ c ∷ d ∷ e ∷ post in
    let at = length pre in
    ground (
      arith,
      get_or-at pre tail at 0 (omega arith),
      get_or-at pre tail (at + 1) 1 refl,
      get_or-at pre tail (at + 1 + 1) 2 (omega arith),
      get_or-at pre tail (at + 1 + 1 + 1) 3 (omega arith),
      get_or-at pre tail (at + 1 + 1 + 1 + 1) 4 (omega arith),
      group_value a b c d e,
    )

fill_groups-behind :
    (n : ℕ) (pre five post : List ℕ)
    → length five ≡ 5
    → fill_groups n (pre ++ (five ++ post)) (length pre + 5)
      ≡ fill_groups n ((pre ++ five) ++ post) (length (pre ++ five))
fill_groups-behind n pre five post h = cc (append_assoc pre five post, length-append pre five, h)

-- `n` groups from the bits behind `pre`, which stand for the same number; `rest` is not read.
module _ (rest : List ℕ) where
  pub fill_groups-horner :
      (n acc : ℕ) (pre post : List ℕ)
      → All IsBit post
      → length post ≡ 5 * n
      → horner 32 acc (fill_groups n (pre ++ (post ++ rest)) (length pre)) ≡ horner 2 acc post
  unfolding fill_groups
  fill_groups-horner zero acc pre [] hb e = refl
  fill_groups-horner zero acc pre (x ∷ post) hb e = absurd (omega arith)
  fill_groups-horner (suc n) acc pre (a ∷ b ∷ c ∷ d ∷ e ∷ post) (ha, (hb, (hc, (hd, (he, hs))))) l =
      ap₂ (horner 32) whole (fill_groups-behind n pre five (post ++ rest) refl)
      ∙ fill_groups-horner n _ (pre ++ five) post hs (omega arith)
    where
      five : List ℕ
      five = a ∷ b ∷ c ∷ d ∷ e ∷ []

      whole :
          acc * 32 + fill_group 5 (pre ++ (a ∷ b ∷ c ∷ d ∷ e ∷ (post ++ rest))) (length pre) 0
          ≡ ((((acc * 2 + a) * 2 + b) * 2 + c) * 2 + d) * 2 + e
      whole = omega (arith, fill_group-five pre (post ++ rest) a b c d e ha hb hc hd he)
  fill_groups-horner (suc n) acc pre _ hb l = absurd (omega arith)

  pub fill_groups-groups :
      (n : ℕ) (pre post : List ℕ)
      → All IsBit post
      → length post ≡ 5 * n
      → All (λ g. g < 32) (fill_groups n (pre ++ (post ++ rest)) (length pre))
  unfolding fill_groups
  fill_groups-groups zero pre post hb e = tt
  fill_groups-groups (suc n) pre (a ∷ b ∷ c ∷ d ∷ e ∷ post) (ha, (hb, (hc, (hd, (he, hs))))) l = (
    omega (arith, fill_group-five pre (post ++ rest) a b c d e ha hb hc hd he),
    subst (All (λ g. g < 32)) (sym (fill_groups-behind n pre five (post ++ rest) refl))
        (fill_groups-groups n (pre ++ five) post hs (omega arith)),
  )
    where
      five : List ℕ
      five = a ∷ b ∷ c ∷ d ∷ e ∷ []
  fill_groups-groups (suc n) pre _ hb l = absurd (omega arith)

pub length-fill_groups : (n : ℕ) (bits : List ℕ) (index : ℕ) → length (fill_groups n bits index) ≡ n
unfolding fill_groups
length-fill_groups zero bits index = refl
length-fill_groups (suc n) bits index = ap suc (length-fill_groups n bits (index + 5))
