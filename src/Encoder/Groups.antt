-- ===== src/Encoder/Groups.antt =====
-- bech32_convertBytesTo5Bit as arithmetic on the number that the bytes stand for.
use mathlib.Core.Path.{subst}
use native.Mathlib.Nat.{pow-suc, div-one, div-div-eq-div-mul}
use iotex_arduino.Base.{ℕ, zero, suc, ◌+◌, ◌*◌, ◌/◌, ◌%◌, ◌^◌, ◌<◌, ◌≡◌, sym, ap, ◌∙◌}
use iotex_arduino.Base.{arith, List, [], ◌∷◌, ◌++◌, All, IsByte, length}
use iotex_arduino.Base.{◌≢◌, append-nil, take, drop, take-append-drop, length-take}
use iotex_arduino.Base.{length-drop}
use iotex_arduino.Encoder.{bits_as_bytes, fill_groups, bech32_convert_bytes_to5_bit}
use iotex_arduino.Encoder.Digits.{horner, horner-append}
use iotex_arduino.Encoder.Regroup.{IsBit, bits-IsBit, length-bits, bits-horner, fill_groups-horner}
use iotex_arduino.Encoder.Regroup.{fill_groups-groups, length-fill_groups}

out_whole :
    (xs : List ℕ)
    → length xs % 5 ≡ 0
    → (bech32_convert_bytes_to5_bit xs).out
      ≡ fill_groups (length (bits_as_bytes xs) / 5) (bits_as_bytes xs ++ []) 0
unfolding bech32_convert_bytes_to5_bit
out_whole xs h = rw append-nil (ground (arith, length-bits xs))

-- Where the bits fill whole groups, the groups are below 32, their number is 8/5 of the bytes', and
-- they stand for the number that the bytes stand for.
pub convert-horner :
    (xs : List ℕ)
    → All IsByte xs
    → length xs % 5 ≡ 0
    → (horner 32 0 (bech32_convert_bytes_to5_bit xs).out ≡ horner 256 0 xs)
      × (length (bech32_convert_bytes_to5_bit xs).out * 5 ≡ length xs * 8)
      × All (λ g. g < 32) (bech32_convert_bytes_to5_bit xs).out
convert-horner xs h five =
    let bits = bits_as_bytes xs in
    let n = length bits / 5 in
    let whole : length bits ≡ 5 * n = omega (arith, length-bits xs) in
    (
      ap (horner 32 0) (out_whole xs five)
          ∙ fill_groups-horner [] n 0 [] bits (bits-IsBit xs) whole
          ∙ bits-horner 0 xs h,
      omega (
        arith,
        ap length (out_whole xs five),
        length-fill_groups n (bits ++ []) 0,
        length-bits xs,
      ),
      subst (All (λ g. g < 32)) (sym (out_whole xs five))
          (fill_groups-groups [] n [] bits (bits-IsBit xs) whole),
    )

-- Bits at the end are the low digits.
horner-top : (acc : ℕ) (ds : List ℕ) → All IsBit ds → horner 2 acc ds / 2 ^ length ds ≡ acc
horner-top acc [] h = div-one acc
horner-top acc (d ∷ ds) (h, hs) =
    ap (λ t. horner 2 (acc * 2 + d) ds / t) (pow-suc 2 (length ds))
    ∙ sym (div-div-eq-div-mul (horner 2 (acc * 2 + d) ds) (2 ^ length ds) 2)
    ∙ ap (λ t. t / 2) (horner-top (acc * 2 + d) ds hs)
    ∙ omega arith

All-take {ℓ κ} :
    {A : Type ℓ} (P : A → Type κ) (n : ℕ) (xs : List A)
    → All P xs
    → All P (take n xs) × All P (drop n xs)
All-take P zero xs h = (tt, h)
All-take P (suc n) [] h = (tt, tt)
All-take P (suc n) (x ∷ xs) (p, h) = let rest = All-take P n xs h in ((p, rest.0), rest.1)

out_padded :
    (xs : List ℕ)
    → length xs % 5 ≢ 0
    → (bech32_convert_bytes_to5_bit xs).out
      ≡ fill_groups (length (bits_as_bytes xs) / 5) (bits_as_bytes xs) 0 ++ (0 ∷ [])
unfolding bech32_convert_bytes_to5_bit
out_padded xs h = ground (arith, length-bits xs)

-- Where the bits do not fill whole groups, the remaining bits are lost: the last group is 0, and
-- the groups stand for 32 times the number without those bits.
pub convert-horner_padded :
    (xs : List ℕ)
    → All IsByte xs
    → length xs % 5 ≢ 0
    → horner 32 0 (bech32_convert_bytes_to5_bit xs).out
      ≡ horner 256 0 xs / 2 ^ (8 * length xs % 5) * 32
convert-horner_padded xs h ne =
    ap (horner 32 0) (out_padded xs ne)
    ∙ horner-append 32 0 (fill_groups n bits 0) (0 ∷ [])
    ∙ omega (arith, kept)
  where
    bits : List ℕ
    bits = bits_as_bytes xs

    n : ℕ
    n = length bits / 5

    body : List ℕ
    body = take (5 * n) bits

    rest : List ℕ
    rest = drop (5 * n) bits

    halves : All IsBit body × All IsBit rest
    halves = All-take IsBit (5 * n) bits (bits-IsBit xs)

    top : horner 2 0 bits / 2 ^ length rest ≡ horner 2 0 body
    top =
        ap (λ t. horner 2 0 t / 2 ^ length rest) (sym (take-append-drop (5 * n) bits))
        ∙ ap (λ t. t / 2 ^ length rest) (horner-append 2 0 body rest)
        ∙ horner-top (horner 2 0 body) rest halves.1

    length_rest : length rest ≡ 8 * length xs % 5
    length_rest = omega (arith, length-drop (5 * n) bits, length-bits xs)

    groups : horner 32 0 (fill_groups n bits 0) ≡ horner 2 0 body
    groups =
        ap (λ t. horner 32 0 (fill_groups n t 0)) (sym (take-append-drop (5 * n) bits))
        ∙ fill_groups-horner rest n 0 [] body halves.0 (omega (arith, length-take (5 * n) bits))

    kept : horner 32 0 (fill_groups n bits 0) ≡ horner 256 0 xs / 2 ^ (8 * length xs % 5)
    kept =
        groups
        ∙ sym top
        ∙ ap (λ t. horner 2 0 bits / 2 ^ t) length_rest
        ∙ ap (λ t. t / 2 ^ (8 * length xs % 5)) (bits-horner 0 xs h)
