-- ===== src/Encoder/Runs.antt =====
-- Concrete runs, and the theorems at concrete inputs.
use iotex_arduino.Base.{
  ℕ, ◌/◌, ◌^◌, ◌*◌, ◌≡◌, refl, List, [], ◌∷◌, some, codes, length, replicate, arith,
}
use iotex_arduino.Bech32.{decode, bech32}
use iotex_arduino.Encoder.{bits_as_bytes, fill_group, fill_groups, fill_last}
use iotex_arduino.Encoder.{bech32_convert_bytes_to5_bit, bech32_encode}
use iotex_arduino.Encoder.Digits.{horner}
use iotex_arduino.Encoder.Groups.{convert-horner_padded}
use iotex_arduino.Encoder.Address.{decode-bech32_encode}

abbrev address : List ℕ
address = 0xde ∷ 0xad ∷ replicate 18 7

abbrev five_bytes : List ℕ
five_bytes = 0xff ∷ 0 ∷ 1 ∷ 2 ∷ 0x80 ∷ []

convert_five : (bech32_convert_bytes_to5_bit five_bytes).out ≡ 31 ∷ 28 ∷ 0 ∷ 0 ∷ 2 ∷ 0 ∷ 20 ∷ 0 ∷ []
unfolding bech32_convert_bytes_to5_bit bits_as_bytes fill_groups fill_group
convert_five = refl

-- The three bits left of one byte are written into the local buffer.
convert_one :
    bech32_convert_bytes_to5_bit (0xff ∷ [])
    ≡ record { out = 31 ∷ 0 ∷ []; bits = 29 ∷ 1 ∷ 1 ∷ 1 ∷ 1 ∷ 1 ∷ 1 ∷ 1 ∷ [] }
unfolding bech32_convert_bytes_to5_bit bits_as_bytes fill_groups fill_group fill_last
convert_one = refl

convert-horner_padded_example :
    horner 32 0 (bech32_convert_bytes_to5_bit (0xff ∷ [])).out ≡ 255 / 2 ^ 3 * 32
convert-horner_padded_example = convert-horner_padded (0xff ∷ []) (omega arith) (omega arith)

decode-bech32_encode_example :
    (s : List ℕ) × (groups : List ℕ) × (bech32_encode address ≡ some s)
    × (length s ≡ 41)
    × (decode s ≡ some (record { encoding = bech32; hrp = codes "io"; values = groups }))
    × (horner 32 0 groups ≡ horner 256 0 address)
decode-bech32_encode_example = decode-bech32_encode address (omega arith) refl
