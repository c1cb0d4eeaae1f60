-- ===== src/Encoder.antt =====
-- The bech32 part of src/encoder/encoder.cpp: bytes to groups of five bits, and the address text.
pub mod Digits
pub mod Regroup
pub mod Groups
pub mod Address
pub mod Protobuf
mod Runs
use iotex_arduino.Base.{ℕ, zero, suc, ◌+◌, ◌-◌, ◌*◌, ◌/◌, ◌%◌, ◌^◌, List, [], ◌∷◌, ◌++◌, map}
use iotex_arduino.Base.{◌>>=◌, Option, codes, length, get_or, set, ltb, ◌==◌, if◌then◌else◌}
use iotex_arduino.Bits.{bit_and, bit_or}
use iotex_arduino.Bech32.{bech32, encode}
use iotex_arduino.Signer.{str2hex}

-- `(currentByte & (1 << b)) != 0` as a number.
abbrev pub bit_value : ℕ → ℕ → ℕ
bit_value x b = if bit_and x (2 ^ b) == 0 then 0 else 1

-- The inner loop over b = 7, …, 0.
abbrev pub byte_bits : ℕ → List ℕ
byte_bits x = map (bit_value x) (7 ∷ 6 ∷ 5 ∷ 4 ∷ 3 ∷ 2 ∷ 1 ∷ 0 ∷ [])

unfoldable pub bits_as_bytes : List ℕ → List ℕ
bits_as_bytes [] = []
bits_as_bytes (x ∷ xs) = byte_bits x ++ bits_as_bytes xs

-- `for b = n-1, …, 0: acc |= bits[index++] << b`, on a `uint8_t`.
unfoldable pub fill_group : ℕ → List ℕ → ℕ → ℕ → ℕ
fill_group zero bits index acc = acc
fill_group (suc b) bits index acc =
    fill_group b bits (index + 1) (bit_or acc (get_or bits index 0 * 2 ^ b % 2 ^ 8))

-- The loop over the whole groups, with `n` of them left.
unfoldable pub fill_groups : ℕ → List ℕ → ℕ → List ℕ
fill_groups zero bits index = []
fill_groups (suc n) bits index = fill_group 5 bits index 0 ∷ fill_groups n bits (index + 5)

-- The loop over the bits that are left: each is written into `bitsAsBytes[outSize - 1]`.
unfoldable pub fill_last : ℕ → ℕ → List ℕ → ℕ → List ℕ
fill_last zero slot bits index = bits
fill_last (suc b) slot bits index =
    if ltb index (length bits)
    then fill_last b slot
        (set bits slot (bit_or (get_or bits slot 0) (get_or bits index 0 * 2 ^ b % 2 ^ 8)))
        (index + 1)
    else fill_last b slot bits index

-- `out` and the local buffer `bitsAsBytes` at the end of the function.
pub record Conversion : Type 0 where
  pub out : List ℕ
  pub bits : List ℕ

unfoldable pub bech32_convert_bytes_to5_bit : List ℕ → Conversion
bech32_convert_bytes_to5_bit data_in =
    let bits = bits_as_bytes data_in in
    let out_size = length bits / 5 in
    let groups = fill_groups out_size bits 0 in
    if length bits % 5 == 0
    then record { out = groups; bits = bits }
    else record { out = groups ++ (0 ∷ []); bits = fill_last 5 (out_size - 1) bits (out_size * 5) }

unfoldable pub bech32_encode : List ℕ → Option (List ℕ)
bech32_encode data_in = encode bech32 (codes "io") (bech32_convert_bytes_to5_bit data_in).out

-- bech32_encodeHexString, with what its array `bytes` held. The result of str2hex is dropped.
unfoldable pub bech32_encode_hex_string : List ℕ → List ℕ → Option (List ℕ)
bech32_encode_hex_string hex memory = do r ← str2hex hex memory (length hex / 2); bech32_encode r.1
