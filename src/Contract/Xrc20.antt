-- ===== src/Contract/Xrc20.antt =====
-- The call data of src/contract/xrc20Contract.cpp, and the word of each argument in it. A result is
-- the whole buffer `data`; a `none` stands for a part of it that is not written.
use iotex_arduino.Base.{ℕ, ◌^◌, ◌<◌, ◌≡◌, arith, List, [], ◌∷◌, ◌++◌}
use iotex_arduino.Base.{Option, some, length, replicate}
use iotex_arduino.Abi.{stored}
use iotex_arduino.Contract.Words.{generate_bytes_for_uint, generate_bytes_for_address}
use iotex_arduino.Base.{◌>>=◌}
use iotex_arduino.Contract.BytesLaws.{address_lem}
use iotex_arduino.Contract.BigEndian.{big_endian, uint_word}

abbrev pub total_supply_selector : List ℕ
total_supply_selector = 0x18 ∷ 0x16 ∷ 0x0d ∷ 0xdd ∷ []

abbrev pub balance_of_selector : List ℕ
balance_of_selector = 0x70 ∷ 0xa0 ∷ 0x82 ∷ 0x31 ∷ []

abbrev pub transfer_selector : List ℕ
transfer_selector = 0xa9 ∷ 0x05 ∷ 0x9c ∷ 0xbb ∷ []

unfoldable pub generate_call_data_for_total_supply : List ℕ
generate_call_data_for_total_supply = total_supply_selector

unfoldable pub generate_call_data_for_balance_of : List ℕ → Option (List ℕ)
generate_call_data_for_balance_of owner = do
  word ← generate_bytes_for_address owner
  some (balance_of_selector ++ word)

unfoldable pub generate_call_data_for_transfer : List ℕ → ℕ → Option (List ℕ)
generate_call_data_for_transfer to value = do
  to_word ← generate_bytes_for_address to
  value_word ← generate_bytes_for_uint (stored 8 value) 8
  some (transfer_selector ++ (to_word ++ value_word))

-- The call data of balanceOf for an address of 20 bytes is the selector, twelve zeroes and the
-- address.
pub balance_of_lem :
    (owner : List ℕ)
    → length owner ≡ 20
    → generate_call_data_for_balance_of owner
      ≡ some (balance_of_selector ++ (replicate 12 0 ++ owner))
unfolding generate_call_data_for_balance_of
balance_of_lem owner h = rw (address_lem owner h)

-- The call data of transfer for an address of 20 bytes and a value below 2 ^ 64 is the selector,
-- twelve zeroes and the address, and the value as a big-endian number of 32 bytes.
pub transfer_lem :
    (to : List ℕ) (value : ℕ)
    → length to ≡ 20
    → value < 2 ^ 64
    → generate_call_data_for_transfer to value
      ≡ some (transfer_selector ++ ((replicate 12 0 ++ to) ++ big_endian 32 value))
unfolding generate_call_data_for_transfer
transfer_lem to value h fits = rw (address_lem to h) (rw (uint_word 8 value (omega arith) fits))
