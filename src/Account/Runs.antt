-- ===== src/Account/Runs.antt =====
-- The theorems at concrete inputs.
use iotex_arduino.Base.{ℕ, ◌≡◌, refl, arith, List, [], ◌∷◌, ◌++◌, some, codes, length}
use iotex_arduino.Base.{replicate, take, length-take}
use iotex_arduino.Random.{ByteSource, os_random}
use iotex_arduino.Account.Construct.{account_of_key, account_new, IsByteSource}
use iotex_arduino.Account.Construct.{account_new-os_random}
use iotex_arduino.Bech32.{decode, bech32}
use iotex_arduino.Encoder.Digits.{horner}
use iotex_arduino.Signer.{Crypto}
use iotex_arduino.Signer.Hex.{hex_text}
use iotex_arduino.Account.{Account, generate_addresses_from_private_key, get_iotex_address}
use iotex_arduino.Account.{get_ethereum_address}
use iotex_arduino.Account.Addresses.{IsHash, account_addresses_lem}

-- A hash with one value, of 32 bytes.
abbrev constant : Crypto
constant = record {
  Context = List ℕ;
  init = [];
  update = λ c xs. c ++ xs;
  keccak_final = λ c. replicate 32 7;
  keccak_256 = λ xs. replicate 32 7;
  public_key65 = λ key. 4 ∷ (key ++ key);
  sign_digest = λ key digest. (0, key ++ digest);
}

constant-IsHash : IsHash constant
constant-IsHash = record { length-keccak_256 = λ xs. refl; keccak_256-IsByte = λ xs. omega arith }

abbrev a_key : List ℕ
a_key = replicate 32 1

account_addresses_lem_example :
    (account : Account) × (groups : List ℕ) × (generate_addresses_from_private_key constant a_key
      ≡ some account)
    × (account.eth_addr ≡ codes "0x" ++ hex_text (replicate 20 7))
    × (length account.iotex_addr ≡ 41)
    × (decode account.iotex_addr
        ≡ some (record { encoding = bech32; hrp = codes "io"; values = groups }))
    × (horner 32 0 groups ≡ horner 256 0 (replicate 20 7))
    × (get_iotex_address account ≡ some (account.iotex_addr ++ (0 ∷ [])))
    × (get_ethereum_address account ≡ some (account.eth_addr ++ (0 ∷ [])))
account_addresses_lem_example = account_addresses_lem constant a_key constant-IsHash

-- A device that gives four bytes.
abbrev short_read : ByteSource
short_read = record { Seed = ℕ; fill = λ seed size. (seed, take size (replicate 4 9)) }

short_read-IsByteSource : IsByteSource short_read
short_read-IsByteSource = record {
  length_lem = λ seed size. omega (arith, length-take size (replicate {A = ℕ} 4 9));
}

account_new-os_random_example :
    (account : Account) × (account_new constant (os_random short_read) 0 a_key ≡ some (0, account))
    × (account_of_key constant (replicate 4 9 ++ replicate 28 1) ≡ some account)
    × (account.private_key ≡ replicate 4 9 ++ replicate 28 1)
account_new-os_random_example =
    account_new-os_random constant short_read 0 a_key constant-IsHash short_read-IsByteSource refl
