-- ===== src/Account/Addresses.antt =====
-- The two addresses of an account are texts for the same 20 bytes.
use iotex_arduino.Base.{c_string, ℕ, zero, suc, ◌+◌, ◌-◌, ◌/◌, ◌%◌, ◌<◌, ◌≡◌, refl, ap, ◌∙◌, arith}
use iotex_arduino.Base.{All, IsByte, List, [], ◌∷◌, ◌++◌, some, length, drop, take}
use iotex_arduino.Base.{length-drop, length-append, replicate, codes, holds_below}
use iotex_arduino.Base.{holds_below→test, not, ◌==◌, true, false}
use iotex_arduino.ResultCode.{success, error_bad_parameter}
use iotex_arduino.Bech32.{decode, bech32}
use iotex_arduino.Encoder.Digits.{horner}
use iotex_arduino.Encoder.Address.{decode-bech32_encode}
use iotex_arduino.Signer.{Crypto, get_hash, get_public_key, hex_digit, hex2str, str2hex}
use iotex_arduino.Signer.{skip_prefix}
use iotex_arduino.Signer.Hex.{hex_text, length-hex_text, hex2str_lem}
use iotex_arduino.Contract.WordLaws.{take-all}
use iotex_arduino.Account.{Account, copy_c_string, last_20, generate_iotex_address}
use iotex_arduino.Account.{generate_eth_address, generate_addresses_from_private_key}
use iotex_arduino.Account.{get_iotex_address, get_ethereum_address, get_ethereum_address_bytes}

-- What the documentation of keccak256 promises: 32 bytes.
pub record IsHash (crypto : Crypto) : Type 0 where
  pub length-keccak_256 : (xs : List ℕ) → length (crypto.keccak_256 xs) ≡ 32
  pub keccak_256-IsByte : (xs : List ℕ) → All IsByte (crypto.keccak_256 xs)

drop-All : (n : ℕ) (xs : List ℕ) → All IsByte xs → All IsByte (drop n xs)
drop-All zero xs h = h
drop-All (suc n) [] h = h
drop-All (suc n) (x ∷ xs) (h, hs) = drop-All n xs hs

digits_not_zero : holds_below (λ n. not (hex_digit n == 0)) 16 ≡ true
unfolding holds_below
digits_not_zero = refl

hex_digit_not_zero : (n : ℕ) → n < 16 → (hex_digit n == 0) ≡ false
hex_digit_not_zero n h =
    ground (arith, holds_below→test (λ m. not (hex_digit m == 0)) 16 n digits_not_zero h)

c_string-step :
    (c : ℕ) (buffer s : List ℕ)
    → (c == 0) ≡ false
    → c_string buffer ≡ some s
    → c_string (c ∷ buffer) ≡ some (c ∷ s)
unfolding c_string
c_string-step c buffer s n h = ground (arith, n, h)

pub c_string-hex_text :
    (bytes rest : List ℕ)
    → All IsByte bytes
    → c_string (hex_text bytes ++ (0 ∷ rest)) ≡ some (hex_text bytes)
c_string-hex_text [] rest h = unfold c_string in refl
c_string-hex_text (b ∷ bytes) rest (h, hs) =
    c_string-step _ _ _ (hex_digit_not_zero (b / 16) (omega arith)) (
      c_string-step _ _ _ (hex_digit_not_zero (b % 16) (omega arith))
        (c_string-hex_text bytes rest hs))

-- The 20 bytes that both addresses of the account are for.
abbrev pub address_bytes : Crypto → List ℕ → List ℕ
address_bytes crypto key = last_20 (crypto.keccak_256 (drop 1 (crypto.public_key65 key)))

module _ (crypto : Crypto) (hash : IsHash crypto) where
  pub length-address_bytes : (key : List ℕ) → length (address_bytes crypto key) ≡ 20
  length-address_bytes key =
      length-drop 12 (crypto.keccak_256 (drop 1 (crypto.public_key65 key)))
      ∙ ap (λ n. n - 12) (hash.length-keccak_256 (drop 1 (crypto.public_key65 key)))

  pub address_bytes-IsByte : (key : List ℕ) → All IsByte (address_bytes crypto key)
  address_bytes-IsByte key =
      drop-All 12 (crypto.keccak_256 (drop 1 (crypto.public_key65 key)))
        (hash.keccak_256-IsByte (drop 1 (crypto.public_key65 key)))

  hex_written :
      (key : List ℕ)
      → hex2str (address_bytes crypto key) (replicate 41 0) 41
        ≡ some (success, hex_text (address_bytes crypto key) ++ (0 ∷ []))
  hex_written key = ground (
    arith,
    length-address_bytes key,
    hex2str_lem (address_bytes crypto key) (replicate 40 0) (0 ∷ []) 41
        (omega (arith, length-address_bytes key)),
  )

  generate_eth_address_lem :
      (key : List ℕ)
      → generate_eth_address crypto (crypto.public_key65 key)
        ≡ some (codes "0x" ++ hex_text (address_bytes crypto key))
  unfolding generate_eth_address get_hash
  generate_eth_address_lem key =
      rw (hex_written key)
        (rw (c_string-hex_text (address_bytes crypto key) [] (address_bytes-IsByte key)) refl)

  generate_account :
      (key iotex_addr eth_addr : List ℕ)
      → generate_iotex_address crypto (crypto.public_key65 key) ≡ some iotex_addr
      → generate_eth_address crypto (crypto.public_key65 key) ≡ some eth_addr
      → generate_addresses_from_private_key crypto key
        ≡ some (record {
          iotex_addr = iotex_addr;
          eth_addr = eth_addr;
          public_key = crypto.public_key65 key;
          private_key = key;
        })
  unfolding generate_addresses_from_private_key get_public_key
  generate_account key iotex_addr eth_addr i e = rw i (rw e refl)

copy_c_string_lem :
    (text : List ℕ) (size : ℕ)
    → length text + 1 ≡ size
    → copy_c_string text size ≡ some (text ++ (0 ∷ []))
unfolding copy_c_string
copy_c_string_lem text size e =
    ground (arith, whole, ap (λ n. take n (text ++ (0 ∷ []))) whole ∙ take-all (text ++ (0 ∷ [])))
  where
    whole : size ≡ length (text ++ (0 ∷ []))
    whole = omega (arith, length-append text (0 ∷ []))

-- For a hash of 32 bytes, each private key gives an account. Its Ethereum address is `0x` and the
-- digits of the last 20 bytes of the hash of its public key, its IoTeX address has 41 characters
-- from which Decode reads the prefix `io` and groups for the number of the same bytes, and the
-- getters copy both with their terminators.
pub account_addresses_lem :
    (crypto : Crypto) (key : List ℕ)
    → IsHash crypto
    → (account : Account) × (groups : List ℕ) × (generate_addresses_from_private_key crypto key
        ≡ some account)
      × (account.eth_addr ≡ codes "0x" ++ hex_text (address_bytes crypto key))
      × (length account.iotex_addr ≡ 41)
      × (decode account.iotex_addr
          ≡ some (record { encoding = bech32; hrp = codes "io"; values = groups }))
      × (horner 32 0 groups ≡ horner 256 0 (address_bytes crypto key))
      × (get_iotex_address account ≡ some (account.iotex_addr ++ (0 ∷ [])))
      × (get_ethereum_address account ≡ some (account.eth_addr ++ (0 ∷ [])))
unfolding generate_iotex_address get_hash get_iotex_address get_ethereum_address
account_addresses_lem crypto key hash =
    let bytes = address_bytes crypto key in
    let size = length-address_bytes crypto hash key in
    let iotex = decode-bech32_encode bytes (address_bytes-IsByte crypto hash key) size in
    let eth_addr = codes "0x" ++ hex_text bytes in
    (
      record {
        iotex_addr = iotex.0;
        eth_addr = eth_addr;
        public_key = crypto.public_key65 key;
        private_key = key;
      },
      iotex.1,
      generate_account crypto hash key (iotex.0) eth_addr (iotex.2)
          (generate_eth_address_lem crypto hash key),
      refl,
      iotex.3,
      iotex.4,
      iotex.5,
      copy_c_string_lem (iotex.0) 42 (omega (arith, iotex.3)),
      copy_c_string_lem eth_addr 43 (omega (arith, length-hex_text bytes, size)),
    )

str2hex_refused :
    (bytes buffer : List ℕ) (size : ℕ)
    → size < length bytes
    → str2hex (codes "0x" ++ hex_text bytes) buffer size ≡ some (error_bad_parameter, buffer)
unfolding str2hex skip_prefix
str2hex_refused bytes buffer size h = ground (arith, length-hex_text bytes)

-- On an Ethereum address of 20 bytes and a pointer of fewer bytes than that,
-- getEthereumAddressBytes leaves the buffer as it was.
pub get_ethereum_address_bytes_lem :
    (pointer_size : ℕ) (account : Account) (bytes buffer : List ℕ)
    → account.eth_addr ≡ codes "0x" ++ hex_text bytes
    → length bytes ≡ 20
    → pointer_size < 20
    → get_ethereum_address_bytes pointer_size account buffer ≡ some buffer
unfolding get_ethereum_address_bytes
get_ethereum_address_bytes_lem pointer_size account bytes buffer e l small =
    rw e (rw (str2hex_refused bytes buffer pointer_size (omega arith)) refl)
