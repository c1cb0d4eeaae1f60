-- ===== src/Account.antt =====
-- The keys and addresses of src/account/account.cpp. A `none` stands for an access outside a buffer.
pub mod Addresses
pub mod Actions
pub mod ActionLaws
pub mod ExecutionLaws
pub mod Construct
pub mod ContractCall
mod Runs
mod ActionRuns
use iotex_arduino.Base.{ℕ, ◌+◌, List, [], ◌∷◌, ◌++◌, Option, none, some, ◌>>=◌, drop, take, length}
use iotex_arduino.Base.{c_string, replicate, leb, ◌==◌, if◌then◌else◌, codes, true, false}
use iotex_arduino.ResultCode.{ResultCode, address_c_string_size, eth_address_c_string_size}
use iotex_arduino.ResultCode.{public_key_size, private_key_size}
use iotex_arduino.Encoder.{bech32_encode}
use iotex_arduino.Signer.{Crypto, get_hash, get_public_key, hex2str, str2hex, sign_message}

pub record Account : Type 0 where
  pub iotex_addr : List ℕ
  pub eth_addr : List ℕ
  pub public_key : List ℕ
  pub private_key : List ℕ

-- memcpy of `size` bytes from `text.c_str()`.
unfoldable pub copy_c_string : List ℕ → ℕ → Option (List ℕ)
copy_c_string text size =
    let memory = text ++ (0 ∷ []) in
    if leb size (length memory) then some (take size memory) else none

-- The last 20 bytes of a hash of 32.
abbrev pub last_20 : List ℕ → List ℕ
last_20 hash = drop 12 hash

module _ (crypto : Crypto) where
  unfoldable pub generate_iotex_address : List ℕ → Option (List ℕ)
  generate_iotex_address public_key = bech32_encode (last_20 (get_hash crypto (drop 1 public_key)))

  unfoldable pub generate_eth_address : List ℕ → Option (List ℕ)
  generate_eth_address public_key = do
    written ← hex2str (last_20 (get_hash crypto (drop 1 public_key))) (replicate 41 0) 41
    hash_last20 ← c_string (written.1)
    some (codes "0x" ++ hash_last20)

  unfoldable pub generate_addresses_from_private_key : List ℕ → Option Account
  generate_addresses_from_private_key key = do
    iotex_addr ← generate_iotex_address (get_public_key crypto key)
    eth_addr ← generate_eth_address (get_public_key crypto key)
    some (record {
      iotex_addr = iotex_addr;
      eth_addr = eth_addr;
      public_key = get_public_key crypto key;
      private_key = key;
    })

  unfoldable pub account_sign_message : Account → List ℕ → List ℕ
  account_sign_message account message = sign_message crypto message account.private_key

unfoldable pub get_iotex_address : Account → Option (List ℕ)
get_iotex_address account = copy_c_string account.iotex_addr address_c_string_size

unfoldable pub get_ethereum_address : Account → Option (List ℕ)
get_ethereum_address account = copy_c_string account.eth_addr eth_address_c_string_size

-- The buffer after the call. Its parameter is a pointer, whose size is what `sizeof` gives.
unfoldable pub get_ethereum_address_bytes : ℕ → Account → List ℕ → Option (List ℕ)
get_ethereum_address_bytes pointer_size account buffer = do
  r ← str2hex account.eth_addr buffer pointer_size
  some (r.1)
