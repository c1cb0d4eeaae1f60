-- ===== src/Account/Actions.antt =====
-- The getters of the keys, and the signing and sending of actions of src/account/account.cpp and
-- account.h. A `none` stands for an access outside an array.
use iotex_arduino.Base.{ℕ, ◌+◌, ◌*◌, List, [], ◌∷◌, ◌++◌, Option, some, ◌>>=◌}
use iotex_arduino.ResultCode.{ResultCode, private_key_size, public_key_strlen}
use iotex_arduino.Json.{JsonLibrary, copy_string}
use iotex_arduino.Signer.{Crypto, get_hash, sign_hash, hex2str}
use iotex_arduino.Host.{Host}
use iotex_arduino.Rpc.{TransferCore, ExecutionCore}
use iotex_arduino.Encoder.Protobuf.{Nanopb, protobuf_encode_transfer, protobuf_encode_execution}
use iotex_arduino.Wallets.{send_token_transfer, send_execution}
use iotex_arduino.Account.{Account}

-- The buffer after the call.
unfoldable pub get_public_key_bytes : Account → List ℕ → Option (List ℕ)
get_public_key_bytes account buffer = copy_string buffer account.public_key

unfoldable pub get_public_key_string : Account → List ℕ → Option (List ℕ)
get_public_key_string account buffer = do
  r ← hex2str account.public_key buffer (public_key_strlen + 1)
  some r.1

unfoldable pub get_private_key : Account → List ℕ → Option (List ℕ)
get_private_key account buffer = copy_string buffer account.private_key

unfoldable pub get_private_key_string : Account → List ℕ → Option (List ℕ)
get_private_key_string account buffer = do
  r ← hex2str account.private_key buffer (private_key_size * 2 + 1)
  some r.1

-- `strcpy`, on what the array holds.
unfoldable pub strcpy : List ℕ → List ℕ → Option (List ℕ)
strcpy array text = copy_string array (text ++ (0 ∷ []))

abbrev pub encoded_core_size : ℕ
encoded_core_size = 1024

module _ (crypto : Crypto) (nanopb : Nanopb) where
  -- The signature after the call. The result of signHash is dropped.
  unfoldable pub sign_token_transfer_action : Account → TransferCore → Option (List ℕ)
  sign_token_transfer_action account transfer = do
    encoded ← protobuf_encode_transfer nanopb transfer encoded_core_size
    some (sign_hash crypto (get_hash crypto encoded) account.private_key).1

  -- The signature and the hash after the call.
  unfoldable pub sign_execution_action : Account → ExecutionCore → Option (List ℕ × List ℕ)
  sign_execution_action account execution = do
    encoded ← protobuf_encode_execution nanopb execution encoded_core_size
    some (
      (sign_hash crypto (get_hash crypto encoded) account.private_key).1,
      get_hash crypto encoded,
    )

-- The core on the stack of sendTokenTransferAction; `stack` is what its arrays held.
unfoldable pub transfer_core : TransferCore → ℕ → ℕ → List ℕ → List ℕ → List ℕ → Option TransferCore
transfer_core stack nonce gas_limit gas_price amount recipient = do
  gas_price_array ← strcpy stack.gas_price gas_price
  amount_array ← strcpy stack.amount amount
  recipient_array ← strcpy stack.recipient recipient
  some (record {
    version = 1;
    nonce = nonce;
    gas_limit = gas_limit;
    gas_price = gas_price_array;
    chain_id = 0;
    amount = amount_array;
    recipient = recipient_array;
    payload = [];
  })

unfoldable pub execution_core :
    ExecutionCore → ℕ → ℕ → List ℕ → List ℕ → List ℕ → List ℕ → Option ExecutionCore
execution_core stack nonce gas_limit gas_price amount contract payload = do
  gas_price_array ← strcpy stack.gas_price gas_price
  amount_array ← strcpy stack.amount amount
  contract_array ← strcpy stack.contract contract
  some (record {
    version = 1;
    nonce = nonce;
    gas_limit = gas_limit;
    gas_price = gas_price_array;
    amount = amount_array;
    contract = contract_array;
    payload = payload;
  })

module _ (crypto : Crypto) (nanopb : Nanopb) (bintob64 : List ℕ → List ℕ) (library : JsonLibrary)
    (post : List ℕ → List ℕ → ResultCode × List ℕ) where
  -- The code and the hash after the call.
  unfoldable pub send_token_transfer_action :
      Account
      → Host
      → TransferCore
      → ℕ
      → ℕ
      → List ℕ
      → List ℕ
      → List ℕ
      → List ℕ
      → List ℕ
      → Option (ResultCode × List ℕ)
  send_token_transfer_action account host stack nonce gas_limit gas_price amount recipient memory
        hash =
      do
        core ← transfer_core stack nonce gas_limit gas_price amount recipient
        signature ← sign_token_transfer_action crypto nanopb account core
        send_token_transfer library post bintob64 host account.public_key signature core memory hash

  unfoldable pub send_execution_action :
      Account
      → Host
      → ExecutionCore
      → ℕ
      → ℕ
      → List ℕ
      → List ℕ
      → List ℕ
      → List ℕ
      → List ℕ
      → List ℕ
      → Option (ResultCode × List ℕ)
  send_execution_action account host stack nonce gas_limit gas_price amount contract payload memory
        hash =
      do
        core ← execution_core stack nonce gas_limit gas_price amount contract payload
        signed ← sign_execution_action crypto nanopb account core
        send_execution library post bintob64 host account.public_key signed.0 core memory hash
