-- ===== src/Rpc.antt =====
-- The requests of src/api/rpc.cpp and the structures of actions of src/protobuf/pb_api.h that they
-- print. A `none` stands for an access outside an array. `unsigned long` has 64 bits.
pub mod Json
pub mod Bounds
pub mod Execution
pub mod Runs
use iotex_arduino.Base.{
  print_int, ℕ, ◌+◌, ◌*◌, ◌-◌, ◌/◌, ◌^◌, List, [], ◌∷◌, ◌++◌, Bool, true, false, Option,
}
use iotex_arduino.Base.{
  none, some, ◌>>=◌, length, replicate, ltb, if◌then◌else◌, codes, decimal, c_string,
}
use iotex_arduino.ResultCode.{signature_size, public_key_size}
use iotex_arduino.Json.{copy_string}
use iotex_arduino.Signer.{str2hex}
use iotex_arduino.Host.{Host, host_to_string}

-- `amount`, `recipient` and `payload` are those of the Transfer in the structure, and so for an
-- Execution, whose `data` is `payload`.
pub record TransferCore : Type 0 where
  pub version : ℕ
  pub nonce : ℕ
  pub gas_limit : ℕ
  pub gas_price : List ℕ
  pub chain_id : ℕ
  pub amount : List ℕ
  pub recipient : List ℕ
  pub payload : List ℕ

pub record ExecutionCore : Type 0 where
  pub version : ℕ
  pub nonce : ℕ
  pub gas_limit : ℕ
  pub gas_price : List ℕ
  pub amount : List ℕ
  pub contract : List ℕ
  pub payload : List ℕ

pub record RpcCallData : Type 0 where
  pub url : List ℕ
  pub body : List ℕ

unfoldable pub get_account_call : Host → List ℕ → Option RpcCallData
get_account_call host address = do
  url ← host_to_string host
  some (record {
    url = url ++ codes "GetAccount";
    body = codes "{\"address\":\"" ++ (address ++ codes "\"}");
  })

unfoldable pub get_balance_call : Host → List ℕ → Option RpcCallData
get_balance_call host address = get_account_call host address

unfoldable pub get_action_by_hash_call : Host → List ℕ → Bool → Option RpcCallData
get_action_by_hash_call host hash check_pending = do
  url ← host_to_string host
  some (record {
    url = url ++ codes "GetActions";
    body =
        codes "{\"byHash\": {\"actionHash\": \""
        ++ (hash
            ++ (codes "\",\"checkPending\": "
                ++ ((if check_pending then codes "true" else codes "false") ++ codes "}}")));
  })

-- The `sprintf`s at the end of the text in an array of `size` characters. Each writes its terminator.
unfoldable pub print_all : ℕ → List (List ℕ) → List ℕ → Option (List ℕ)
print_all size [] body = some body
print_all size (text ∷ texts) body =
    let rest = print_all size texts (body ++ text) in
    if ltb (length body + length text) size then rest else none

abbrev pub transfer_body_size : ℕ
transfer_body_size = 1024

-- What is printed before the base64 texts, from the texts of the members.
abbrev pub transfer_texts :
    TransferCore → List ℕ → List ℕ → List ℕ → List ℕ → List ℕ → List (List ℕ)
transfer_texts transfer gas_price amount recipient public_key signature =
    codes "{\"action\": {\"core\": "
    ∷ codes "{\"version\": "
    ∷ print_int transfer.version
    ∷ codes ",\"nonce\": \""
    ∷ decimal transfer.nonce
    ∷ codes "\",\"gasLimit\": \""
    ∷ decimal transfer.gas_limit
    ∷ codes "\",\"gasPrice\": \""
    ∷ gas_price
    ∷ codes "\""
    ∷ codes ",\"chainID\": "
    ∷ print_int transfer.chain_id
    ∷ codes ",\"transfer\":"
    ∷ codes "{\"amount\": \""
    ∷ amount
    ∷ codes "\""
    ∷ codes ",\"recipient\": \""
    ∷ recipient
    ∷ codes "\",\"payload\": \""
    ∷ codes "\"}}"
    ∷ codes ",\"senderPubKey\": \""
    ∷ public_key
    ∷ codes "\""
    ∷ codes ",\"signature\": \""
    ∷ signature
    ∷ codes "\",\"encoding\": \"IOTEX_PROTOBUF\"}}"
    ∷ []

abbrev pub execution_texts :
    ExecutionCore → List ℕ → List ℕ → List ℕ → List ℕ → List ℕ → List ℕ → List (List ℕ)
execution_texts execution gas_price amount contract data_text public_key signature =
    codes "{\"action\": {\"core\": "
    ∷ codes "{\"version\": "
    ∷ print_int execution.version
    ∷ codes ",\"nonce\": \""
    ∷ decimal execution.nonce
    ∷ codes "\",\"gasLimit\": \""
    ∷ decimal execution.gas_limit
    ∷ codes "\",\"gasPrice\": \""
    ∷ gas_price
    ∷ codes "\""
    ∷ codes ",\"execution\":"
    ∷ codes "{\"amount\": \""
    ∷ amount
    ∷ codes "\""
    ∷ codes ",\"contract\": \""
    ∷ contract
    ∷ codes "\",\"data\": \""
    ∷ data_text
    ∷ codes "\"}}"
    ∷ codes ",\"senderPubKey\": \""
    ∷ public_key
    ∷ codes "\""
    ∷ codes ",\"signature\": \""
    ∷ signature
    ∷ codes "\",\"encoding\": \"IOTEX_PROTOBUF\"}}"
    ∷ []

-- The text that bintob64 of extern/base64 makes of bytes, without its terminator.
module _ (bintob64 : List ℕ → List ℕ) where
  -- Encoder::base64_encode into `out`.
  unfoldable pub base64_encode : List ℕ → List ℕ → Option (List ℕ)
  base64_encode bytes out = copy_string out (bintob64 bytes ++ (0 ∷ []))

  -- base64_encode into a new array of `size` zeroes, as the text that `%s` reads from it.
  unfoldable pub base64_text : ℕ → List ℕ → Option (List ℕ)
  base64_text size bytes = do array ← base64_encode bytes (replicate size 0); c_string array

  unfoldable pub send_token_transfer_call :
      Host → TransferCore → List ℕ → List ℕ → Option RpcCallData
  send_token_transfer_call host transfer sender_pub_key signature = do
    signature_text ← base64_text (signature_size * 2) signature
    public_key_text ← base64_text (public_key_size * 2) sender_pub_key
    url ← host_to_string host
    gas_price ← c_string transfer.gas_price
    amount ← c_string transfer.amount
    recipient ← c_string transfer.recipient
    body ←
        print_all transfer_body_size
          (transfer_texts transfer gas_price amount recipient public_key_text signature_text) []
    some (record { url = url ++ codes "SendAction"; body = body })

  unfoldable pub send_execution_call : Host → ExecutionCore → List ℕ → List ℕ → Option RpcCallData
  send_execution_call host execution sender_pub_key signature =
      let size = length execution.payload / 2 in
      do
        signature_text ← base64_text (signature_size * 2) signature
        public_key_text ← base64_text (public_key_size * 2) sender_pub_key
        decoded ← str2hex execution.payload (replicate size 0) size
        data_text ← base64_text (size * 2) (decoded.1)
        url ← host_to_string host
        gas_price ← c_string execution.gas_price
        amount ← c_string execution.amount
        contract ← c_string execution.contract
        body ←
            print_all (1024 + size * 2)
              (execution_texts execution gas_price amount contract data_text public_key_text
                signature_text)
              []
        some (record { url = url ++ codes "SendAction"; body = body })
