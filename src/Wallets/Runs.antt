-- ===== src/Wallets/Runs.antt =====
-- The theorems on calls at a concrete node.
use iotex_arduino.Base.{
  ℕ, ◌≡◌, refl, arith, List, [], ◌++◌, Bool, true, false, some, codes, text_eq,
}
use iotex_arduino.Base.{
  if◌then◌else◌, replicate, in_array, c_string, decimal, print_int, zero, suc, All, IsByte,
}
use iotex_arduino.ResultCode.{ResultCode, success, write}
use iotex_arduino.Json.{JsonLibrary, accepts_string, copy_string}
use iotex_arduino.Signer.{str2hex, skip_prefix, str2hex_loop, value}
use iotex_arduino.Signer.Hex.{hex_text}
use iotex_arduino.Host.{Host, host_to_string}
use iotex_arduino.Rpc.{TransferCore, ExecutionCore, send_token_transfer_call}
use iotex_arduino.Rpc.{send_execution_call, base64_text, base64_encode, print_all}
use iotex_arduino.Responses.AccountMeta.{AccountMeta}
use iotex_arduino.Wallets.{get_account, send_token_transfer}
use iotex_arduino.Wallets.Answers.{get_account_lem, send_token_transfer_lem}

data Reply : Type 0 where
  object_reply flag_reply : Reply
  text_reply : List ℕ → Reply

abbrev is_object_reply : Reply → Bool
is_object_reply object_reply = true
is_object_reply _ = false

abbrev is_flag_reply : Reply → Bool
is_flag_reply flag_reply = true
is_flag_reply _ = false

abbrev is_text_reply : Reply → Bool
is_text_reply (text_reply s) = true
is_text_reply _ = false

abbrev text_of_reply : Reply → List ℕ
text_of_reply (text_reply s) = s
text_of_reply _ = []

abbrev hash_bytes : List ℕ
hash_bytes = replicate 32 0xab

-- Every object has an object, a flag, a hash and otherwise the text `12`.
abbrev member_of_reply : Reply → List ℕ → Reply
member_of_reply reply key =
    if text_eq key (codes "accountMeta")
    then object_reply
    else if text_eq key (codes "isContract")
    then flag_reply
    else if text_eq key (codes "actionHash")
    then text_reply (hex_text hash_bytes)
    else text_reply (codes "12")

abbrev replies : JsonLibrary
replies = record {
  Json = Reply;
  parse = λ text. object_reply;
  is_null = λ json. false;
  get_object_item = member_of_reply;
  get_array_item = λ json i. json;
  array_items = λ json. [];
  is_object = is_object_reply;
  is_array = λ json. false;
  is_bool = is_flag_reply;
  is_string = is_text_reply;
  is_number = λ json. false;
  value_string = text_of_reply;
  value_int = λ json. 1;
  atol = λ text. 12;
}

abbrev node : List ℕ → List ℕ → ResultCode × List ℕ
node url body = (success, codes "{}")

abbrev no_account : AccountMeta
no_account = record {
  address = [];
  balance = [];
  nonce = [];
  pending_nonce = [];
  num_actions = [];
  is_contract = false;
}

abbrev local : Host
local = record { hostname = in_array 129 (codes "io"); base_url = in_array 129 []; port = 80 }

local_url : host_to_string local ≡ some (codes "io:80/")
unfolding host_to_string c_string decimal
local_url = refl

get_account_lem_example :
    get_account replies node local (codes "io1") no_account no_account
    ≡ some (
      success,
      record {
        address = in_array 42 (codes "12");
        balance = in_array 31 (codes "12");
        nonce = codes "12";
        pending_nonce = codes "12";
        num_actions = codes "12";
        is_contract = true;
      },
    )
unfolding text_eq accepts_string
get_account_lem_example =
    get_account_lem replies node local (codes "io:80/") (codes "io1") no_account no_account
      local_url

abbrev small_transfer : TransferCore
small_transfer = record {
  version = 1;
  nonce = 2;
  gas_limit = 3;
  gas_price = in_array 31 (codes "4");
  chain_id = 5;
  amount = in_array 31 (codes "6");
  recipient = in_array 42 (codes "io1");
  payload = [];
}

-- The request of the transfer, with an encoder of one character.
abbrev transfer_body : List ℕ
transfer_body =
    codes "{\"action\": {\"core\": {\"version\": 1,\"nonce\": \"2\",\"gasLimit\": \"3\","
    ++ (codes "\"gasPrice\": \"4\",\"chainID\": 5,\"transfer\":{\"amount\": \"6\","
        ++ (codes "\"recipient\": \"io1\",\"payload\": \"\"}},\"senderPubKey\": \"k\","
            ++ codes "\"signature\": \"k\",\"encoding\": \"IOTEX_PROTOBUF\"}}"))

small_request :
    send_token_transfer_call (λ bytes. codes "k") local small_transfer [] []
    ≡ some (record { url = codes "io:80/SendAction"; body = transfer_body })
unfolding send_token_transfer_call host_to_string c_string base64_text base64_encode print_all
    decimal copy_string print_int
small_request = refl

replicate-IsByte : (n : ℕ) → All IsByte (replicate n 0xab)
replicate-IsByte zero = tt
replicate-IsByte (suc n) = (omega arith, replicate-IsByte n)

send_token_transfer_lem_example :
    send_token_transfer replies node
      (λ bytes. codes "k")
      local
      []
      []
      small_transfer
      []
      (replicate 32 0)
    ≡ some (success, hash_bytes)
unfolding text_eq
send_token_transfer_lem_example =
    send_token_transfer_lem replies node (λ bytes. codes "k") local small_transfer
      (record { url = codes "io:80/SendAction"; body = transfer_body }) [] [] [] hash_bytes
      (replicate 32 0) small_request refl refl (replicate-IsByte 32) refl refl

abbrev small_execution : ExecutionCore
small_execution = record {
  version = 1;
  nonce = 2;
  gas_limit = 3;
  gas_price = in_array 31 (codes "4");
  amount = in_array 31 (codes "6");
  contract = in_array 42 (codes "io1");
  payload = codes "0a0b0c";
}

abbrev execution_body : List ℕ
execution_body =
    codes "{\"action\": {\"core\": {\"version\": 1,\"nonce\": \"2\",\"gasLimit\": \"3\","
    ++ (codes "\"gasPrice\": \"4\",\"execution\":{\"amount\": \"6\","
        ++ (codes "\"contract\": \"io1\",\"data\": \"k\"}},\"senderPubKey\": \"k\","
            ++ codes "\"signature\": \"k\",\"encoding\": \"IOTEX_PROTOBUF\"}}"))

execution_request :
    send_execution_call (λ bytes. codes "k") local small_execution [] []
    ≡ some (record { url = codes "io:80/SendAction"; body = execution_body })
unfolding send_execution_call host_to_string c_string base64_text base64_encode print_all decimal
    copy_string print_int str2hex skip_prefix str2hex_loop value write
execution_request = refl
