-- ===== src/Wallets.antt =====
-- src/api/wallet/wallets.cpp: the calls of a node over HTTP. A `none` is an access outside an array,
-- in the request or in the response.
pub mod Answers
pub mod ByHash
pub mod Board
pub mod Balance
mod HashRuns
mod BoardRuns
mod Runs
use iotex_arduino.Base.{
  ℕ, List, [], Bool, true, false, Option, none, some, ◌>>=◌, if◌then◌else◌, c_string,
}
use iotex_arduino.ResultCode.{ResultCode, success, error_http, is_success, hash_size}
use iotex_arduino.Json.{JsonLibrary}
use iotex_arduino.Signer.{str2hex}
use iotex_arduino.Host.{Host}
use iotex_arduino.Rpc.{RpcCallData, TransferCore, ExecutionCore, get_account_call, get_balance_call}
use iotex_arduino.Rpc.{get_action_by_hash_call, send_token_transfer_call, send_execution_call}
use iotex_arduino.Responses.{ActionInfo, transfer_from_json, execution_from_json}
use iotex_arduino.Responses.Short.{balance_from_json, send_execution_from_json}
use iotex_arduino.Responses.AccountMeta.{AccountMeta, account_from_json}

-- `post` is `http_->post` of the platform: the code and the body of the answer to a body sent to a
-- URL. The `memory` of a function is what its response object holds before it is read.
module _ (library : JsonLibrary) (post : List ℕ → List ℕ → ResultCode × List ℕ) where
  abbrev pub answer_to : RpcCallData → ResultCode × List ℕ
  answer_to call = post call.url call.body

  unfoldable pub get_account :
      Host → List ℕ → AccountMeta → AccountMeta → Option (ResultCode × AccountMeta)
  get_account host address memory data_out = do
    call ← get_account_call host address
    elim (is_success (answer_to call).0) [
      | false ↦ some (error_http, data_out)
      | true ↦ do
        r ← account_from_json library (answer_to call).1 memory
        some (r.0, if is_success r.0 then r.1 else data_out)
    ]

  unfoldable pub get_balance : Host → List ℕ → List ℕ → Option (ResultCode × List ℕ)
  get_balance host address balance = do
    call ← get_balance_call host address
    elim (is_success (answer_to call).0) [
      | false ↦ some ((answer_to call).0, balance)
      | true ↦
          let r = balance_from_json library (answer_to call).1 [] in
          some (r.0, if is_success r.0 then r.1 else balance)
    ]

  unfoldable pub get_transaction_by_hash :
      Host → List ℕ → ActionInfo → ActionInfo → Option (ResultCode × ActionInfo)
  get_transaction_by_hash host address memory action = do
    call ← get_action_by_hash_call host address false
    elim (is_success (answer_to call).0) [
      | false ↦ some ((answer_to call).0, action)
      | true ↦ do
        r ← transfer_from_json library (answer_to call).1 memory
        some (r.0, if is_success r.0 then r.1 else action)
    ]

  unfoldable pub get_execution_by_hash :
      Host → List ℕ → ActionInfo → ActionInfo → Option (ResultCode × ActionInfo)
  get_execution_by_hash host address memory action = do
    call ← get_action_by_hash_call host address false
    elim (is_success (answer_to call).0) [
      | false ↦ some ((answer_to call).0, action)
      | true ↦ do
        r ← execution_from_json library (answer_to call).1 memory
        some (r.0, if is_success r.0 then r.1 else action)
    ]

  -- The result of str2hex is dropped.
  unfoldable pub read_hash : List ℕ → List ℕ → Option (ResultCode × List ℕ)
  read_hash response_hash hash = do
    text ← c_string response_hash
    written ← str2hex text hash hash_size
    some (success, written.1)

  -- What both calls that send an action do with their request, from the post on.
  unfoldable pub post_action : RpcCallData → List ℕ → List ℕ → Option (ResultCode × List ℕ)
  post_action call memory hash = elim (is_success (answer_to call).0) [
    | false ↦ some ((answer_to call).0, hash)
    | true ↦ do
      r ← send_execution_from_json library (answer_to call).1 memory
      elim (is_success r.0) [ false ↦ some (r.0, hash) | true ↦ read_hash r.1 hash ]
  ]

  module _ (bintob64 : List ℕ → List ℕ) where
    unfoldable pub send_token_transfer :
        Host → List ℕ → List ℕ → TransferCore → List ℕ → List ℕ → Option (ResultCode × List ℕ)
    send_token_transfer host sender_pub_key signature transfer memory hash = do
      call ← send_token_transfer_call bintob64 host transfer sender_pub_key signature
      post_action call memory hash

    unfoldable pub send_execution :
        Host → List ℕ → List ℕ → ExecutionCore → List ℕ → List ℕ → Option (ResultCode × List ℕ)
    send_execution host sender_pub_key signature execution memory hash = do
      call ← send_execution_call bintob64 host execution sender_pub_key signature
      post_action call memory hash
