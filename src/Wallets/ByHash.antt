-- ===== src/Wallets/ByHash.antt =====
-- What the calls for an action by its hash return for a complete answer of the node.
use iotex_arduino.Base.{ℕ, ◌≡◌, refl, arith, List, ◌++◌, false, some, codes}
use iotex_arduino.Base.{if◌then◌else◌}
use iotex_arduino.ResultCode.{ResultCode, success, is_success}
use iotex_arduino.Json.{JsonLibrary}
use iotex_arduino.Host.{Host, host_to_string}
use iotex_arduino.Rpc.{RpcCallData, get_action_by_hash_call}
use iotex_arduino.Responses.{ActionInfo, transfer_from_json, execution_from_json}
use iotex_arduino.Responses.Values.{IsActionJson, IsRead}
use iotex_arduino.Responses.Complete.{transfer_from_json_lem, execution_from_json_lem}
use iotex_arduino.Wallets.{get_transaction_by_hash, get_execution_by_hash}
use iotex_arduino.Wallets.Answers.{answer_of}

-- The request for the actions with a hash, of which none may be pending.
abbrev pub by_hash_request : List ℕ → List ℕ → RpcCallData
by_hash_request url hash = record {
  url = url ++ codes "GetActions";
  body = codes "{\"byHash\": {\"actionHash\": \"" ++ (hash ++ codes "\",\"checkPending\": false}}");
}

module _ (library : JsonLibrary) (post : List ℕ → List ℕ → ResultCode × List ℕ) where
  request_lem :
      (host : Host) (url hash : List ℕ)
      → host_to_string host ≡ some url
      → get_action_by_hash_call host hash false ≡ some (by_hash_request url hash)
  unfolding get_action_by_hash_call
  request_lem host url hash u = rw u refl

  execution_called :
      (host : Host) (hash : List ℕ) (memory action info : ActionInfo) (call : RpcCallData)
      → get_action_by_hash_call host hash false ≡ some call
      → execution_from_json library (answer_of post call).1 memory ≡ some (success, info)
      → get_execution_by_hash library post host hash memory action
        ≡ some (
            if is_success (answer_of post call).0
            then (success, info)
            else ((answer_of post call).0, action))
  unfolding get_execution_by_hash
  execution_called host hash memory action info call c r = ground (arith, c, r)

  transaction_called :
      (host : Host) (hash : List ℕ) (memory action info : ActionInfo) (call : RpcCallData)
      → get_action_by_hash_call host hash false ≡ some call
      → transfer_from_json library (answer_of post call).1 memory ≡ some (success, info)
      → get_transaction_by_hash library post host hash memory action
        ≡ some (
            if is_success (answer_of post call).0
            then (success, info)
            else ((answer_of post call).0, action))
  unfolding get_transaction_by_hash
  transaction_called host hash memory action info call c r = ground (arith, c, r)

  -- For a host with a URL, getTransactionByHash posts the hash to GetActions of that URL. For an
  -- answer with all the members of a transfer, it returns SUCCESS and their values when the post
  -- succeeds, and otherwise the code of the post and the action as it was.
  pub get_transaction_by_hash_lem :
      (host : Host) (url hash : List ℕ) (memory action : ActionInfo)
      → host_to_string host ≡ some url
      → IsActionJson library
          (library.parse (answer_of post (by_hash_request url hash)).1)
          (codes "transfer")
          (codes "recipient")
          (codes "payload")
      → (info : ActionInfo) × IsRead library
          (library.parse (answer_of post (by_hash_request url hash)).1)
          (codes "transfer")
          (codes "recipient")
          (codes "payload")
          info
        × (get_transaction_by_hash library post host hash memory action
            ≡ some (
                if is_success (answer_of post (by_hash_request url hash)).0
                then (success, info)
                else ((answer_of post (by_hash_request url hash)).0, action)))
  get_transaction_by_hash_lem host url hash memory action u h =
      let call : RpcCallData = by_hash_request url hash in
      let (info, run, read) = transfer_from_json_lem library (answer_of post call).1 memory h in
      (
        info,
        read,
        transaction_called host hash memory action info call (request_lem host url hash u) run,
      )

  -- For a host with a URL, getExecutionByHash posts the hash to GetActions of that URL. For an answer
  -- with all the members of an execution, it returns SUCCESS and their values when the post succeeds,
  -- and otherwise the code of the post and the action as it was.
  pub get_execution_by_hash_lem :
      (host : Host) (url hash : List ℕ) (memory action : ActionInfo)
      → host_to_string host ≡ some url
      → IsActionJson library
          (library.parse (answer_of post (by_hash_request url hash)).1)
          (codes "execution")
          (codes "contract")
          (codes "data")
      → (info : ActionInfo) × IsRead library
          (library.parse (answer_of post (by_hash_request url hash)).1)
          (codes "execution")
          (codes "contract")
          (codes "data")
          info
        × (get_execution_by_hash library post host hash memory action
            ≡ some (
                if is_success (answer_of post (by_hash_request url hash)).0
                then (success, info)
                else ((answer_of post (by_hash_request url hash)).0, action)))
  get_execution_by_hash_lem host url hash memory action u h =
      let call : RpcCallData = by_hash_request url hash in
      let (info, run, read) = execution_from_json_lem library (answer_of post call).1 memory h in
      (
        info,
        read,
        execution_called host hash memory action info call (request_lem host url hash u) run,
      )
