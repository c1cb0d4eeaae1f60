-- ===== src/Wallets/HashRuns.antt =====
-- getTransactionByHash for a node with one answer.
use iotex_arduino.Base.{ℕ, ◌≡◌, List, some, codes}
use iotex_arduino.ResultCode.{ResultCode, success}
use iotex_arduino.Responses.{ActionInfo}
use iotex_arduino.Responses.Values.{IsRead}
use iotex_arduino.Responses.Runs.{documents, response_with, unwritten, documents-IsActionJson}
use iotex_arduino.Rpc.Runs.{gateway, gateway_url}
use iotex_arduino.Wallets.{get_transaction_by_hash}
use iotex_arduino.Wallets.ByHash.{get_transaction_by_hash_lem}

abbrev one_answer : List ℕ → List ℕ → ResultCode × List ℕ
one_answer url body = (success, codes "{}")

get_transaction_by_hash_lem_example :
    (info : ActionInfo) × IsRead documents
      (response_with (codes "transfer"))
      (codes "transfer")
      (codes "recipient")
      (codes "payload")
      info
    × (get_transaction_by_hash documents one_answer gateway (codes "ab") unwritten unwritten
        ≡ some (success, info))
get_transaction_by_hash_lem_example =
    get_transaction_by_hash_lem documents one_answer gateway (codes "iotex:10000/") (codes "ab")
      unwritten unwritten gateway_url documents-IsActionJson
