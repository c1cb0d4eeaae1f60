-- ===== src/Wallets/Balance.antt =====
-- What getBalance returns for each answer of the node.
use iotex_arduino.Base.{ℕ, ◌≡◌, refl, arith, List, [], not, some}
use iotex_arduino.Base.{codes, if◌then◌else◌, ap, ◌∙◌}
use iotex_arduino.ResultCode.{ResultCode, success, error_json_parse, is_success}
use iotex_arduino.Json.{JsonLibrary, accepts_string}
use iotex_arduino.Host.{Host, host_to_string}
use iotex_arduino.Rpc.{RpcCallData, get_account_call, get_balance_call}
use iotex_arduino.Responses.Short.{balance_from_json}
use iotex_arduino.Wallets.{get_balance}
use iotex_arduino.Wallets.Answers.{answer_of, account_json, account_request}

module _ (library : JsonLibrary) (post : List ℕ → List ℕ → ResultCode × List ℕ) where
  -- The member of the answer with the balance.
  abbrev pub balance_json : List ℕ → library.Json
  balance_json body = library.get_object_item (account_json library body) (codes "balance")

  balance_called :
      (host : Host) (address balance : List ℕ) (call : RpcCallData)
      → get_balance_call host address ≡ some call
      → get_balance library post host address balance
        ≡ some (
            if is_success (answer_of post call).0
            then (
              (balance_from_json library (answer_of post call).1 []).0,
              if is_success (balance_from_json library (answer_of post call).1 []).0
                  then (balance_from_json library (answer_of post call).1 []).1
                  else balance,
            )
            else ((answer_of post call).0, balance))
  unfolding get_balance
  balance_called host address balance call c = ground (arith, c)

  -- What a body gives, for a balance as it was.
  abbrev pub balance_of_body : List ℕ → List ℕ → ResultCode × List ℕ
  balance_of_body body balance =
      if library.is_null (library.parse body)
      then (error_json_parse, balance)
      else if not (library.is_object (account_json library body))
      then (success, [])
      else if library.is_string (balance_json body)
      then (success, library.value_string (balance_json body))
      else (error_json_parse, balance)

  balance_settled :
      (body balance : List ℕ)
      → (
        (balance_from_json library body []).0,
        if is_success (balance_from_json library body []).0
            then (balance_from_json library body []).1
            else balance,
      )
        ≡ balance_of_body body balance
  unfolding balance_from_json accepts_string
  balance_settled body balance = ground arith

  request_lem :
      (host : Host) (url address : List ℕ)
      → host_to_string host ≡ some url
      → get_balance_call host address ≡ some (account_request url address)
  unfolding get_balance_call get_account_call
  request_lem host url address u = rw u refl

  -- For a host with a URL, getBalance posts the address to GetAccount of that URL. It returns the code
  -- of the post and the balance as it was, when the post fails. When it succeeds, it returns SUCCESS
  -- and the text of the member `balance` of the object `accountMeta`; SUCCESS and an empty balance,
  -- when the document has no such object; and ERROR_JSON_PARSE and the balance as it was, when the
  -- body is no document or the member is no text.
  pub get_balance_lem :
      (host : Host) (url address balance : List ℕ)
      → host_to_string host ≡ some url
      → get_balance library post host address balance
        ≡ some (
            if is_success (answer_of post (account_request url address)).0
            then balance_of_body (answer_of post (account_request url address)).1 balance
            else ((answer_of post (account_request url address)).0, balance))
  get_balance_lem host url address balance u =
      let call : RpcCallData = account_request url address in
      balance_called host address balance call (request_lem host url address u)
      ∙ ap
          (λ (r : ResultCode × List ℕ).
            some (
              if is_success (answer_of post call).0 then r else ((answer_of post call).0, balance)))
          (balance_settled (answer_of post call).1 balance)
