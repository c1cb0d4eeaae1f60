-- ===== src/Wallets/Answers.antt =====
-- What the calls of a wallet return for each answer of the node.
use iotex_arduino.Base.{ℕ, ◌≡◌, refl, sym, ap, ◌∙◌, arith, List, [], ◌∷◌, ◌++◌, Bool, true, false}
use iotex_arduino.Base.{not, Option, some, if◌then◌else◌, codes, length, ◌&&◌}
use iotex_arduino.Base.{Bool-cases, inl, inr, All, IsByte, append-nil, replicate}
use iotex_arduino.ResultCode.{ResultCode, success, error_http, error_json_parse, is_success}
use iotex_arduino.Json.{JsonLibrary}
use iotex_arduino.Account.Addresses.{c_string-hex_text}
use iotex_arduino.Signer.{str2hex}
use iotex_arduino.Signer.Hex.{hex_text, length-hex_text}
use iotex_arduino.Signer.HexRoundTrip.{str2hex-hex_text}
use iotex_arduino.Host.{Host, host_to_string}
use iotex_arduino.Rpc.{RpcCallData, TransferCore, ExecutionCore, get_account_call}
use iotex_arduino.Rpc.{send_token_transfer_call, send_execution_call}
use iotex_arduino.Responses.Short.{send_execution_from_json, send_execution_from_json_lem}
use iotex_arduino.Responses.AccountMeta.{AccountMeta, account_from_json, account_from_json_lem}
use iotex_arduino.Responses.AccountMeta.{has_account_members, account_of, account_from_json-null}
use iotex_arduino.Responses.AccountMeta.{clear_account}
use iotex_arduino.Wallets.{get_account, read_hash, post_action, send_token_transfer, send_execution}

-- The object `accountMeta` of a response.
abbrev pub account_json : (library : JsonLibrary) → List ℕ → library.Json
account_json library body = library.get_object_item (library.parse body) (codes "accountMeta")

-- The member `actionHash` of a response.
abbrev pub hash_json : (library : JsonLibrary) → List ℕ → library.Json
hash_json library body = library.get_object_item (library.parse body) (codes "actionHash")

-- The request of getAccount for the URL of the host.
abbrev pub account_request : List ℕ → List ℕ → RpcCallData
account_request url address = record {
  url = url ++ codes "GetAccount";
  body = codes "{\"address\":\"" ++ (address ++ codes "\"}");
}

abbrev pub answer_of : (List ℕ → List ℕ → ResultCode × List ℕ) → RpcCallData → ResultCode × List ℕ
answer_of post call = post call.url call.body

module _ (library : JsonLibrary) (post : List ℕ → List ℕ → ResultCode × List ℕ) where
  get_account-called :
      (host : Host) (address : List ℕ) (memory data_out : AccountMeta) (call : RpcCallData)
      (r : ResultCode × AccountMeta)
      → get_account_call host address ≡ some call
      → is_success (post call.url call.body).0 ≡ true
      → account_from_json library (post call.url call.body).1 memory ≡ some r
      → get_account library post host address memory data_out
        ≡ some (r.0, if is_success r.0 then r.1 else data_out)
  unfolding get_account
  get_account-called host address memory data_out call r c s p = ground (arith, c, s, p)

  get_account-failed :
      (host : Host) (address : List ℕ) (memory data_out : AccountMeta) (call : RpcCallData)
      → get_account_call host address ≡ some call
      → is_success (post call.url call.body).0 ≡ false
      → get_account library post host address memory data_out ≡ some (error_http, data_out)
  unfolding get_account
  get_account-failed host address memory data_out call c s = ground (arith, c, s)

  settle :
      (b : Bool) (r : ResultCode × AccountMeta) (x data_out : AccountMeta)
      → (if b then r ≡ (success, x) else r.0 ≡ error_json_parse)
      → ◌≡◌ {A = Option (ResultCode × AccountMeta)}
          (some (r.0, if is_success r.0 then r.1 else data_out))
          (some (if b then (success, x) else (error_json_parse, data_out)))
  settle true r x data_out e =
      ap (λ (r : ResultCode × AccountMeta). some (r.0, if is_success r.0 then r.1 else data_out)) e
  settle false r x data_out e =
      ap (λ (c : ResultCode). some (c, if is_success c then r.1 else data_out)) e

  -- For a host with a URL, getAccount posts the address to GetAccount of that URL. When the post
  -- fails, it returns ERROR_HTTP and leaves the account as it was. When the post succeeds and the
  -- parser reads an answer with an object `accountMeta` that has the members which
  -- GetAccountResponse::fromJson asks for, it returns SUCCESS and their values, and otherwise
  -- ERROR_JSON_PARSE and the account as it was.
  pub get_account_lem :
      (host : Host) (url address : List ℕ) (memory data_out : AccountMeta)
      → host_to_string host ≡ some url
      → let answer = answer_of post (account_request url address) in
        let json = account_json library answer.1 in
        get_account library post host address memory data_out
        ≡ some (
            if is_success answer.0
            then if not (library.is_null (library.parse answer.1))
                && (library.is_object json && has_account_members library json)
              then (success, account_of library json)
              else (error_json_parse, data_out)
            else (error_http, data_out))
  get_account_lem host url address memory data_out u =
      let call : RpcCallData = account_request url address in
      let called : get_account_call host address ≡ some call =
        unfold get_account_call in rw u refl in
      let answer : ResultCode × List ℕ = post call.url call.body in
      let json : library.Json = account_json library answer.1 in
      elim (Bool-cases (is_success answer.0)) [
        | inr s ↦ rw s (get_account-failed host address memory data_out call called s)
        | inl s ↦ elim (Bool-cases (library.is_null (library.parse answer.1))) [
          | inl n ↦ rw s (
              rw n (
                get_account-called host address memory data_out call
                  (error_json_parse, clear_account memory) called s
                  (account_from_json-null library answer.1 memory n)))
          | inr n ↦
              let (r, run, terminated, values) = account_from_json_lem library answer.1 memory n in
              rw s (
                rw n (
                  get_account-called host address memory data_out call r called s run
                  ∙ settle (library.is_object json && has_account_members library json) r
                      (account_of library json) data_out values))
        ]
      ]

  read_hash_lem :
      (bytes hash : List ℕ)
      → All IsByte bytes
      → length bytes ≡ 32
      → length hash ≡ 32
      → read_hash library post (hex_text bytes ++ (0 ∷ [])) hash ≡ some (success, bytes)
  unfolding read_hash
  read_hash_lem bytes hash h l k =
      let written : str2hex (hex_text bytes) hash 32 ≡ some (success, bytes) =
        ap (λ t. str2hex (hex_text bytes) t 32) (sym (append-nil hash))
        ∙ str2hex-hex_text bytes hash [] 32 h (k ∙ sym l) (omega (arith, l))
        ∙ ap (λ t. some (success, t)) (append-nil bytes) in
      rw (c_string-hex_text bytes [] h) (rw written refl)

  -- The answer to a request that sends an action, as the part of it that counts.
  hash_from_json :
      (body memory bytes : List ℕ)
      → library.is_null (library.parse body) ≡ false
      → library.value_string (hash_json library body) ≡ hex_text bytes
      → length bytes ≡ 32
      → send_execution_from_json library body memory ≡ (
          if library.is_string (hash_json library body)
          then some (success, hex_text bytes ++ (0 ∷ []))
          else some (error_json_parse, replicate 65 0))
  hash_from_json body memory bytes n v l =
      send_execution_from_json_lem library body memory n
      ∙ rw v (ground (arith, length-hex_text bytes, l))

  -- What both calls that send an action do with the answer to their request.
  abbrev pub sent : ResultCode × List ℕ → List ℕ → List ℕ → ResultCode × List ℕ
  sent answer bytes hash =
      if is_success answer.0
      then if library.is_string (hash_json library answer.1)
        then (success, bytes)
        else (error_json_parse, hash)
      else (answer.0, hash)

  post_action_lem :
      (call : RpcCallData) (memory bytes hash : List ℕ)
      → library.is_null (library.parse (answer_of post call).1) ≡ false
      → library.value_string (hash_json library (answer_of post call).1) ≡ hex_text bytes
      → All IsByte bytes
      → length bytes ≡ 32
      → length hash ≡ 32
      → post_action library post call memory hash ≡ some (sent (answer_of post call) bytes hash)
  unfolding post_action
  post_action_lem call memory bytes hash n v h l k =
      let answer : ResultCode × List ℕ = answer_of post call in
      let response = hash_from_json answer.1 memory bytes n v l in
      let read = read_hash_lem bytes hash h l k in
      elim (Bool-cases (is_success answer.0)) [
        | inr s ↦ ground (arith, s)
        | inl s ↦ elim (Bool-cases (library.is_string (hash_json library answer.1))) [
          | inr t ↦ ground (arith, s, t, response)
          | inl t ↦ ground (arith, s, t, response, read)
        ]
      ]

  module _ (bintob64 : List ℕ → List ℕ) where
    -- When the request is built, and the body of the answer is read by the parser with a member
    -- `actionHash` whose text is the lower-case hexadecimal text of 32 bytes, sendTokenTransfer posts
    -- the request and returns the code of the post with the hash as it was, when that fails;
    -- ERROR_JSON_PARSE with the hash as it was, when the member is no text; and otherwise SUCCESS with
    -- the 32 bytes in the hash.
    pub send_token_transfer_lem :
        (host : Host) (transfer : TransferCore) (call : RpcCallData)
        (public_key signature memory bytes hash : List ℕ)
        → send_token_transfer_call bintob64 host transfer public_key signature ≡ some call
        → library.is_null (library.parse (answer_of post call).1) ≡ false
        → library.value_string (hash_json library (answer_of post call).1) ≡ hex_text bytes
        → All IsByte bytes
        → length bytes ≡ 32
        → length hash ≡ 32
        → send_token_transfer library post bintob64 host public_key signature transfer memory hash
          ≡ some (sent (answer_of post call) bytes hash)
    unfolding send_token_transfer
    send_token_transfer_lem host transfer call public_key signature memory bytes hash c n v h l k =
        rw c (post_action_lem call memory bytes hash n v h l k)

    -- The same for sendExecution: with a request that is built and an answer that the parser reads,
    -- with a member `actionHash` whose text is the lower-case hexadecimal text of 32 bytes, it posts
    -- the request and returns the code of the post with the hash as it was, when that fails;
    -- ERROR_JSON_PARSE with the hash as it was, when the member is no text; and otherwise SUCCESS with
    -- the 32 bytes in the hash.
    pub send_execution_lem :
        (host : Host) (execution : ExecutionCore) (call : RpcCallData)
        (public_key signature memory bytes hash : List ℕ)
        → send_execution_call bintob64 host execution public_key signature ≡ some call
        → library.is_null (library.parse (answer_of post call).1) ≡ false
        → library.value_string (hash_json library (answer_of post call).1) ≡ hex_text bytes
        → All IsByte bytes
        → length bytes ≡ 32
        → length hash ≡ 32
        → send_execution library post bintob64 host public_key signature execution memory hash
          ≡ some (sent (answer_of post call) bytes hash)
    unfolding send_execution
    send_execution_lem host execution call public_key signature memory bytes hash c n v h l k =
        rw c (post_action_lem call memory bytes hash n v h l k)
