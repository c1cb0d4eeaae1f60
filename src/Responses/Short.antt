-- ===== src/Responses/Short.antt =====
-- The fromJson methods of GetBalanceResponse and SendExecutionResponse of src/protobuf/pb_api.cpp.
use iotex_arduino.Base.{in_array, ℕ, ◌+◌, ◌-◌, ◌≡◌, arith, Bool-cases}
use iotex_arduino.Base.{List, ◌++◌, true, false, inl, inr, Option, none, some, codes}
use iotex_arduino.Base.{length, replicate, leb, if◌then◌else◌, ◌&&◌}
use iotex_arduino.ResultCode.{ResultCode, success, error_json_parse, hash_strlen}
use iotex_arduino.Json.{JsonLibrary, copy_string, copy_string_cleared, accepts_string}

module _ (library : JsonLibrary) where
  -- The result code and `balance` after the call. Without the object `accountMeta` it is SUCCESS.
  unfoldable pub balance_from_json : List ℕ → List ℕ → ResultCode × List ℕ
  balance_from_json json_string balance =
      let root = library.parse json_string in
      let account_meta = library.get_object_item root (codes "accountMeta") in
      let member = library.get_object_item account_meta (codes "balance") in
      if library.is_null root
      then (error_json_parse, balance)
      else if library.is_object account_meta
      then if accepts_string library member 0
        then (success, library.value_string member)
        else (error_json_parse, balance)
      else (success, balance)

  -- The result code and `hash` after the call. A `none` stands for a write behind the array.
  unfoldable pub send_execution_from_json : List ℕ → List ℕ → Option (ResultCode × List ℕ)
  send_execution_from_json json_string hash =
      let root = library.parse json_string in
      let member = library.get_object_item root (codes "actionHash") in
      let cleared = replicate (hash_strlen + 1) 0 in
      if library.is_null root
      then some (error_json_parse, hash)
      else if accepts_string library member hash_strlen
      then elim (copy_string cleared (library.value_string member)) [
        | none ↦ none
        | some new ↦ some (success, new)
      ]
      else some (error_json_parse, cleared)

copied :
    (library : JsonLibrary) (json : library.Json)
    → accepts_string library json hash_strlen ≡ true
    → copy_string (replicate 65 0) (library.value_string json)
      ≡ some (in_array 65 (library.value_string json))
unfolding accepts_string
copied library json a = copy_string_cleared 65 (library.value_string json) (ground (arith, a))

-- On every JSON value that the parser returns for the text, SendExecutionResponse::fromJson returns
-- and writes inside `hash` only. When the member `actionHash` is a text of at most 64 characters, it
-- returns SUCCESS and `hash` is that text with zeroes behind; otherwise it returns ERROR_JSON_PARSE
-- and `hash` is all zeroes.
pub send_execution_from_json_lem :
    (library : JsonLibrary) (json_string hash : List ℕ)
    → library.is_null (library.parse json_string) ≡ false
    → send_execution_from_json library json_string hash ≡ (
        let json = library.get_object_item (library.parse json_string) (codes "actionHash") in
        let text = library.value_string json in
        if library.is_string json && leb (length text) 64
        then some (success, text ++ replicate (65 - length text) 0)
        else some (error_json_parse, replicate 65 0))
unfolding send_execution_from_json
send_execution_from_json_lem library json_string hash n =
    let json = library.get_object_item (library.parse json_string) (codes "actionHash") in
    elim (Bool-cases (accepts_string library json hash_strlen)) [
      | inl a ↦
          rw n (rw a (rw (copied library json a) (unfold accepts_string in ground (arith, a))))
      | inr a ↦ rw n (rw a (unfold accepts_string in ground (arith, a)))
    ]
