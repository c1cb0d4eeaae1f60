-- ===== src/Responses.antt =====
-- The fromJson methods for an action of src/protobuf/pb_api.cpp. The methods of
-- GetActionResponse_Transfer and GetActionResponse_Execution are the same but for three keys.
pub mod Terminated
pub mod Safety
pub mod Short
pub mod AccountMeta
pub mod Passed
pub mod Values
pub mod Reading
pub mod Complete
pub mod Runs
use iotex_arduino.Base.{ℕ, ◌+◌, ◌*◌, ◌-◌, ◌%◌, ◌^◌, List, [], ◌∷◌, ◌++◌, Bool, true, false, not}
use iotex_arduino.Base.{◌||◌, ◌&&◌, Option, none, some, length, replicate, ltb, leb, ◌==◌}
use iotex_arduino.Base.{if◌then◌else◌, codes}
use iotex_arduino.ResultCode.{ResultCode, success, error_json_parse, address_strlen}
use iotex_arduino.ResultCode.{max_balance_strlen, hash_strlen, public_key_strlen, signature_strlen}
use iotex_arduino.ResultCode.{timestamp_strlen}
use iotex_arduino.Json.{JsonLibrary, copy_string, accepts_string}

-- The character arrays of ActionInfo and of the structures in it. For an execution `recipient` is
-- `contract`.
pub data CharArray : Type 0 where
  action_hash block_hash timestamp sender gas_fee sender_public_key : CharArray
  signature gas_price amount recipient : CharArray

abbrev pub index_of : CharArray → ℕ
index_of action_hash = 0
index_of block_hash = 1
index_of timestamp = 2
index_of sender = 3
index_of gas_fee = 4
index_of sender_public_key = 5
index_of signature = 6
index_of gas_price = 7
index_of amount = 8
index_of recipient = 9

abbrev pub size_of : CharArray → ℕ
size_of action_hash = hash_strlen + 1
size_of block_hash = hash_strlen + 1
size_of timestamp = timestamp_strlen + 1
size_of sender = address_strlen + 1
size_of gas_fee = max_balance_strlen + 1
size_of sender_public_key = public_key_strlen + 1
size_of signature = signature_strlen + 1
size_of gas_price = max_balance_strlen + 1
size_of amount = max_balance_strlen + 1
size_of recipient = address_strlen + 1

-- For an execution `payload` is `data`.
pub record ActionInfo : Type 0 where
  pub arrays : CharArray → List ℕ
  pub version : ℕ
  pub nonce : ℕ
  pub gas_limit : ℕ
  pub payload : List ℕ
  pub block_height : List ℕ

unfoldable pub set_array : (CharArray → List ℕ) → CharArray → List ℕ → CharArray → List ℕ
set_array arrays member new other = if index_of member == index_of other then new else arrays other

-- The memsets.
unfoldable pub clear_fields : ActionInfo → ActionInfo
clear_fields info = record info { arrays = λ member. replicate (size_of member) 0 }

unfoldable pub is_numeric : List ℕ → Bool
is_numeric [] = true
is_numeric (c ∷ s) = if ltb c b'0' || ltb b'9' c then false else is_numeric s

-- What a statement ends with: an early return, or the state to go on with.
pub data Outcome : Type 0 where
  returned : ResultCode → ActionInfo → Outcome
  going : ActionInfo → Outcome

-- A `none` stands for a write behind an array.
abbrev pub Statement : Type 0
Statement = ActionInfo → Option Outcome

-- A sequence of statements. `ret` is SUCCESS behind the last.
unfoldable pub run_statements : List Statement → ActionInfo → Option (ResultCode × ActionInfo)
run_statements [] info = some (success, info)
run_statements (statement ∷ statements) info = elim (statement info) [
  | none ↦ none
  | some (returned ret info') ↦ some (ret, info')
  | some (going info') ↦ run_statements statements info'
]

module _ (library : JsonLibrary) where
  -- An `if(!cJSON_IsObject(json))` with its return.
  unfoldable pub require_object : library.Json → Statement
  require_object json info =
      if library.is_object json then some (going info) else some (returned error_json_parse info)

  unfoldable pub require_array : library.Json → Statement
  require_array json info =
      if library.is_array json then some (going info) else some (returned error_json_parse info)

  -- SetValueFromJsonObject for a C_STRING, and the return on its error. So for the other types.
  unfoldable pub read_c_string : library.Json → CharArray → ℕ → Statement
  read_c_string json member max_size info =
      if accepts_string library json max_size
      then elim (copy_string (info.arrays member) (library.value_string json)) [
        | none ↦ none
        | some new ↦ some (going (record info { arrays = set_array info.arrays member new }))
      ]
      else some (returned error_json_parse info)

  unfoldable pub read_version : library.Json → Statement
  read_version json info =
      if library.is_number json
      then some (going (record info { version = library.value_int json % 2 ^ 32 }))
      else some (returned error_json_parse info)

  -- A text that is not numeric ends the method with the SUCCESS of the call before.
  unfoldable pub read_nonce : library.Json → Statement
  read_nonce json info =
      if not (accepts_string library json 0)
      then some (returned error_json_parse info)
      else if not (is_numeric (library.value_string json))
      then some (returned success info)
      else some (going (record info { nonce = library.atol (library.value_string json) }))

  unfoldable pub read_gas_limit : library.Json → Statement
  read_gas_limit json info =
      if accepts_string library json 0
      then some (going (record info { gas_limit = library.atol (library.value_string json) }))
      else some (returned error_json_parse info)

  unfoldable pub read_payload : library.Json → Statement
  read_payload json info =
      if accepts_string library json 0
      then some (going (record info { payload = library.value_string json }))
      else some (returned error_json_parse info)

  unfoldable pub read_block_height : library.Json → Statement
  read_block_height json info =
      if accepts_string library json 0
      then some (going (record info { block_height = library.value_string json }))
      else some (returned error_json_parse info)

  -- From the test of the array on, with the keys in which the two methods differ.
  unfoldable pub action_statements : library.Json → List ℕ → List ℕ → List ℕ → List Statement
  action_statements root inner_key recipient_key payload_key =
      let get = library.get_object_item in
      let info_array = get root (codes "actionInfo") in
      let info_json = library.get_array_item info_array 0 in
      let action = get info_json (codes "action") in
      let core = get action (codes "core") in
      let inner = get core inner_key in
      require_array info_array
      ∷ require_object info_json
      ∷ require_object action
      ∷ require_object core
      ∷ require_object inner
      ∷ read_c_string (get action (codes "senderPubKey")) sender_public_key public_key_strlen
      ∷ read_c_string (get action (codes "signature")) signature signature_strlen
      ∷ read_version (get core (codes "version"))
      ∷ read_nonce (get core (codes "nonce"))
      ∷ read_gas_limit (get core (codes "gasLimit"))
      ∷ read_c_string (get core (codes "gasPrice")) gas_price max_balance_strlen
      ∷ read_c_string (get inner (codes "amount")) amount max_balance_strlen
      ∷ read_c_string (get inner recipient_key) recipient address_strlen
      ∷ read_payload (get inner payload_key)
      ∷ read_c_string (get info_json (codes "actHash")) action_hash hash_strlen
      ∷ read_c_string (get info_json (codes "blkHash")) block_hash hash_strlen
      ∷ read_c_string (get info_json (codes "timestamp")) timestamp timestamp_strlen
      ∷ read_block_height (get info_json (codes "blkHeight"))
      ∷ read_c_string (get info_json (codes "sender")) sender address_strlen
      ∷ read_c_string (get info_json (codes "gasFee")) gas_fee max_balance_strlen
      ∷ []

  unfoldable pub action_from_json :
      List ℕ → List ℕ → List ℕ → List ℕ → ActionInfo → Option (ResultCode × ActionInfo)
  action_from_json inner_key recipient_key payload_key json_string info =
      let root = library.parse json_string in
      if library.is_null root
      then some (error_json_parse, info)
      else run_statements (action_statements root inner_key recipient_key payload_key)
          (clear_fields info)

  unfoldable pub transfer_from_json : List ℕ → ActionInfo → Option (ResultCode × ActionInfo)
  transfer_from_json json_string info =
      action_from_json (codes "transfer") (codes "recipient") (codes "payload") json_string info

  unfoldable pub execution_from_json : List ℕ → ActionInfo → Option (ResultCode × ActionInfo)
  execution_from_json json_string info =
      action_from_json (codes "execution") (codes "contract") (codes "data") json_string info
