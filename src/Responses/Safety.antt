-- ===== src/Responses/Safety.antt =====
-- The fromJson methods of an action write inside their arrays and leave each one terminated.
use iotex_arduino.Base.{IsTerminatedArray, ℕ, ◌+◌, ◌≤◌, ◌<◌, ◌≡◌, refl, arith}
use iotex_arduino.Base.{All, List, true, false, Bool-cases, inl, inr}
use iotex_arduino.Base.{some, length}
use iotex_arduino.Base.{codes}
use iotex_arduino.ResultCode.{ResultCode, address_strlen}
use iotex_arduino.ResultCode.{max_balance_strlen, hash_strlen, public_key_strlen, signature_strlen}
use iotex_arduino.ResultCode.{timestamp_strlen}
use iotex_arduino.Json.{JsonLibrary, accepts_string}
use iotex_arduino.Responses.{CharArray, action_hash, block_hash, timestamp, sender, gas_fee}
use iotex_arduino.Responses.{sender_public_key, signature, gas_price, amount, recipient}
use iotex_arduino.Responses.{size_of, ActionInfo, clear_fields, is_numeric}
use iotex_arduino.Responses.{require_object}
use iotex_arduino.Responses.{require_array, read_c_string, read_version, read_nonce}
use iotex_arduino.Responses.{read_gas_limit, read_payload, read_block_height, action_statements}
use iotex_arduino.Responses.{action_from_json, transfer_from_json, execution_from_json}
use iotex_arduino.Responses.Terminated.{IsTerminated, copy_string_lem, cleared}
use iotex_arduino.Responses.Terminated.{set_array-IsTerminated, IsSafe, run_statements-IsSafe}

module _ (library : JsonLibrary) where
  require_object-IsSafe : (json : library.Json) → IsSafe (require_object library json)
  unfolding require_object
  require_object-IsSafe json info t = elim (Bool-cases (library.is_object json)) [
    | inl e ↦ rw e t
    | inr e ↦ rw e t
  ]

  require_array-IsSafe : (json : library.Json) → IsSafe (require_array library json)
  unfolding require_array
  require_array-IsSafe json info t = elim (Bool-cases (library.is_array json)) [
    | inl e ↦ rw e t
    | inr e ↦ rw e t
  ]

  read_version-IsSafe : (json : library.Json) → IsSafe (read_version library json)
  unfolding read_version
  read_version-IsSafe json info t = elim (Bool-cases (library.is_number json)) [
    | inl e ↦ rw e t
    | inr e ↦ rw e t
  ]

  read_gas_limit-IsSafe : (json : library.Json) → IsSafe (read_gas_limit library json)
  unfolding read_gas_limit
  read_gas_limit-IsSafe json info t = elim (Bool-cases (accepts_string library json 0)) [
    | inl e ↦ rw e t
    | inr e ↦ rw e t
  ]

  read_payload-IsSafe : (json : library.Json) → IsSafe (read_payload library json)
  unfolding read_payload
  read_payload-IsSafe json info t = elim (Bool-cases (accepts_string library json 0)) [
    | inl e ↦ rw e t
    | inr e ↦ rw e t
  ]

  read_block_height-IsSafe : (json : library.Json) → IsSafe (read_block_height library json)
  unfolding read_block_height
  read_block_height-IsSafe json info t = elim (Bool-cases (accepts_string library json 0)) [
    | inl e ↦ rw e t
    | inr e ↦ rw e t
  ]

  read_nonce-IsSafe : (json : library.Json) → IsSafe (read_nonce library json)
  unfolding read_nonce
  read_nonce-IsSafe json info t = elim (Bool-cases (accepts_string library json 0)) [
    | inl e ↦ elim (Bool-cases (is_numeric (library.value_string json))) [
      | inl n ↦ rw e (rw n t)
      | inr n ↦ rw e (rw n t)
    ]
    | inr e ↦ rw e t
  ]

  pub accepted_length :
      (json : library.Json) (max_size : ℕ)
      → 0 < max_size
      → accepts_string library json max_size ≡ true
      → length (library.value_string json) ≤ max_size
  unfolding accepts_string
  accepted_length json max_size h e = ground arith

  -- The size that the call passes is one below that of the array.
  read_c_string-IsSafe :
      (json : library.Json) (member : CharArray) (max_size : ℕ)
      → 0 < max_size
      → size_of member ≡ max_size + 1
      → IsSafe (read_c_string library json member max_size)
  unfolding read_c_string
  read_c_string-IsSafe json member max_size positive e info t =
      elim (Bool-cases (accepts_string library json max_size)) [
        | inl a ↦
            let short = accepted_length json max_size positive a in
            let new =
              copy_string_lem (size_of member) (info.arrays member) (library.value_string json)
                (t member) (omega arith) in
            rw a (rw new.1 (set_array-IsTerminated info member new.0 t new.2))
        | inr a ↦ rw a t
      ]

  action_statements-IsSafe :
      (root : library.Json) (inner_key recipient_key payload_key : List ℕ)
      → All IsSafe (action_statements library root inner_key recipient_key payload_key)
  unfolding action_statements
  action_statements-IsSafe root inner_key recipient_key payload_key = (
    require_array-IsSafe _,
    (
      require_object-IsSafe _,
      (
        require_object-IsSafe _,
        (
          require_object-IsSafe _,
          (
            require_object-IsSafe _,
            (
              read_c_string-IsSafe _ sender_public_key public_key_strlen (omega arith) refl,
              (
                read_c_string-IsSafe _ signature signature_strlen (omega arith) refl,
                (
                  read_version-IsSafe _,
                  (
                    read_nonce-IsSafe _,
                    (
                      read_gas_limit-IsSafe _,
                      (
                        read_c_string-IsSafe _ gas_price max_balance_strlen (omega arith) refl,
                        (
                          read_c_string-IsSafe _ amount max_balance_strlen (omega arith) refl,
                          (
                            read_c_string-IsSafe _ recipient address_strlen (omega arith) refl,
                            (
                              read_payload-IsSafe _,
                              (
                                read_c_string-IsSafe _ action_hash hash_strlen (omega arith) refl,
                                (
                                  read_c_string-IsSafe _ block_hash hash_strlen (omega arith) refl,
                                  (
                                    read_c_string-IsSafe _ timestamp timestamp_strlen (omega arith)
                                        refl,
                                    (
                                      read_block_height-IsSafe _,
                                      (
                                        read_c_string-IsSafe _ sender address_strlen (omega arith)
                                            refl,
                                        (
                                          read_c_string-IsSafe _ gas_fee max_balance_strlen
                                              (omega arith) refl,
                                          tt,
                                        ),
                                      ),
                                    ),
                                  ),
                                ),
                              ),
                            ),
                          ),
                        ),
                      ),
                    ),
                  ),
                ),
              ),
            ),
          ),
        ),
      ),
    ),
  )

  action_from_json-IsSafe :
      (inner_key recipient_key payload_key json_string : List ℕ) (info : ActionInfo)
      → library.is_null (library.parse json_string) ≡ false
      → (result : ResultCode × ActionInfo) × (action_from_json library inner_key recipient_key
            payload_key json_string info
          ≡ some result)
        × IsTerminated result.1
  unfolding action_from_json
  action_from_json-IsSafe inner_key recipient_key payload_key json_string info n =
      let root = library.parse json_string in
      let run =
        run_statements-IsSafe (action_statements library root inner_key recipient_key payload_key)
          (clear_fields info) (action_statements-IsSafe root inner_key recipient_key payload_key)
          (cleared info) in
      (run.0, rw n run.1, run.2)

-- On every JSON value that the parser returns for the text, whatever its members are,
-- GetActionResponse_Transfer::fromJson returns, writes inside its character arrays only, and leaves
-- each of them at its size and with a terminator in its last place.
pub transfer_from_json_safe :
    (library : JsonLibrary) (json_string : List ℕ) (info : ActionInfo)
    → library.is_null (library.parse json_string) ≡ false
    → (result : ResultCode × ActionInfo) × (transfer_from_json library json_string info
        ≡ some result)
      × ((member : CharArray) → IsTerminatedArray (size_of member) ((result.1).arrays member))
unfolding transfer_from_json
transfer_from_json_safe library json_string info n =
    action_from_json-IsSafe library (codes "transfer") (codes "recipient") (codes "payload")
      json_string info n

-- On every JSON value that the parser returns for the text, whatever its members are,
-- GetActionResponse_Execution::fromJson returns, writes inside its character arrays only, and leaves
-- each of them at its size and with a terminator in its last place.
pub execution_from_json_safe :
    (library : JsonLibrary) (json_string : List ℕ) (info : ActionInfo)
    → library.is_null (library.parse json_string) ≡ false
    → (result : ResultCode × ActionInfo) × (execution_from_json library json_string info
        ≡ some result)
      × ((member : CharArray) → IsTerminatedArray (size_of member) ((result.1).arrays member))
unfolding execution_from_json
execution_from_json_safe library json_string info n =
    action_from_json-IsSafe library (codes "execution") (codes "contract") (codes "data")
      json_string info n
