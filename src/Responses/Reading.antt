-- ===== src/Responses/Reading.antt =====
-- The fromJson methods of an action read a complete answer.
use iotex_arduino.Base.{ℕ, ◌+◌, ◌-◌, ◌<◌, ◌≡◌, refl, arith, List, [], ◌∷◌, ◌∙◌}
use iotex_arduino.Base.{some, codes, replicate}
use iotex_arduino.ResultCode.{success}
use iotex_arduino.Json.{JsonLibrary}
use iotex_arduino.Responses.{CharArray, action_hash, block_hash, timestamp, sender, gas_fee}
use iotex_arduino.Responses.{sender_public_key, signature, gas_price, amount, recipient}
use iotex_arduino.Responses.{size_of, set_array, ActionInfo, clear_fields, Statement}
use iotex_arduino.Responses.{going, run_statements, read_c_string}
use iotex_arduino.Responses.{read_version, read_nonce, read_gas_limit, read_payload}
use iotex_arduino.Responses.{read_block_height, action_statements, action_from_json}
use iotex_arduino.Responses.Values.{info_json, core_json, inner_json, array_json, IsActionJson}
use iotex_arduino.Responses.Values.{
  read_array, read_signer, read_core, read_inner, read_block, read_fee,
}
use iotex_arduino.Responses.Values.{read_all}
use iotex_arduino.Responses.Passed.{run_statements-step, run_statements-end, read_c_string-accepted}
use iotex_arduino.Responses.Passed.{
  require_object-passed, require_array-passed, read_version-passed,
}
use iotex_arduino.Responses.Passed.{read_nonce-passed, read_gas_limit-passed, read_payload-passed}
use iotex_arduino.Responses.Passed.{read_block_height-passed}

module _ (library : JsonLibrary) (root : library.Json)
    (inner_key recipient_key payload_key : List ℕ)
    (is_action : IsActionJson library root inner_key recipient_key payload_key) where
  array_passed :
      (member : CharArray) (max_size : ℕ) (info : ActionInfo)
      → 0 < max_size
      → size_of member ≡ max_size + 1
      → info.arrays member ≡ replicate (size_of member) 0
      → read_c_string library
          (array_json library root inner_key recipient_key payload_key member)
          member
          max_size
          info
        ≡ some (going (read_array library root inner_key recipient_key payload_key member info))
  array_passed member max_size info positive size cleared =
      let e : size_of member - 1 ≡ max_size = omega (arith, size) in
      read_c_string-accepted library
        (array_json library root inner_key recipient_key payload_key member) member max_size info
        positive size (rw e at (is_action.arrays_accepted member)) cleared

  -- The statements that read the block and the fee.
  abbrev fee_statements : List Statement
  fee_statements =
      read_c_string library (array_json library root inner_key recipient_key payload_key sender)
        sender 41
      ∷ read_c_string library (array_json library root inner_key recipient_key payload_key gas_fee)
          gas_fee 30
      ∷ []

  abbrev block_statements : List Statement
  block_statements =
      read_c_string library
        (array_json library root inner_key recipient_key payload_key action_hash) action_hash 64
      ∷ read_c_string library
          (array_json library root inner_key recipient_key payload_key block_hash) block_hash 64
      ∷ read_c_string library
          (array_json library root inner_key recipient_key payload_key timestamp) timestamp 21
      ∷ read_block_height library (
          library.get_object_item (info_json library root inner_key recipient_key payload_key)
            (codes "blkHeight"))
      ∷ fee_statements

  abbrev inner_statements : List Statement
  inner_statements =
      read_c_string library (array_json library root inner_key recipient_key payload_key gas_price)
        gas_price 30
      ∷ read_c_string library (array_json library root inner_key recipient_key payload_key amount)
          amount 30
      ∷ read_c_string library
          (array_json library root inner_key recipient_key payload_key recipient) recipient 41
      ∷ read_payload library (
          library.get_object_item (inner_json library root inner_key recipient_key payload_key)
            payload_key)
      ∷ block_statements

  abbrev core_statements : List Statement
  core_statements =
      read_version library (
        library.get_object_item (core_json library root inner_key recipient_key payload_key)
          (codes "version"))
      ∷ read_nonce library (
          library.get_object_item (core_json library root inner_key recipient_key payload_key)
            (codes "nonce"))
      ∷ read_gas_limit library (
          library.get_object_item (core_json library root inner_key recipient_key payload_key)
            (codes "gasLimit"))
      ∷ inner_statements

  abbrev signer_statements : List Statement
  signer_statements =
      read_c_string library
        (array_json library root inner_key recipient_key payload_key sender_public_key)
        sender_public_key 130
      ∷ read_c_string library
          (array_json library root inner_key recipient_key payload_key signature) signature 130
      ∷ core_statements

  fee_lem :
      (info : ActionInfo)
      → info.arrays sender ≡ replicate (size_of sender) 0
      → info.arrays gas_fee ≡ replicate (size_of gas_fee) 0
      → run_statements fee_statements info
        ≡ some (success, read_fee library root inner_key recipient_key payload_key info)
  unfolding set_array
  fee_lem info s g =
      run_statements-step _ _ (array_passed sender 41 info (omega arith) refl s)
      ∙ run_statements-step _ _ (
          array_passed gas_fee 30
            (read_array library root inner_key recipient_key payload_key sender info) (omega arith)
            refl g)
      ∙ run_statements-end (read_fee library root inner_key recipient_key payload_key info)

  block_lem :
      (info : ActionInfo)
      → info.arrays action_hash ≡ replicate (size_of action_hash) 0
      → info.arrays block_hash ≡ replicate (size_of block_hash) 0
      → info.arrays timestamp ≡ replicate (size_of timestamp) 0
      → run_statements block_statements info
        ≡ run_statements fee_statements
            (read_block library root inner_key recipient_key payload_key info)
  unfolding set_array
  block_lem info a b t =
      run_statements-step _ _ (array_passed action_hash 64 info (omega arith) refl a)
      ∙ run_statements-step _ _ (
          array_passed block_hash 64
            (read_array library root inner_key recipient_key payload_key action_hash info)
            (omega arith) refl b)
      ∙ run_statements-step _ _ (
          array_passed timestamp 21
            (read_array library root inner_key recipient_key payload_key block_hash
              (read_array library root inner_key recipient_key payload_key action_hash info))
            (omega arith) refl t)
      ∙ run_statements-step _ _
          (read_block_height-passed library _ _ is_action.block_height_accepted)

  inner_lem :
      (info : ActionInfo)
      → info.arrays gas_price ≡ replicate (size_of gas_price) 0
      → info.arrays amount ≡ replicate (size_of amount) 0
      → info.arrays recipient ≡ replicate (size_of recipient) 0
      → run_statements inner_statements info
        ≡ run_statements block_statements
            (read_inner library root inner_key recipient_key payload_key info)
  unfolding set_array
  inner_lem info g a r =
      run_statements-step _ _ (array_passed gas_price 30 info (omega arith) refl g)
      ∙ run_statements-step _ _ (
          array_passed amount 30
            (read_array library root inner_key recipient_key payload_key gas_price info)
            (omega arith) refl a)
      ∙ run_statements-step _ _ (
          array_passed recipient 41
            (read_array library root inner_key recipient_key payload_key amount
              (read_array library root inner_key recipient_key payload_key gas_price info))
            (omega arith) refl r)
      ∙ run_statements-step _ _ (read_payload-passed library _ _ is_action.payload_accepted)

  core_lem :
      (info : ActionInfo)
      → run_statements core_statements info
        ≡ run_statements inner_statements
            (read_core library root inner_key recipient_key payload_key info)
  core_lem info =
      run_statements-step _ _ (read_version-passed library _ info is_action.version_number)
      ∙ run_statements-step _ _
          (read_nonce-passed library _ _ is_action.nonce_accepted is_action.nonce_numeric)
      ∙ run_statements-step _ _ (read_gas_limit-passed library _ _ is_action.gas_limit_accepted)

  signer_lem :
      (info : ActionInfo)
      → info.arrays sender_public_key ≡ replicate (size_of sender_public_key) 0
      → info.arrays signature ≡ replicate (size_of signature) 0
      → run_statements signer_statements info
        ≡ run_statements core_statements
            (read_signer library root inner_key recipient_key payload_key info)
  unfolding set_array
  signer_lem info p s =
      run_statements-step _ _ (array_passed sender_public_key 130 info (omega arith) refl p)
      ∙ run_statements-step _ _ (
          array_passed signature 130
            (read_array library root inner_key recipient_key payload_key sender_public_key info)
            (omega arith) refl s)

  objects_lem :
      (info : ActionInfo)
      → run_statements (action_statements library root inner_key recipient_key payload_key) info
        ≡ run_statements signer_statements info
  unfolding action_statements
  objects_lem info =
      run_statements-step _ _ (require_array-passed library _ info is_action.info_array)
      ∙ run_statements-step _ _ (require_object-passed library _ info is_action.info_object)
      ∙ run_statements-step _ _ (require_object-passed library _ info is_action.action_object)
      ∙ run_statements-step _ _ (require_object-passed library _ info is_action.core_object)
      ∙ run_statements-step _ _ (require_object-passed library _ info is_action.inner_object)

  pub action_from_json_lem :
      (json_string : List ℕ) (info : ActionInfo)
      → library.parse json_string ≡ root
      → action_from_json library inner_key recipient_key payload_key json_string info
        ≡ some (success, read_all library root inner_key recipient_key payload_key info)
  unfolding action_from_json set_array clear_fields
  action_from_json_lem json_string info e =
      let i : ActionInfo = clear_fields info in
      let a : ActionInfo =
        read_core library root inner_key recipient_key payload_key
          (read_signer library root inner_key recipient_key payload_key i) in
      let b : ActionInfo = read_inner library root inner_key recipient_key payload_key a in
      let run =
        objects_lem i
        ∙ signer_lem i refl refl
        ∙ core_lem (read_signer library root inner_key recipient_key payload_key i)
        ∙ inner_lem a refl refl refl
        ∙ block_lem b refl refl refl
        ∙ fee_lem (read_block library root inner_key recipient_key payload_key b) refl refl in
      rw e (rw is_action.not_null run)
