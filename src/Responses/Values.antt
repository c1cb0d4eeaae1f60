-- ===== src/Responses/Values.antt =====
-- The values in the answer to a request for an action.
use iotex_arduino.Base.{ℕ, ◌-◌, ◌%◌, ◌^◌, ◌≡◌, refl, List, true, false}
use iotex_arduino.Base.{codes, in_array}
use iotex_arduino.Json.{JsonLibrary, accepts_string}
use iotex_arduino.Responses.{CharArray, action_hash, block_hash, timestamp, sender, gas_fee}
use iotex_arduino.Responses.{sender_public_key, signature, gas_price, amount, recipient}
use iotex_arduino.Responses.{size_of, set_array, ActionInfo, clear_fields, is_numeric}

module _ (library : JsonLibrary) where
  module _ (root : library.Json) (inner_key recipient_key payload_key : List ℕ) where
    -- The objects of an answer, and its members.
    abbrev pub info_json : library.Json
    info_json = library.get_array_item (library.get_object_item root (codes "actionInfo")) 0

    abbrev pub action_json : library.Json
    action_json = library.get_object_item info_json (codes "action")

    abbrev pub core_json : library.Json
    core_json = library.get_object_item action_json (codes "core")

    abbrev pub inner_json : library.Json
    inner_json = library.get_object_item core_json inner_key

    abbrev pub array_json : CharArray → library.Json
    array_json action_hash = library.get_object_item info_json (codes "actHash")
    array_json block_hash = library.get_object_item info_json (codes "blkHash")
    array_json timestamp = library.get_object_item info_json (codes "timestamp")
    array_json sender = library.get_object_item info_json (codes "sender")
    array_json gas_fee = library.get_object_item info_json (codes "gasFee")
    array_json sender_public_key = library.get_object_item action_json (codes "senderPubKey")
    array_json signature = library.get_object_item action_json (codes "signature")
    array_json gas_price = library.get_object_item core_json (codes "gasPrice")
    array_json amount = library.get_object_item inner_json (codes "amount")
    array_json recipient = library.get_object_item inner_json recipient_key

    -- An answer with an object for each part, a text of at most its size for each array, a number for
    -- the version, a text of digits for the nonce, and texts for the gas limit, the payload and the
    -- height.
    pub record IsActionJson : Type 0 where
      pub not_null : library.is_null root ≡ false
      pub info_array : library.is_array (library.get_object_item root (codes "actionInfo")) ≡ true
      pub info_object : library.is_object info_json ≡ true
      pub action_object : library.is_object action_json ≡ true
      pub core_object : library.is_object core_json ≡ true
      pub inner_object : library.is_object inner_json ≡ true
      pub arrays_accepted :
          (member : CharArray)
          → accepts_string library (array_json member) (size_of member - 1) ≡ true
      pub version_number :
          library.is_number (library.get_object_item core_json (codes "version")) ≡ true
      pub nonce_accepted :
          accepts_string library (library.get_object_item core_json (codes "nonce")) 0 ≡ true
      pub nonce_numeric :
          is_numeric (library.value_string (library.get_object_item core_json (codes "nonce")))
          ≡ true
      pub gas_limit_accepted :
          accepts_string library (library.get_object_item core_json (codes "gasLimit")) 0 ≡ true
      pub payload_accepted :
          accepts_string library (library.get_object_item inner_json payload_key) 0 ≡ true
      pub block_height_accepted :
          accepts_string library (library.get_object_item info_json (codes "blkHeight")) 0 ≡ true

    -- The values of an answer.
    pub record IsRead (info : ActionInfo) : Type 0 where
      pub arrays_lem :
          (member : CharArray)
          → info.arrays member
            ≡ in_array (size_of member) (library.value_string (array_json member))
      pub version_lem :
          info.version
          ≡ library.value_int (library.get_object_item core_json (codes "version")) % 2 ^ 32
      pub nonce_lem :
          info.nonce
          ≡ library.atol (library.value_string (library.get_object_item core_json (codes "nonce")))
      pub gas_limit_lem :
          info.gas_limit
          ≡ library.atol
              (library.value_string (library.get_object_item core_json (codes "gasLimit")))
      pub payload_lem :
          info.payload ≡ library.value_string (library.get_object_item inner_json payload_key)
      pub block_height_lem :
          info.block_height
          ≡ library.value_string (library.get_object_item info_json (codes "blkHeight"))

    abbrev pub read_array : CharArray → ActionInfo → ActionInfo
    read_array member info = record info {
      arrays =
          set_array info.arrays member
            (in_array (size_of member) (library.value_string (array_json member)));
    }

    -- What each part of the statements reads.
    abbrev pub read_signer : ActionInfo → ActionInfo
    read_signer info = read_array signature (read_array sender_public_key info)

    abbrev pub read_core : ActionInfo → ActionInfo
    read_core info = record info {
      version = library.value_int (library.get_object_item core_json (codes "version")) % 2 ^ 32;
      nonce =
          library.atol (library.value_string (library.get_object_item core_json (codes "nonce")));
      gas_limit =
          library.atol
            (library.value_string (library.get_object_item core_json (codes "gasLimit")));
    }

    abbrev pub read_inner : ActionInfo → ActionInfo
    read_inner info =
        record (read_array recipient (read_array amount (read_array gas_price info))) {
          payload = library.value_string (library.get_object_item inner_json payload_key);
        }

    abbrev pub read_block : ActionInfo → ActionInfo
    read_block info =
        record (read_array timestamp (read_array block_hash (read_array action_hash info))) {
          block_height =
              library.value_string (library.get_object_item info_json (codes "blkHeight"));
        }

    abbrev pub read_fee : ActionInfo → ActionInfo
    read_fee info = read_array gas_fee (read_array sender info)

    abbrev pub read_all : ActionInfo → ActionInfo
    read_all info = read_fee (read_block (read_inner (read_core (read_signer (clear_fields info)))))

    pub read_all-IsRead : (info : ActionInfo) → IsRead (read_all info)
    unfolding set_array
    read_all-IsRead info = record {
      arrays_lem = read_arrays;
      version_lem = refl;
      nonce_lem = refl;
      gas_limit_lem = refl;
      payload_lem = refl;
      block_height_lem = refl;
    }
      where
        read_arrays :
            (member : CharArray)
            → (read_all info).arrays member
              ≡ in_array (size_of member) (library.value_string (array_json member))
        read_arrays action_hash = refl
        read_arrays block_hash = refl
        read_arrays timestamp = refl
        read_arrays sender = refl
        read_arrays gas_fee = refl
        read_arrays sender_public_key = refl
        read_arrays signature = refl
        read_arrays gas_price = refl
        read_arrays amount = refl
        read_arrays recipient = refl
