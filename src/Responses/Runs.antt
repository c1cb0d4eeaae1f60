-- ===== src/Responses/Runs.antt =====
-- The theorems at a concrete JSON value.
use iotex_arduino.Base.{ℕ, ◌≡◌, refl, List, [], Bool, true, false}
use iotex_arduino.Base.{some, codes, text_eq, if◌then◌else◌}
use iotex_arduino.ResultCode.{ResultCode}
use iotex_arduino.Json.{JsonLibrary, accepts_string}
use iotex_arduino.Responses.AccountMeta.{AccountMeta, IsAccountMeta, account_from_json}
use iotex_arduino.Responses.AccountMeta.{account_from_json_lem}
use iotex_arduino.Responses.{ActionInfo, CharArray, size_of, transfer_from_json}
use iotex_arduino.ResultCode.{success}
use iotex_arduino.Base.{◌-◌}
use iotex_arduino.Responses.{is_numeric, action_hash, block_hash, timestamp, sender, gas_fee}
use iotex_arduino.Responses.{sender_public_key, signature, gas_price, amount, recipient}
use iotex_arduino.Responses.Values.{IsActionJson, IsRead, array_json}
use iotex_arduino.Responses.Complete.{transfer_from_json_lem}
use iotex_arduino.Base.{replicate, ◌++◌}
use iotex_arduino.Base.{IsTerminatedArray}
use iotex_arduino.Responses.Safety.{transfer_from_json_safe}

pub data Document : Type 0 where
  null_document : Document
  text_document : List ℕ → Document
  number_document : ℕ → Document
  flag_document : Bool → Document
  array_document : Document → Document
  object_document : (List ℕ → Document) → Document

abbrev pub has_object : Document → Bool
has_object (object_document members) = true
has_object _ = false

abbrev pub has_array : Document → Bool
has_array (array_document first) = true
has_array _ = false

abbrev pub has_text : Document → Bool
has_text (text_document text) = true
has_text _ = false

abbrev pub has_number : Document → Bool
has_number (number_document n) = true
has_number _ = false

abbrev pub has_flag : Document → Bool
has_flag (flag_document b) = true
has_flag _ = false

abbrev pub has_nothing : Document → Bool
has_nothing null_document = true
has_nothing _ = false

abbrev pub text_of : Document → List ℕ
text_of (text_document text) = text
text_of _ = []

abbrev pub number_of : Document → ℕ
number_of (number_document n) = n
number_of (flag_document true) = 1
number_of _ = 0

abbrev pub member_of : Document → List ℕ → Document
member_of (object_document members) key = members key
member_of _ key = null_document

abbrev pub first_of : Document → ℕ → Document
first_of (array_document first) i = first
first_of _ i = null_document

-- A member that is a number under `version`, an object under `key`, and a text otherwise.
abbrev pub members : List ℕ → Document → List ℕ → Document
members key inner name =
    if text_eq name key
    then inner
    else if text_eq name (codes "version")
    then number_document 1
    else text_document (codes "12")

-- An answer with an object under the key.
abbrev pub response_with : List ℕ → Document
response_with key =
    let transfer = object_document (members (codes "none") null_document) in
    let core = object_document (members key transfer) in
    let action = object_document (members (codes "core") core) in
    let info = object_document (members (codes "action") action) in
    object_document (members (codes "actionInfo") (array_document info))

abbrev pub documents : JsonLibrary
documents = record {
  Json = Document;
  parse = λ text. response_with (codes "transfer");
  is_null = has_nothing;
  get_object_item = member_of;
  get_array_item = first_of;
  array_items = λ json. [];
  is_object = has_object;
  is_array = has_array;
  is_bool = has_flag;
  is_string = has_text;
  is_number = has_number;
  value_string = text_of;
  value_int = number_of;
  atol = λ text. 12;
}

abbrev pub unwritten : ActionInfo
unwritten = record {
  arrays = λ member. [];
  version = 0;
  nonce = 0;
  gas_limit = 0;
  payload = [];
  block_height = [];
}

transfer_from_json_safe_example :
    (result : ResultCode × ActionInfo) × (transfer_from_json documents (codes "{}") unwritten
      ≡ some result)
    × ((member : CharArray) → IsTerminatedArray (size_of member) ((result.1).arrays member))
transfer_from_json_safe_example = transfer_from_json_safe documents (codes "{}") unwritten refl

-- A response to GetAccount in which every member that is a text is `12`.
abbrev pub account_members : List ℕ → Document
account_members name =
    if text_eq name (codes "isContract") then flag_document true else text_document (codes "12")

abbrev pub account_documents : JsonLibrary
account_documents = record documents {
  parse = λ text. object_document (λ name. object_document account_members);
}

abbrev pub unwritten_account : AccountMeta
unwritten_account = record {
  address = [];
  balance = [];
  nonce = [];
  pending_nonce = [];
  num_actions = [];
  is_contract = false;
}

account_from_json_lem_example :
    (r : ResultCode × AccountMeta) × (account_from_json account_documents
        (codes "{}")
        unwritten_account
      ≡ some r)
    × IsAccountMeta r.1
    × (r ≡ (
      success,
      record {
        address = codes "12" ++ replicate 40 0;
        balance = codes "12" ++ replicate 29 0;
        nonce = codes "12";
        pending_nonce = codes "12";
        num_actions = codes "12";
        is_contract = true;
      },
    ))
unfolding text_eq accepts_string
account_from_json_lem_example =
    account_from_json_lem account_documents (codes "{}") unwritten_account refl

-- The answer has every member.
pub documents-IsActionJson :
    IsActionJson documents
      (response_with (codes "transfer"))
      (codes "transfer")
      (codes "recipient")
      (codes "payload")
unfolding text_eq accepts_string is_numeric
documents-IsActionJson = record {
  not_null = refl;
  info_array = refl;
  info_object = refl;
  action_object = refl;
  core_object = refl;
  inner_object = refl;
  arrays_accepted = accepted;
  version_number = refl;
  nonce_accepted = refl;
  nonce_numeric = refl;
  gas_limit_accepted = refl;
  payload_accepted = refl;
  block_height_accepted = refl;
}
  where
    accepted :
        (member : CharArray)
        → accepts_string documents
            (array_json documents
              (response_with (codes "transfer"))
              (codes "transfer")
              (codes "recipient")
              (codes "payload")
              member)
            (size_of member - 1)
          ≡ true
    accepted action_hash = refl
    accepted block_hash = refl
    accepted timestamp = refl
    accepted sender = refl
    accepted gas_fee = refl
    accepted sender_public_key = refl
    accepted signature = refl
    accepted gas_price = refl
    accepted amount = refl
    accepted recipient = refl

transfer_from_json_lem_example :
    (info' : ActionInfo) × (transfer_from_json documents (codes "{}") unwritten
      ≡ some (success, info'))
    × IsRead documents
        (response_with (codes "transfer"))
        (codes "transfer")
        (codes "recipient")
        (codes "payload")
        info'
transfer_from_json_lem_example =
    transfer_from_json_lem documents (codes "{}") unwritten documents-IsActionJson
