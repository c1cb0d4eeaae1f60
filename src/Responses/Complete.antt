-- ===== src/Responses/Complete.antt =====
-- What the fromJson methods of an action return for a complete answer.
use iotex_arduino.Base.{ℕ, ◌≡◌, refl, List}
use iotex_arduino.Base.{some, codes}
use iotex_arduino.ResultCode.{success}
use iotex_arduino.Json.{JsonLibrary}
use iotex_arduino.Responses.{ActionInfo}
use iotex_arduino.Responses.{transfer_from_json, execution_from_json}
use iotex_arduino.Responses.Values.{IsActionJson, IsRead}
use iotex_arduino.Responses.Values.{}
use iotex_arduino.Responses.Values.{read_all, read_all-IsRead}
use iotex_arduino.Responses.Passed.{}
use iotex_arduino.Responses.Reading.{action_from_json_lem}

-- When the JSON value of the text is an answer with one object for each part of a transfer, texts of at
-- most their sizes for the character arrays, a number for the version, a text of digits for the nonce,
-- and texts for the gas limit, the payload and the height, GetActionResponse_Transfer::fromJson returns
-- SUCCESS and the action has the values of all these members, whatever it held before: each array the
-- text with zeroes behind it, the version of 32 bits, and `atol` of the texts of the two numbers.
pub transfer_from_json_lem :
    (library : JsonLibrary) (json_string : List ℕ) (info : ActionInfo)
    → IsActionJson library
        (library.parse json_string)
        (codes "transfer")
        (codes "recipient")
        (codes "payload")
    → (info' : ActionInfo) × (transfer_from_json library json_string info ≡ some (success, info'))
      × IsRead library
          (library.parse json_string)
          (codes "transfer")
          (codes "recipient")
          (codes "payload")
          info'
unfolding transfer_from_json
transfer_from_json_lem library json_string info is_action =
    let root : library.Json = library.parse json_string in
    (
      read_all library root (codes "transfer") (codes "recipient") (codes "payload") info,
      action_from_json_lem library root (codes "transfer") (codes "recipient") (codes "payload")
          is_action json_string info refl,
      read_all-IsRead library root (codes "transfer") (codes "recipient") (codes "payload") info,
    )

-- The same for GetActionResponse_Execution::fromJson, whose object is `execution`, with the members
-- `contract` and `data`: it returns SUCCESS and the action has the values of all its members.
pub execution_from_json_lem :
    (library : JsonLibrary) (json_string : List ℕ) (info : ActionInfo)
    → IsActionJson library
        (library.parse json_string)
        (codes "execution")
        (codes "contract")
        (codes "data")
    → (info' : ActionInfo) × (execution_from_json library json_string info ≡ some (success, info'))
      × IsRead library
          (library.parse json_string)
          (codes "execution")
          (codes "contract")
          (codes "data")
          info'
unfolding execution_from_json
execution_from_json_lem library json_string info is_action =
    let root : library.Json = library.parse json_string in
    (
      read_all library root (codes "execution") (codes "contract") (codes "data") info,
      action_from_json_lem library root (codes "execution") (codes "contract") (codes "data")
          is_action json_string info refl,
      read_all-IsRead library root (codes "execution") (codes "contract") (codes "data") info,
    )
