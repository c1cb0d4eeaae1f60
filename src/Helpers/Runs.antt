-- ===== src/Helpers/Runs.antt =====
-- SetValueFromJsonObject for a number that is asked for as a list.
use iotex_arduino.Base.{ℕ, ◌≡◌, refl, [], ◌∷◌, true, false, some, codes}
use iotex_arduino.ResultCode.{success}
use iotex_arduino.Json.{JsonLibrary}
use iotex_arduino.Helpers.SetValue.{helper_set_value, response_set_value, array, uint8}
use iotex_arduino.Helpers.SetValue.{helper_accepts, helper_store_value}
use iotex_arduino.Helpers.SetValue.Agreement.{IsOutcome, helper_set_value-response_set_value}

-- A parser of one number.
abbrev numbers : JsonLibrary
numbers = record {
  Json = ℕ;
  parse = λ text. 7;
  is_null = λ json. false;
  get_object_item = λ json key. json;
  get_array_item = λ json i. json;
  array_items = λ json. json ∷ [];
  is_object = λ json. false;
  is_array = λ json. false;
  is_bool = λ json. false;
  is_string = λ json. false;
  is_number = λ json. true;
  value_string = λ json. codes "7";
  value_int = λ json. json;
  atol = λ text. 0;
}

helper_set_value-response_set_value_example :
    IsOutcome numbers array 7 (9 ∷ []) 0 (helper_set_value numbers array 7 (9 ∷ []) 0)
    × (response_set_value numbers array 7 (9 ∷ []) 0 ≡ some (success, 9 ∷ []))
helper_set_value-response_set_value_example =
    helper_set_value-response_set_value numbers array 7 (9 ∷ []) 0

-- The low byte of a number.
stored_byte : helper_set_value numbers uint8 263 1 0 ≡ some (success, 7)
unfolding helper_set_value helper_accepts helper_store_value
stored_byte = refl
