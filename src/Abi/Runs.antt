-- ===== src/Abi/Runs.antt =====
-- The theorems on types and documents at a concrete document.
use iotex_arduino.Base.{ℕ, zero, suc, ◌+◌, ◌≡◌, refl, arith, List, [], ◌∷◌, Bool, true, false}
use iotex_arduino.Base.{some, codes, text_eq, decimal, if◌then◌else◌}
use iotex_arduino.ResultCode.{success}
use iotex_arduino.Json.{JsonLibrary}
use iotex_arduino.Abi.{InputOutputAbi, FunctionAbi, unknown}
use iotex_arduino.Abi.Signature.{input_text}
use iotex_arduino.Abi.TypeText.{get_type_and_size_from_string}
use iotex_arduino.Abi.Canonical.{abi_of, uint_scalar, address_scalar, scalar}
use iotex_arduino.Abi.Canonical.{static_array, dynamic_array}
use iotex_arduino.Abi.RoundTrip.{parse-print_type}
use iotex_arduino.Abi.ArraySize.{two_digit_size}
use iotex_arduino.Abi.Parse.{parse_contract}
use iotex_arduino.Abi.ParseLaws.{FunctionSpec, HaveSignatures, parse_contract_lem}

abbrev unset_input : InputOutputAbi
unset_input = record {
  name = [];
  type = unknown;
  size_bytes = 77;
  array_type = unknown;
  array_type_size_bytes = 0;
  array_size = 99;
}

abbrev new_function : FunctionAbi
new_function = record {
  constant = false;
  inputs = [];
  name = [];
  outputs = [];
  state_mutability = [];
  payable = false;
}

-- A value, an array by its size and its elements.
data Value : Type 0 where
  null_value : Value
  text_value : List ℕ → Value
  list_value : ℕ → (ℕ → Value) → Value
  object_value : (List ℕ → Value) → Value

abbrev is_null_value : Value → Bool
is_null_value null_value = true
is_null_value _ = false

abbrev is_text_value : Value → Bool
is_text_value (text_value text) = true
is_text_value _ = false

abbrev is_list_value : Value → Bool
is_list_value (list_value n items) = true
is_list_value _ = false

abbrev is_object_value : Value → Bool
is_object_value (object_value members) = true
is_object_value _ = false

abbrev text_of_value : Value → List ℕ
text_of_value (text_value text) = text
text_of_value _ = []

abbrev member_of_value : Value → List ℕ → Value
member_of_value (object_value members) key = members key
member_of_value _ key = null_value

abbrev items_from : ℕ → ℕ → (ℕ → Value) → List Value
items_from zero i items = []
items_from (suc n) i items = items i ∷ items_from n (i + 1) items

abbrev items_of_value : Value → List Value
items_of_value (list_value n items) = items_from n 0 items
items_of_value _ = []

abbrev item_of_value : Value → ℕ → Value
item_of_value (list_value n items) i = items i
item_of_value _ i = null_value

-- `transfer(address,uint256[3])`, without outputs.
abbrev transfer_input : ℕ → Value
transfer_input zero = object_value (λ key.
    if text_eq key (codes "name") then text_value (codes "to") else text_value (codes "address"))
transfer_input (suc i) = object_value (λ key.
    if text_eq key (codes "name")
    then text_value (codes "values")
    else text_value (codes "uint256[3]"))

abbrev transfer_value : Value
transfer_value = object_value (λ key.
    if text_eq key (codes "type")
    then text_value (codes "function")
    else if text_eq key (codes "name")
    then text_value (codes "transfer")
    else if text_eq key (codes "inputs")
    then list_value 2 transfer_input
    else if text_eq key (codes "outputs")
    then list_value 0 transfer_input
    else null_value)

abbrev one_contract : JsonLibrary
one_contract = record {
  Json = Value;
  parse = λ text. list_value 1 (λ i. transfer_value);
  is_null = is_null_value;
  get_object_item = member_of_value;
  get_array_item = item_of_value;
  array_items = items_of_value;
  is_object = is_object_value;
  is_array = is_list_value;
  is_bool = λ json. false;
  is_string = is_text_value;
  is_number = λ json. false;
  value_string = text_of_value;
  value_int = λ json. 0;
  atol = λ text. 0;
}

abbrev transfer_spec : FunctionSpec
transfer_spec = record {
  name = codes "transfer";
  inputs =
      (codes "to", scalar address_scalar) ∷ (codes "values", static_array (uint_scalar 32) 3) ∷ [];
  outputs = [];
}

parse-print_type_example :
    (text : List ℕ) × (input_text (abi_of (dynamic_array (uint_scalar 16)) unset_input) ≡ some text)
    × (text ≡ codes "uint128[]")
    × (get_type_and_size_from_string text unset_input
        ≡ some (success, abi_of (dynamic_array (uint_scalar 16)) unset_input))
unfolding decimal
parse-print_type_example =
    parse-print_type (dynamic_array (uint_scalar 16)) unset_input unset_input
      (omega arith, omega arith) refl

two_digit_size_example :
    get_type_and_size_from_string (codes "uint256[12]") unset_input
    ≡ some (success, abi_of (static_array (uint_scalar 32) 1) unset_input)
unfolding decimal
two_digit_size_example =
    two_digit_size (uint_scalar 32) 12 unset_input (omega arith, omega arith) (omega arith)
      (omega arith)

parse_contract_lem_example :
    (functions : List FunctionAbi) × (parse_contract one_contract unset_input new_function
        (codes "[{...}]")
        []
      ≡ some (success, functions))
    × HaveSignatures functions (transfer_spec ∷ [])
unfolding text_eq decimal
parse_contract_lem_example =
    parse_contract_lem one_contract unset_input new_function (codes "[{...}]") []
      (transfer_spec ∷ []) refl refl refl
      (
        record {
          type_lem = record { is_string_lem = refl; value_lem = refl };
          name_lem = record { is_string_lem = refl; value_lem = refl };
          inputs_array = refl;
          outputs_array = refl;
          inputs_lem = (
            record { is_string_lem = refl; value_lem = refl },
            record { is_string_lem = refl; value_lem = refl },
            tt,
            (
              record { is_string_lem = refl; value_lem = refl },
              record { is_string_lem = refl; value_lem = refl },
              ((omega arith, omega arith), omega arith),
              tt,
            ),
          );
          outputs_lem = tt;
        },
        tt,
      )
