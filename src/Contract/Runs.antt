-- ===== src/Contract/Runs.antt =====
-- Concrete runs, and the theorems at concrete inputs.
use iotex_arduino.Base.{print_int, ℕ, ◌+◌, ◌≡◌, refl, List, [], ◌∷◌, ◌++◌, true, false}
use iotex_arduino.Base.{◌↔◌, All, none, some, codes, length, arith, replicate, text_eq}
use iotex_arduino.Base.{decimal, decimal_digits}
use iotex_arduino.ResultCode.{success}
use iotex_arduino.Signer.{Crypto, get_hash}
use iotex_arduino.Signer.Hex.{hex_text}
use iotex_arduino.Abi.{EthereumTypeName, InputOutputAbi, FunctionAbi}
use iotex_arduino.Abi.{make_param_uint, make_param_address, make_param_string}
use iotex_arduino.Abi.Signature.{get_signature_text, inputs_text, input_text}
use iotex_arduino.Abi.Signature.{type_name_to_string, type_suffix}
use iotex_arduino.Contract.CallData.{ParameterValuesDictionary, get_parameter}
use iotex_arduino.Contract.CallData.{generate_call_data}
use iotex_arduino.Contract.Words.{generate_bytes_for_static_bytes, groups_of_32, to_float, round_to}
use iotex_arduino.Contract.Words.{lost_digits}
use iotex_arduino.Contract.Arguments.{
  is_dynamic, Argument, uint_argument, address_argument, string_argument,
}
use iotex_arduino.Contract.Supply.{Supplies, encodings}
use iotex_arduino.Contract.CallDataLaws.{call_data_lem}
use iotex_arduino.Contract.AbiEncode.{abi_encode, call_data_short}

-- A hash that is the text itself.
abbrev plain : Crypto
plain = record {
  Context = List ℕ;
  init = [];
  update = λ c xs. c ++ xs;
  keccak_final = λ c. c;
  keccak_256 = λ xs. xs;
  public_key65 = λ key. key;
  sign_digest = λ key digest. (0, key ++ digest);
}

abbrev pub an_address : List ℕ
an_address = replicate 19 7 ++ (9 ∷ [])

abbrev pub an_input : List ℕ → EthereumTypeName → InputOutputAbi
an_input name type = record {
  name = name;
  type = type;
  size_bytes = 32;
  array_type = EthereumTypeName.unknown;
  array_type_size_bytes = 0;
  array_size = 0;
}

abbrev pub a_function : List ℕ → List InputOutputAbi → FunctionAbi
a_function name inputs = record {
  constant = false;
  inputs = inputs;
  name = name;
  outputs = [];
  state_mutability = codes "view";
  payable = false;
}

abbrev pub pay_inputs : List InputOutputAbi
pay_inputs =
    an_input (codes "to") EthereumTypeName.address ∷ an_input (codes "v") EthereumTypeName.uint ∷ []

abbrev pub pay : FunctionAbi
pay = a_function (codes "pay") pay_inputs

abbrev other : FunctionAbi
other = a_function (codes "other") []

abbrev greet : FunctionAbi
greet = a_function (codes "greet") (an_input (codes "text") EthereumTypeName.string ∷ [])

abbrev pub pay_arguments : List Argument
pay_arguments = address_argument an_address ∷ uint_argument 1000 ∷ []

abbrev pub pay_params : ParameterValuesDictionary
pay_params = (codes "v", make_param_uint 1000) ∷ (codes "to", make_param_address an_address) ∷ []

abbrev greet_params : ParameterValuesDictionary
greet_params = (codes "text", make_param_string (codes "hi")) ∷ []

pub pay_sign : get_signature_text pay ≡ some (codes "pay(address,uint256)")
unfolding get_signature_text inputs_text input_text type_name_to_string type_suffix print_int
    decimal decimal_digits
pay_sign = refl

greet_sign : get_signature_text greet ≡ some (codes "greet(string)")
unfolding get_signature_text inputs_text input_text type_name_to_string type_suffix
greet_sign = refl

pub pay_supplied : Supplies pay_params pay_inputs pay_arguments
unfolding get_parameter text_eq
pay_supplied = (refl, refl, refl, (refl, refl, omega arith, tt))

greet_supplied : Supplies greet_params greet.inputs (string_argument (codes "hi") ∷ [])
unfolding get_parameter text_eq
greet_supplied = (refl, refl, omega arith, tt)

call_data_lem_example :
    generate_call_data plain (greet ∷ []) (codes "greet") greet_params []
    ≡ some (
      success,
      hex_text (
          (codes "gree" ++ encodings false (string_argument (codes "hi") ∷ []))
          ++ encodings true (string_argument (codes "hi") ∷ [])),
    )
unfolding get_hash
call_data_lem_example =
    call_data_lem plain [] [] greet greet_params (string_argument (codes "hi") ∷ [])
      (codes "greet(string)") [] tt tt greet_sign greet_supplied

call_data_short_example :
    (text : List ℕ) × (generate_call_data plain (greet ∷ []) (codes "greet") greet_params []
      ≡ some (success, text))
    × (length text + 64
        ≡ length (hex_text (codes "gree" ++ abi_encode (string_argument (codes "hi") ∷ []))))
    × (text ≡ hex_text (codes "gree" ++ abi_encode (string_argument (codes "hi") ∷ []))
        ↔ All (λ a. is_dynamic a ≡ false) (string_argument (codes "hi") ∷ []))
unfolding get_hash
call_data_short_example =
    call_data_short plain [] [] greet greet_params (string_argument (codes "hi") ∷ [])
      (codes "greet(string)") [] tt tt greet_sign greet_supplied

abbrev minus_two : List ℕ
minus_two = 0xfe ∷ 0xff ∷ 0 ∷ 0 ∷ 0 ∷ 0 ∷ 0 ∷ 0 ∷ []

-- The float of 2 ^ 24 + 1 is 2 ^ 24, so the last of as many bytes is written behind the buffer. That of
-- 2 ^ 24 + 3 is 2 ^ 24 + 4.
static_bytes_behind : generate_bytes_for_static_bytes [] 16777217 ≡ none
unfolding generate_bytes_for_static_bytes groups_of_32 to_float round_to lost_digits
static_bytes_behind = refl

rounded_up : to_float 16777219 ≡ 16777220
unfolding to_float round_to lost_digits
rounded_up = refl
