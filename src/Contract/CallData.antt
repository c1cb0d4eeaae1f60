-- ===== src/Contract/CallData.antt =====
-- generateCallData, generateFunctionSelector and ParameterValuesDictionary of
-- src/contract/contract.cpp. A `none` stands for a read of what was never written.
use iotex_arduino.Base.{ℕ, List, [], ◌∷◌, ◌++◌, Bool, true, false, Option, none, some, take}
use iotex_arduino.Base.{◌>>=◌, text_eq}
use iotex_arduino.ResultCode.{ResultCode, success, error_bad_parameter}
use iotex_arduino.Signer.{Crypto, get_hash}
use iotex_arduino.Helpers.{vector_to_hex_string}
use iotex_arduino.Abi.{InputOutputAbi, FunctionAbi, ParameterValue, input_is_dynamic}
use iotex_arduino.Abi.Signature.{get_signature_text}
use iotex_arduino.Contract.Params.{Emission, generate_bytes_for_parameter}

abbrev pub ParameterValuesDictionary : Type 0
ParameterValuesDictionary = List (List ℕ × ParameterValue)

-- GetParameter: `at` throws on a key that is missing.
unfoldable pub get_parameter : ParameterValuesDictionary → List ℕ → Option ParameterValue
get_parameter [] name = none
get_parameter ((key, value) ∷ dictionary) name = elim (text_eq key name) [
  | true ↦ some value
  | false ↦ get_parameter dictionary name
]

unfoldable pub contains_parameter : ParameterValuesDictionary → List ℕ → Bool
contains_parameter dictionary name = elim (get_parameter dictionary name) [
  | none ↦ false
  | some value ↦ true
]

-- `emplace` keeps the value of a key that is present.
unfoldable pub add_parameter :
    ParameterValuesDictionary → List ℕ → ParameterValue → ParameterValuesDictionary
add_parameter dictionary name value = elim (contains_parameter dictionary name) [
  | true ↦ dictionary
  | false ↦ (name, value) ∷ dictionary
]

-- What the first loop over the inputs ends with.
pub data Encoded : Type 0 where
  missing : Encoded
  encoded : List Emission → Encoded

abbrev pub add_emission : Emission → Encoded → Encoded
add_emission e missing = missing
add_emission e (encoded es) = encoded (e ∷ es)

-- The loop over the inputs, which returns at a parameter that the caller did not supply.
unfoldable pub encode_inputs : ParameterValuesDictionary → List InputOutputAbi → Option Encoded
encode_inputs params [] = some (encoded [])
encode_inputs params (input ∷ inputs) = elim (get_parameter params input.name) [
  | none ↦ some missing
  | some value ↦ do
    e ← generate_bytes_for_parameter value input.type []
    rest ← encode_inputs params inputs
    some (add_emission e rest)
]

-- The second loop. It computes the offset of a dynamic input and its word, and appends neither.
unfoldable pub append_static : List InputOutputAbi → List Emission → List ℕ → List ℕ
append_static (input ∷ inputs) ((size, current) ∷ emissions) contract_data =
    elim (input_is_dynamic input) [
      | true ↦ append_static inputs emissions contract_data
      | false ↦ append_static inputs emissions (contract_data ++ current)
    ]
append_static inputs emissions contract_data = contract_data

-- The third loop.
unfoldable pub append_dynamic : List InputOutputAbi → List Emission → List ℕ → List ℕ
append_dynamic (input ∷ inputs) ((size, current) ∷ emissions) contract_data =
    elim (input_is_dynamic input) [
      | true ↦ append_dynamic inputs emissions (contract_data ++ current)
      | false ↦ append_dynamic inputs emissions contract_data
    ]
append_dynamic inputs emissions contract_data = contract_data

module _ (crypto : Crypto) where
  -- `out` after the call.
  unfoldable pub generate_function_selector : FunctionAbi → List ℕ → Option (List ℕ)
  generate_function_selector function out = do
    sign ← get_signature_text function
    some (out ++ take 4 (get_hash crypto sign))

  -- The loop over the functions, which goes on after one that has the name. The result is the
  -- result code and `out`.
  unfoldable pub call_data_loop :
      List FunctionAbi
      → List ℕ
      → ParameterValuesDictionary
      → List ℕ
      → List ℕ
      → Option (ResultCode × List ℕ)
  call_data_loop [] name params contract_data out = some (success, out)
  call_data_loop (function ∷ functions) name params contract_data out =
      elim (text_eq function.name name) [
        | false ↦ call_data_loop functions name params contract_data out
        | true ↦ generate_function_selector function contract_data >>= λ selected.
            encode_inputs params function.inputs >>= λ result. elim result [
              | missing ↦ some (error_bad_parameter, vector_to_hex_string selected)
              | encoded emissions ↦
                  let with_static = append_static function.inputs emissions selected in
                  let filled = append_dynamic function.inputs emissions with_static in
                  call_data_loop functions name params filled (vector_to_hex_string filled)
            ]
      ]

  unfoldable pub generate_call_data :
      List FunctionAbi → List ℕ → ParameterValuesDictionary → List ℕ → Option (ResultCode × List ℕ)
  generate_call_data functions function_name params out =
      call_data_loop functions function_name params [] out
