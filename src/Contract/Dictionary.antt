-- ===== src/Contract/Dictionary.antt =====
-- ParameterValuesDictionary, and the call that lacks a parameter.
use iotex_arduino.Base.{ℕ, ◌≡◌, ap, ◌∙◌, arith, List, [], ◌∷◌, ◌++◌}
use iotex_arduino.Base.{none, some, take, text_eq}
use iotex_arduino.Base.{◌&&◌, not, if◌then◌else◌}
use iotex_arduino.ResultCode.{error_bad_parameter}
use iotex_arduino.Signer.{Crypto, get_hash}
use iotex_arduino.Signer.Hex.{hex_text}
use iotex_arduino.Helpers.{vector_to_hex_string_lem}
use iotex_arduino.Abi.{InputOutputAbi, FunctionAbi, ParameterValue}
use iotex_arduino.Abi.Signature.{get_signature_text}
use iotex_arduino.Contract.Params.{Emission, generate_bytes_for_parameter}
use iotex_arduino.Contract.CallData.{ParameterValuesDictionary, get_parameter, add_parameter}
use iotex_arduino.Contract.CallData.{contains_parameter, missing, encode_inputs}
use iotex_arduino.Contract.CallData.{generate_call_data}
use iotex_arduino.Contract.Arguments.{Argument, parameter_of, flat_argument}
use iotex_arduino.Contract.Supply.{Supplies}
use iotex_arduino.Contract.CallDataLaws.{OthersOnly, loop-skip, loop-missing, selector_lem}

get_parameter-found :
    (dictionary : ParameterValuesDictionary) (key name : List ℕ) (value : ParameterValue)
    → get_parameter ((key, value) ∷ dictionary) name
      ≡ (if text_eq key name then some value else get_parameter dictionary name)
unfolding get_parameter
get_parameter-found dictionary key name value = ground arith

-- After AddParameter of a name and a value, GetParameter of that name gives the value that the
-- dictionary had before, or the added one when it had none, and of each other name what it gave
-- before.
pub get_parameter-add_parameter :
    (dictionary : ParameterValuesDictionary) (name other : List ℕ) (value : ParameterValue)
    → get_parameter (add_parameter dictionary name value) other ≡ (
        if text_eq name other && not (contains_parameter dictionary name)
        then some value
        else get_parameter dictionary other)
unfolding add_parameter contains_parameter
get_parameter-add_parameter dictionary name other value =
    ground (arith, get_parameter-found dictionary name other value)

missing-step :
    (params : ParameterValuesDictionary) (input : InputOutputAbi) (inputs : List InputOutputAbi)
    (value : ParameterValue) (e : Emission)
    → get_parameter params input.name ≡ some value
    → generate_bytes_for_parameter value input.type [] ≡ some e
    → encode_inputs params inputs ≡ some missing
    → encode_inputs params (input ∷ inputs) ≡ some missing
unfolding encode_inputs
missing-step params input inputs value e p q r = ground (arith, p, q, r)

encode_inputs-missing :
    (params : ParameterValuesDictionary) (inputs rest : List InputOutputAbi)
    (absent : InputOutputAbi) (arguments : List Argument)
    → Supplies params inputs arguments
    → get_parameter params absent.name ≡ none
    → encode_inputs params (inputs ++ (absent ∷ rest)) ≡ some missing
encode_inputs-missing params [] rest absent [] h m = unfold encode_inputs in ground (arith, m)
encode_inputs-missing params [] rest absent (a ∷ arguments) h m = elim h [ ]
encode_inputs-missing params (input ∷ inputs) rest absent [] h m = elim h [ ]
encode_inputs-missing params (input ∷ inputs) rest absent (a ∷ arguments) (t, p, v, h) m =
    let flat = flat_argument a v in
    missing-step params input (inputs ++ (absent ∷ rest)) (parameter_of a) _ p
      (ap (λ type. generate_bytes_for_parameter (parameter_of a) type []) t ∙ flat.1)
      (encode_inputs-missing params inputs rest absent arguments h m)

-- When the first function of the name has an input that the dictionary lacks, behind inputs that it
-- supplies with valid arguments, generateCallData returns ERROR_BAD_PARAMETER and leaves the
-- hexadecimal form of the selector.
pub missing_parameter_lem :
    (crypto : Crypto) (before after : List FunctionAbi) (f : FunctionAbi)
    (params : ParameterValuesDictionary) (inputs rest : List InputOutputAbi)
    (absent : InputOutputAbi) (arguments : List Argument) (sign out : List ℕ)
    → OthersOnly f.name before
    → get_signature_text f ≡ some sign
    → f.inputs ≡ inputs ++ (absent ∷ rest)
    → Supplies params inputs arguments
    → get_parameter params absent.name ≡ none
    → generate_call_data crypto (before ++ (f ∷ after)) f.name params out
      ≡ some (error_bad_parameter, hex_text (take 4 (get_hash crypto sign)))
unfolding generate_call_data
missing_parameter_lem crypto before after f params inputs rest absent arguments sign out hb s e h
      m =
    loop-skip crypto before (f ∷ after) f.name params [] out hb
    ∙ loop-missing crypto f after params _ out (selector_lem crypto f sign s) (
        ap (encode_inputs params) e ∙ encode_inputs-missing params inputs rest absent arguments h m)
    ∙ ap (λ t. some (error_bad_parameter, t)) (vector_to_hex_string_lem _)
