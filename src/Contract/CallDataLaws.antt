-- ===== src/Contract/CallDataLaws.antt =====
-- generateCallData as a whole, on a contract with one function of the name.
use iotex_arduino.Base.{ℕ, ◌≡◌, refl, ap, ◌∙◌, arith, All}
use iotex_arduino.Base.{List, [], ◌∷◌, ◌++◌, true, false, some}
use iotex_arduino.Base.{take, text_eq, text_eq_refl}
use iotex_arduino.ResultCode.{success, error_bad_parameter}
use iotex_arduino.Signer.{Crypto, get_hash}
use iotex_arduino.Signer.Hex.{hex_text}
use iotex_arduino.Helpers.{vector_to_hex_string, vector_to_hex_string_lem}
use iotex_arduino.Abi.{FunctionAbi}
use iotex_arduino.Abi.Signature.{get_signature_text}
use iotex_arduino.Contract.Params.{Emission}
use iotex_arduino.Contract.CallData.{ParameterValuesDictionary}
use iotex_arduino.Contract.CallData.{missing, encoded, encode_inputs}
use iotex_arduino.Contract.CallData.{append_static, append_dynamic, generate_function_selector}
use iotex_arduino.Contract.CallData.{call_data_loop, generate_call_data}
use iotex_arduino.Contract.Arguments.{Argument}
use iotex_arduino.Contract.Supply.{Supplies, encodings, encode_inputs_lem}

abbrev pub OthersOnly : List ℕ → List FunctionAbi → Type 0
OthersOnly name functions = All (λ f. text_eq f.name name ≡ false) functions

loop-others :
    (crypto : Crypto) (functions : List FunctionAbi) (name : List ℕ)
    (params : ParameterValuesDictionary) (d out : List ℕ)
    → OthersOnly name functions
    → call_data_loop crypto functions name params d out ≡ some (success, out)
unfolding call_data_loop
loop-others crypto [] name params d out h = refl
loop-others crypto (f ∷ functions) name params d out (h, hs) =
    ground (arith, h, loop-others crypto functions name params d out hs)

pub loop-skip :
    (crypto : Crypto) (before functions : List FunctionAbi) (name : List ℕ)
    (params : ParameterValuesDictionary) (d out : List ℕ)
    → OthersOnly name before
    → call_data_loop crypto (before ++ functions) name params d out
      ≡ call_data_loop crypto functions name params d out
unfolding call_data_loop
loop-skip crypto [] functions name params d out h = refl
loop-skip crypto (f ∷ before) functions name params d out (h, hs) =
    ground (arith, h, loop-skip crypto before functions name params d out hs)

pub selector_lem :
    (crypto : Crypto) (f : FunctionAbi) (sign : List ℕ)
    → get_signature_text f ≡ some sign
    → generate_function_selector crypto f [] ≡ some (take 4 (get_hash crypto sign))
unfolding generate_function_selector
selector_lem crypto f sign h = ground (arith, h)

loop-found :
    (crypto : Crypto) (f : FunctionAbi) (after : List FunctionAbi)
    (params : ParameterValuesDictionary) (selector out : List ℕ) (emissions : List Emission)
    → generate_function_selector crypto f [] ≡ some selector
    → encode_inputs params f.inputs ≡ some (encoded emissions)
    → call_data_loop crypto (f ∷ after) f.name params [] out
      ≡ call_data_loop crypto after f.name params
          (append_dynamic f.inputs emissions (append_static f.inputs emissions selector))
          (vector_to_hex_string
            (append_dynamic f.inputs emissions (append_static f.inputs emissions selector)))
unfolding call_data_loop
loop-found crypto f after params selector out emissions s e =
    ground (arith, text_eq_refl f.name, s, e)

pub loop-missing :
    (crypto : Crypto) (f : FunctionAbi) (after : List FunctionAbi)
    (params : ParameterValuesDictionary) (selector out : List ℕ)
    → generate_function_selector crypto f [] ≡ some selector
    → encode_inputs params f.inputs ≡ some missing
    → call_data_loop crypto (f ∷ after) f.name params [] out
      ≡ some (error_bad_parameter, vector_to_hex_string selector)
unfolding call_data_loop
loop-missing crypto f after params selector out s e = ground (arith, text_eq_refl f.name, s, e)

-- On a contract with one function of the name, whose signature can be printed and whose inputs the
-- dictionary supplies with valid arguments of their types, static bytes of 1 to 32 and texts and
-- dynamic bytes of fewer than 2 ^ 24, generateCallData succeeds. Its text is
-- the hexadecimal form of the selector, the encodings of the static arguments and the encodings of
-- the dynamic ones, each in the order of the inputs.
pub call_data_lem :
    (crypto : Crypto) (before after : List FunctionAbi) (f : FunctionAbi)
    (params : ParameterValuesDictionary) (arguments : List Argument) (sign out : List ℕ)
    → OthersOnly f.name before
    → OthersOnly f.name after
    → get_signature_text f ≡ some sign
    → Supplies params f.inputs arguments
    → generate_call_data crypto (before ++ (f ∷ after)) f.name params out
      ≡ some (
        success,
        hex_text (
            (take 4 (get_hash crypto sign) ++ encodings false arguments)
            ++ encodings true arguments),
      )
unfolding generate_call_data
call_data_lem crypto before after f params arguments sign out hb ha s h =
    let selector = take 4 (get_hash crypto sign) in
    let es = encode_inputs_lem params f.inputs arguments h in
    let filled : append_dynamic f.inputs es.0 (append_static f.inputs es.0 selector)
        ≡ (selector ++ encodings false arguments) ++ encodings true arguments =
      ap (append_dynamic f.inputs es.0) (es.2 selector)
      ∙ es.3 (selector ++ encodings false arguments) in
    loop-skip crypto before (f ∷ after) f.name params [] out hb
    ∙ loop-found crypto f after params selector out es.0 (selector_lem crypto f sign s) es.1
    ∙ loop-others crypto after f.name params _ _ ha
    ∙ ap (λ t. some (success, t)) (vector_to_hex_string_lem _ ∙ ap hex_text filled)
