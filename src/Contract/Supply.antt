-- ===== src/Contract/Supply.antt =====
-- The loops of generateCallData over the inputs, on arguments that the dictionary holds.
use iotex_arduino.Base.{ℕ, ◌≡◌, refl, sym, ap, ◌∙◌, arith}
use iotex_arduino.Base.{List, [], ◌∷◌, ◌++◌, Bool, true, false, some, append_assoc}
use iotex_arduino.Base.{append-nil}
use iotex_arduino.Abi.{InputOutputAbi, ParameterValue, input_is_dynamic}
use iotex_arduino.Contract.Params.{Emission, generate_bytes_for_parameter}
use iotex_arduino.Contract.CallData.{ParameterValuesDictionary, get_parameter}
use iotex_arduino.Contract.CallData.{encoded, encode_inputs}
use iotex_arduino.Contract.CallData.{append_static, append_dynamic}
use iotex_arduino.Contract.Arguments.{Argument, uint_argument, int_argument, address_argument}
use iotex_arduino.Contract.Arguments.{bytes_static_argument, bytes_dynamic_argument}
use iotex_arduino.Contract.Arguments.{string_argument, IsValid, parameter_of, argument_type}
use iotex_arduino.Contract.Arguments.{is_dynamic, encoding, flat_argument}

-- Each input has an argument of its type under its name.
abbrev pub Supplies : ParameterValuesDictionary → List InputOutputAbi → List Argument → Type 0
Supplies params [] [] = Unit
Supplies params (input ∷ inputs) (a ∷ arguments) =
    (input.type ≡ argument_type a)
    × (get_parameter params input.name ≡ some (parameter_of a))
    × IsValid a
    × Supplies params inputs arguments
Supplies params [] (a ∷ arguments) = ⊥
Supplies params (input ∷ inputs) [] = ⊥

-- The encodings of the arguments that are dynamic, or of those that are not.
abbrev pub encodings : Bool → List Argument → List ℕ
encodings dynamic [] = []
encodings true (a ∷ arguments) = elim (is_dynamic a) [
  | true ↦ encoding a ++ encodings true arguments
  | false ↦ encodings true arguments
]
encodings false (a ∷ arguments) = elim (is_dynamic a) [
  | true ↦ encodings false arguments
  | false ↦ encoding a ++ encodings false arguments
]

input_is_dynamic_lem :
    (input : InputOutputAbi) (a : Argument)
    → input.type ≡ argument_type a
    → input_is_dynamic input ≡ is_dynamic a
unfolding input_is_dynamic
input_is_dynamic_lem input (uint_argument value) e = ground (arith, e)
input_is_dynamic_lem input (int_argument value) e = ground (arith, e)
input_is_dynamic_lem input (address_argument bytes) e = ground (arith, e)
input_is_dynamic_lem input (bytes_static_argument bytes) e = ground (arith, e)
input_is_dynamic_lem input (bytes_dynamic_argument bytes) e = ground (arith, e)
input_is_dynamic_lem input (string_argument text) e = ground (arith, e)

append_static-step :
    (input : InputOutputAbi) (inputs : List InputOutputAbi) (a : Argument)
    (arguments : List Argument) (n : ℕ) (emissions : List Emission)
    → input_is_dynamic input ≡ is_dynamic a
    → ((d : List ℕ) → append_static inputs emissions d ≡ d ++ encodings false arguments)
    → (d : List ℕ)
    → append_static (input ∷ inputs) ((n, encoding a) ∷ emissions) d
      ≡ d ++ encodings false (a ∷ arguments)
unfolding append_static
append_static-step input inputs a arguments n emissions e rest d =
    ground (
      arith,
      rest d,
      rest (d ++ encoding a),
      append_assoc d (encoding a) (encodings false arguments),
    )

append_dynamic-step :
    (input : InputOutputAbi) (inputs : List InputOutputAbi) (a : Argument)
    (arguments : List Argument) (n : ℕ) (emissions : List Emission)
    → input_is_dynamic input ≡ is_dynamic a
    → ((d : List ℕ) → append_dynamic inputs emissions d ≡ d ++ encodings true arguments)
    → (d : List ℕ)
    → append_dynamic (input ∷ inputs) ((n, encoding a) ∷ emissions) d
      ≡ d ++ encodings true (a ∷ arguments)
unfolding append_dynamic
append_dynamic-step input inputs a arguments n emissions e rest d =
    ground (
      arith,
      rest d,
      rest (d ++ encoding a),
      append_assoc d (encoding a) (encodings true arguments),
    )

encode_inputs-step :
    (params : ParameterValuesDictionary) (input : InputOutputAbi) (inputs : List InputOutputAbi)
    (value : ParameterValue) (e : Emission) (emissions : List Emission)
    → get_parameter params input.name ≡ some value
    → generate_bytes_for_parameter value input.type [] ≡ some e
    → encode_inputs params inputs ≡ some (encoded emissions)
    → encode_inputs params (input ∷ inputs) ≡ some (encoded (e ∷ emissions))
unfolding encode_inputs
encode_inputs-step params input inputs value e emissions p q r = ground (arith, p, q, r)

pub encode_inputs_lem :
    (params : ParameterValuesDictionary) (inputs : List InputOutputAbi) (arguments : List Argument)
    → Supplies params inputs arguments
    → (emissions : List Emission) × (encode_inputs params inputs ≡ some (encoded emissions))
      × ((d : List ℕ) → append_static inputs emissions d ≡ d ++ encodings false arguments)
      × ((d : List ℕ) → append_dynamic inputs emissions d ≡ d ++ encodings true arguments)
encode_inputs_lem params [] [] h = (
  [],
  unfold encode_inputs in refl,
  λ d. unfold append_static in sym (append-nil d),
  λ d. unfold append_dynamic in sym (append-nil d),
)
encode_inputs_lem params [] (a ∷ arguments) h = elim h [ ]
encode_inputs_lem params (input ∷ inputs) [] h = elim h [ ]
encode_inputs_lem params (input ∷ inputs) (a ∷ arguments) (t, p, v, h) =
    let rest = encode_inputs_lem params inputs arguments h in
    let flat = flat_argument a v in
    let emissions = rest.0 in
    let dynamic = input_is_dynamic_lem input a t in
    (
      (flat.0, encoding a) ∷ emissions,
      encode_inputs-step params input inputs (parameter_of a) (flat.0, encoding a) emissions p
          (ap (λ type. generate_bytes_for_parameter (parameter_of a) type []) t ∙ flat.1) rest.1,
      append_static-step input inputs a arguments flat.0 emissions dynamic rest.2,
      append_dynamic-step input inputs a arguments flat.0 emissions dynamic rest.3,
    )
