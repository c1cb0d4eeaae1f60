-- ===== src/Abi/ParseLaws.antt =====
-- parseContract on a document that describes functions by the texts of their types.
use iotex_arduino.Base.{ℕ, ◌≡◌, refl, sym, ap, ◌∙◌, arith, List, [], ◌∷◌, ◌++◌, true, false}
use iotex_arduino.Base.{Option, some, append-nil, append_assoc, codes, map, text_eq_refl}
use iotex_arduino.ResultCode.{ResultCode, success}
use iotex_arduino.Json.{JsonLibrary, accepts_string}
use iotex_arduino.Abi.{InputOutputAbi, FunctionAbi}
use iotex_arduino.Abi.Signature.{inputs_text, get_signature_text}
use iotex_arduino.Abi.Canonical.{AbiType, scalar, dynamic_array, static_array, IsAbiType, abi_of}
use iotex_arduino.Abi.Canonical.{type_text, uint_scalar, int_scalar, bytes_scalar, address_scalar}
use iotex_arduino.Abi.Canonical.{bool_scalar, string_scalar, bytes_dynamic_scalar}
use iotex_arduino.Abi.RoundTrip.{parse_type, print_type}
use iotex_arduino.Abi.Parse.{parsed, set_string, set_boolean}
use iotex_arduino.Abi.Parse.{new_input, parse_input_output, parse_each}
use iotex_arduino.Abi.Parse.{parse_function, parse_functions, parse_contract, is_tuple}

-- A parameter by its name and its type, and a function by its name, its inputs and its outputs.
abbrev pub ParameterSpec : Type 0
ParameterSpec = List ℕ × AbiType

pub record FunctionSpec : Type 0 where
  pub name : List ℕ
  pub inputs : List ParameterSpec
  pub outputs : List ParameterSpec

-- The text of the types with commas between them.
abbrev pub types_text : List ParameterSpec → List ℕ
types_text [] = []
types_text ((n, t) ∷ []) = type_text t
types_text ((n, t) ∷ p ∷ ps) = type_text t ++ (b',' ∷ types_text (p ∷ ps))

-- The signature of a function as the contract ABI defines it.
abbrev pub canonical_signature : FunctionSpec → List ℕ
canonical_signature f = f.name ++ (b'(' ∷ (types_text f.inputs ++ (b')' ∷ [])))

abbrev pub AllTypes : List ParameterSpec → Type 0
AllTypes [] = Unit
AllTypes ((n, t) ∷ ps) = IsAbiType t × AllTypes ps

-- One function for each description, with its name and its signature.
abbrev pub HaveSignatures : List FunctionAbi → List FunctionSpec → Type 0
HaveSignatures [] [] = Unit
HaveSignatures (function ∷ functions) (f ∷ fs) =
    (function.name ≡ f.name)
    × (get_signature_text function ≡ some (canonical_signature f))
    × HaveSignatures functions fs
HaveSignatures [] (f ∷ fs) = ⊥
HaveSignatures (function ∷ functions) [] = ⊥

module _ (library : JsonLibrary) where
  -- The member of the object is a string with the text.
  pub record HasText (json : library.Json) (key text : List ℕ) : Type 0 where
    pub is_string_lem : library.is_string (library.get_object_item json key) ≡ true
    pub value_lem : library.value_string (library.get_object_item json key) ≡ text

  abbrev pub Describes : List library.Json → List ParameterSpec → Type 0
  Describes [] [] = Unit
  Describes (json ∷ jsons) ((n, t) ∷ ps) =
      HasText json (codes "name") n
      × HasText json (codes "type") (type_text t)
      × IsAbiType t
      × Describes jsons ps
  Describes [] (p ∷ ps) = ⊥
  Describes (json ∷ jsons) [] = ⊥

  pub record DescribesFunction (json : library.Json) (f : FunctionSpec) : Type 0 where
    pub type_lem : HasText json (codes "type") (codes "function")
    pub name_lem : HasText json (codes "name") f.name
    pub inputs_array : library.is_array (library.get_object_item json (codes "inputs")) ≡ true
    pub outputs_array : library.is_array (library.get_object_item json (codes "outputs")) ≡ true
    pub inputs_lem :
        Describes (library.array_items (library.get_object_item json (codes "inputs"))) f.inputs
    pub outputs_lem :
        Describes (library.array_items (library.get_object_item json (codes "outputs"))) f.outputs

  abbrev pub DescribesAll : List library.Json → List FunctionSpec → Type 0
  DescribesAll [] [] = Unit
  DescribesAll (json ∷ jsons) (f ∷ fs) = DescribesFunction json f × DescribesAll jsons fs
  DescribesAll [] (f ∷ fs) = ⊥
  DescribesAll (json ∷ jsons) [] = ⊥

  set_string-HasText :
      (json : library.Json) (key text old : List ℕ)
      → HasText json key text
      → set_string library (library.get_object_item json key) old ≡ (success, text)
  unfolding set_string accepts_string
  set_string-HasText json key text old h = ground (arith, h.is_string_lem, h.value_lem)

not_tuple : (t : AbiType) (out : InputOutputAbi) → is_tuple (abi_of t out).type ≡ false
not_tuple (scalar (uint_scalar n)) out = refl
not_tuple (scalar (int_scalar n)) out = refl
not_tuple (scalar (bytes_scalar n)) out = refl
not_tuple (scalar address_scalar) out = refl
not_tuple (scalar bool_scalar) out = refl
not_tuple (scalar string_scalar) out = refl
not_tuple (scalar bytes_dynamic_scalar) out = refl
not_tuple (dynamic_array s) out = refl
not_tuple (static_array s k) out = refl

module _ (library : JsonLibrary) (unset : InputOutputAbi) where
  abbrev pub input_of : ParameterSpec → InputOutputAbi
  input_of (n, t) = abi_of t (record unset { name = n; array_type_size_bytes = 0 })

  parse_input :
      (json : library.Json) (n : List ℕ) (t : AbiType)
      → HasText library json (codes "name") n
      → HasText library json (codes "type") (type_text t)
      → IsAbiType t
      → parse_input_output library unset json (new_input library unset)
        ≡ some (success, input_of (n, t))
  unfolding parse_input_output
  parse_input json n t hn ht valid =
      let out : InputOutputAbi = record unset { name = n; array_type_size_bytes = 0 } in
      rw (set_string-HasText library json (codes "name") n [] hn) (
        rw (set_string-HasText library json (codes "type") (type_text t) [] ht)
          (rw (parse_type t out valid) (rw (not_tuple t out) refl)))

  parse_each-step :
      (json : library.Json) (jsons : List library.Json) (input : InputOutputAbi)
      (inputs : List InputOutputAbi)
      → parse_input_output library unset json (new_input library unset) ≡ some (success, input)
      → parse_each library unset jsons ≡ some (parsed inputs)
      → parse_each library unset (json ∷ jsons) ≡ some (parsed (input ∷ inputs))
  unfolding parse_each
  parse_each-step json jsons input inputs p q = ground (arith, p, q)

  parse_each_lem :
      (jsons : List library.Json) (ps : List ParameterSpec)
      → Describes library jsons ps
      → parse_each library unset jsons ≡ some (parsed (map input_of ps))
  parse_each_lem [] [] h = unfold parse_each in refl
  parse_each_lem [] (p ∷ ps) h = elim h [ ]
  parse_each_lem (json ∷ jsons) [] h = elim h [ ]
  parse_each_lem (json ∷ jsons) ((n, t) ∷ ps) (hn, ht, valid, h) =
      parse_each-step json jsons (input_of (n, t)) (map input_of ps)
        (parse_input json n t hn ht valid) (parse_each_lem jsons ps h)

  -- What the function is parsed to, by its name and its inputs.
  parse_function_lem :
      (json : library.Json) (f : FunctionSpec) (fresh : FunctionAbi)
      → fresh.inputs ≡ []
      → DescribesFunction library json f
      → (function : FunctionAbi) × (parse_function library unset json fresh
          ≡ some (success, function))
        × (function.name ≡ f.name)
        × (function.inputs ≡ map input_of f.inputs)
  unfolding parse_function
  parse_function_lem json f fresh empty d = (
    record {
      constant =
          (set_boolean library (library.get_object_item json (codes "constant")) fresh.constant).1;
      inputs = fresh.inputs ++ map input_of f.inputs;
      name = (set_string library (library.get_object_item json (codes "name")) fresh.name).1;
      outputs = fresh.outputs ++ map input_of f.outputs;
      state_mutability =
          (set_string library (library.get_object_item json (codes "stateMutability"))
            fresh.state_mutability).1;
      payable =
          (set_boolean library (library.get_object_item json (codes "payable")) fresh.payable).1;
    },
    rw d.inputs_array (
        rw (parse_each_lem _ f.inputs d.inputs_lem)
          (rw d.outputs_array (rw (parse_each_lem _ f.outputs d.outputs_lem) refl))),
    ap (λ r. r.1) (set_string-HasText library json (codes "name") f.name fresh.name d.name_lem),
    ap (λ t. t ++ map input_of f.inputs) empty,
  )

  inputs_text_lem :
      (ps : List ParameterSpec) → AllTypes ps → inputs_text (map input_of ps) ≡ some (types_text ps)
  unfolding inputs_text
  inputs_text_lem [] h = refl
  inputs_text_lem ((n, t) ∷ []) (valid, h) =
      print_type t (record unset { name = n; array_type_size_bytes = 0 }) valid refl
  inputs_text_lem ((n, t) ∷ p ∷ ps) (valid, h) =
      rw (print_type t (record unset { name = n; array_type_size_bytes = 0 }) valid refl)
        (rw (inputs_text_lem (p ∷ ps) h) refl)

  Describes-AllTypes :
      (jsons : List library.Json) (ps : List ParameterSpec)
      → Describes library jsons ps
      → AllTypes ps
  Describes-AllTypes jsons [] h = tt
  Describes-AllTypes [] (p ∷ ps) h = elim h [ ]
  Describes-AllTypes (json ∷ jsons) ((n, t) ∷ ps) (hn, ht, valid, h) =
      (valid, Describes-AllTypes jsons ps h)

  signature_lem :
      (function : FunctionAbi) (f : FunctionSpec)
      → AllTypes f.inputs
      → function.name ≡ f.name
      → function.inputs ≡ map input_of f.inputs
      → get_signature_text function ≡ some (canonical_signature f)
  unfolding get_signature_text
  signature_lem function f types name inputs =
      rw inputs (rw (inputs_text_lem f.inputs types) (rw name refl))

  parse_functions-step :
      (fresh function : FunctionAbi) (json : library.Json) (jsons : List library.Json)
      (out : List FunctionAbi) (result : Option (ResultCode × List FunctionAbi))
      → HasText library json (codes "type") (codes "function")
      → parse_function library unset json fresh ≡ some (success, function)
      → parse_functions library unset fresh jsons (out ++ (function ∷ [])) ≡ result
      → parse_functions library unset fresh (json ∷ jsons) out ≡ result
  unfolding parse_functions
  parse_functions-step fresh function json jsons out result t p q = ground (
    arith,
    set_string-HasText library json (codes "type") (codes "function") [] t,
    p,
    q,
    text_eq_refl (codes "function"),
  )

  parse_functions_lem :
      (fresh : FunctionAbi)
      → fresh.inputs ≡ []
      → (jsons : List library.Json) (fs : List FunctionSpec) (out : List FunctionAbi)
      → DescribesAll library jsons fs
      → (functions : List FunctionAbi) × (parse_functions library unset fresh jsons out
          ≡ some (success, out ++ functions))
        × HaveSignatures functions fs
  parse_functions_lem fresh empty [] [] out d =
      ([], (unfold parse_functions in ap (λ r. some (success, r)) (sym (append-nil out))), tt)
  parse_functions_lem fresh empty [] (f ∷ fs) out d = elim d [ ]
  parse_functions_lem fresh empty (json ∷ jsons) [] out d = elim d [ ]
  parse_functions_lem fresh empty (json ∷ jsons) (f ∷ fs) out (d, ds) =
      let (function, p, name, inputs) = parse_function_lem json f fresh empty d in
      let (functions, q, signatures) =
        parse_functions_lem fresh empty jsons fs (out ++ (function ∷ [])) ds in
      (
        function ∷ functions,
        parse_functions-step fresh function json jsons out _ d.type_lem p q
            ∙ ap (λ r. some (success, r)) (append_assoc out (function ∷ []) functions),
        (
          name,
          signature_lem function f (Describes-AllTypes _ f.inputs d.inputs_lem) name inputs,
          signatures,
        ),
      )

-- When the text of a contract parses to an array of function objects, each with a name and with
-- arrays of inputs and outputs that hold names and the texts of types of 1 to 32 bytes, address,
-- bool, string, bytes and arrays of these with sizes of one digit, parseContract succeeds, keeps the
-- functions that the vector held, and appends one function for each object, in their order, whose
-- name is the one in the document and whose getSignature is the name with the texts of the types in
-- parentheses, as the ABI of contracts defines it. A new FunctionAbi has no inputs.
pub parse_contract_lem :
    (library : JsonLibrary) (unset : InputOutputAbi) (fresh : FunctionAbi) (contract_abi : List ℕ)
    (out : List FunctionAbi) (fs : List FunctionSpec)
    → fresh.inputs ≡ []
    → library.is_null (library.parse contract_abi) ≡ false
    → library.is_array (library.parse contract_abi) ≡ true
    → DescribesAll library (library.array_items (library.parse contract_abi)) fs
    → (functions : List FunctionAbi) × (parse_contract library unset fresh contract_abi out
        ≡ some (success, out ++ functions))
      × HaveSignatures functions fs
unfolding parse_contract
parse_contract_lem library unset fresh contract_abi out fs empty present is_array d =
    let (functions, p, signatures) = parse_functions_lem library unset fresh empty _ fs out d in
    (functions, rw present (rw is_array p), signatures)
