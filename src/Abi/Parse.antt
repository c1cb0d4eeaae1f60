-- ===== src/Abi/Parse.antt =====
-- parseContract, parseFunction and parseInputOutput of src/abi/abi.cpp over the JSON library, with
-- the SetValueFromJsonObject of src/helpers/json_helper.cpp. A `none` is that of getTypeAndSizeFromString.
use iotex_arduino.Base.{ℕ, List, [], ◌∷◌, ◌++◌, Bool, true, false, not, ◌==◌, Option, none, some}
use iotex_arduino.Base.{◌>>=◌, if◌then◌else◌, codes, text_eq}
use iotex_arduino.ResultCode.{is_success, ResultCode, success, error_json_parse, error_wrong_type}
use iotex_arduino.Json.{JsonLibrary, accepts_string}
use iotex_arduino.Abi.{EthereumTypeName, tuple_dynamic, tuple_static, InputOutputAbi, FunctionAbi}
use iotex_arduino.Abi.TypeText.{get_type_and_size_from_string}

abbrev pub is_tuple : EthereumTypeName → Bool
is_tuple tuple_dynamic = true
is_tuple tuple_static = true
is_tuple _ = false

-- The result of a loop that returns at the first element that fails, with what it appended.
pub data Parsed {ℓ} (A : Type ℓ) : Type ℓ where
  rejected : A → Parsed A
  parsed : A → Parsed A

abbrev pub push_front {ℓ} : {A : Type ℓ} → A → Parsed (List A) → Parsed (List A)
push_front x (rejected xs) = rejected (x ∷ xs)
push_front x (parsed xs) = parsed (x ∷ xs)

module _ (library : JsonLibrary) where
  -- SetValueFromJsonObject for a STRING and for a BOOLEAN, on what `pData` points to.
  unfoldable pub set_string : library.Json → List ℕ → ResultCode × List ℕ
  set_string json old =
      if accepts_string library json 0
      then (success, library.value_string json)
      else (error_json_parse, old)

  unfoldable pub set_boolean : library.Json → Bool → ResultCode × Bool
  set_boolean json old =
      if library.is_bool json
      then (success, not (library.value_int json == 0))
      else (error_json_parse, old)

-- `unset` is what the members that no constructor sets hold in a new object.
module _ (library : JsonLibrary) (unset : InputOutputAbi) where
  abbrev pub new_input : InputOutputAbi
  new_input = record unset { name = []; array_type_size_bytes = 0 }

  abbrev pub reject_tuple : ResultCode × InputOutputAbi → ResultCode × InputOutputAbi
  reject_tuple (ret, out) =
      if is_success ret
      then if is_tuple out.type then (error_wrong_type, out) else (success, out)
      else (ret, out)

  unfoldable pub parse_input_output :
      library.Json → InputOutputAbi → Option (ResultCode × InputOutputAbi)
  parse_input_output json out =
      let name = set_string library (library.get_object_item json (codes "name")) out.name in
      let type = set_string library (library.get_object_item json (codes "type")) [] in
      if not (is_success name.0)
      then some (name.0, out)
      else if not (is_success type.0)
      then some (type.0, record out { name = name.1 })
      else do
        typed ← get_type_and_size_from_string type.1 (record out { name = name.1 })
        some (reject_tuple typed)

  unfoldable pub parse_each : List library.Json → Option (Parsed (List InputOutputAbi))
  parse_each [] = some (parsed [])
  parse_each (json ∷ jsons) = elim (parse_input_output json new_input) [
    | none ↦ none
    | some (ret, input) ↦ elim (is_success ret) [
      | false ↦ some (rejected [])
      | true ↦ elim (parse_each jsons) [ none ↦ none | some rest ↦ some (push_front input rest) ]
    ]
  ]

  -- The errors of the four members that are no arrays are dropped.
  unfoldable pub parse_function : library.Json → FunctionAbi → Option (ResultCode × FunctionAbi)
  parse_function json out =
      let get = library.get_object_item json in
      let constant = (set_boolean library (get (codes "constant")) out.constant).1 in
      let name = (set_string library (get (codes "name")) out.name).1 in
      let payable = (set_boolean library (get (codes "payable")) out.payable).1 in
      let mutability =
        (set_string library (get (codes "stateMutability")) out.state_mutability).1 in
      let named = record out { constant = constant; name = name } in
      if not (library.is_array (get (codes "inputs")))
      then some (error_json_parse, named)
      else elim (parse_each (library.array_items (get (codes "inputs")))) [
        | none ↦ none
        | some (rejected inputs) ↦
            some (error_json_parse, record named { inputs = out.inputs ++ inputs })
        | some (parsed inputs) ↦
            if not (library.is_array (get (codes "outputs")))
            then some (error_json_parse, record named { inputs = out.inputs ++ inputs })
            else elim (parse_each (library.array_items (get (codes "outputs")))) [
              | none ↦ none
              | some (rejected outputs) ↦ some (
                error_json_parse,
                record named { inputs = out.inputs ++ inputs; outputs = out.outputs ++ outputs },
              )
              | some (parsed outputs) ↦ some (
                success,
                record named {
                  inputs = out.inputs ++ inputs;
                  outputs = out.outputs ++ outputs;
                  payable = payable;
                  state_mutability = mutability;
                },
              )
            ]
      ]

  -- The loop over the elements of the document. `fresh` is a new FunctionAbi and `out` is what was
  -- pushed before.
  unfoldable pub parse_functions :
      FunctionAbi → List library.Json → List FunctionAbi → Option (ResultCode × List FunctionAbi)
  parse_functions fresh [] out = some (success, out)
  parse_functions fresh (json ∷ jsons) out =
      let type = set_string library (library.get_object_item json (codes "type")) [] in
      elim (is_success type.0) [
        | false ↦ some (error_json_parse, out)
        | true ↦ elim (text_eq type.1 (codes "function")) [
          | false ↦ parse_functions fresh jsons out
          | true ↦ elim (parse_function json fresh) [
            | none ↦ none
            | some (ret, function) ↦ elim (is_success ret) [
              | false ↦ some (error_json_parse, out)
              | true ↦ parse_functions fresh jsons (out ++ (function ∷ []))
            ]
          ]
        ]
      ]

  unfoldable pub parse_contract :
      FunctionAbi → List ℕ → List FunctionAbi → Option (ResultCode × List FunctionAbi)
  parse_contract fresh contract_abi out =
      let root = library.parse contract_abi in
      if library.is_null root
      then some (error_json_parse, out)
      else if not (library.is_array root)
      then some (error_json_parse, out)
      else parse_functions fresh (library.array_items root) out
