-- ===== src/Abi/Signature.antt =====
-- FunctionAbi::getSignature of src/abi/abi.cpp. A `none` stands for a read behind the table of names.
use iotex_arduino.Base.{print_int, ℕ, ◌*◌, ◌%◌, ◌^◌, List, [], ◌∷◌, ◌++◌, Bool, true, false}
use iotex_arduino.Base.{◌>>=◌, Option, none, some, ltb, if◌then◌else◌, codes, decimal}
use iotex_arduino.Abi.{EthereumTypeName, uint, int, address, bool, fixed, ufixed, bytes_static}
use iotex_arduino.Abi.{string, bytes_dynamic, array_static, array_dynamic}
use iotex_arduino.Abi.{unknown, InputOutputAbi, FunctionAbi}

-- EthereumTypeNameToStringLT, which has no entry for UNKNOWN.
unfoldable pub type_name_to_string : EthereumTypeName → Option (List ℕ)
type_name_to_string uint = some (codes "uint")
type_name_to_string int = some (codes "int")
type_name_to_string address = some (codes "address")
type_name_to_string bool = some (codes "bool")
type_name_to_string fixed = some (codes "fixed")
type_name_to_string ufixed = some (codes "ufixed")
type_name_to_string bytes_static = some (codes "bytes")
type_name_to_string string = some (codes "string")
type_name_to_string bytes_dynamic = some (codes "bytes")
type_name_to_string unknown = none
type_name_to_string _ = some []

abbrev pub is_integer_type : EthereumTypeName → Bool
is_integer_type uint = true
is_integer_type int = true
is_integer_type _ = false

-- The size behind the element type of an array, when there is one.
unfoldable pub array_type_size : InputOutputAbi → List ℕ
array_type_size input =
    let size = input.array_type_size_bytes in
    if ltb 0 size then decimal (if is_integer_type input.array_type then size * 8 else size) else []

unfoldable pub array_text : InputOutputAbi → List ℕ → List ℕ
array_text input bound = array_type_size input ++ (b'[' ∷ (bound ++ (b']' ∷ [])))

-- What the switch appends behind the name of the type.
unfoldable pub type_suffix : InputOutputAbi → EthereumTypeName → Option (List ℕ)
type_suffix input uint = some (print_int (input.size_bytes * 8 % 2 ^ 32))
type_suffix input int = some (print_int (input.size_bytes * 8 % 2 ^ 32))
type_suffix input bytes_static = some (print_int input.size_bytes)
type_suffix input array_static = do
  name ← type_name_to_string input.array_type
  some (name ++ array_text input (print_int input.array_size))
type_suffix input array_dynamic = do
  name ← type_name_to_string input.array_type
  some (name ++ array_text input [])
type_suffix input type = some []

unfoldable pub input_text : InputOutputAbi → Option (List ℕ)
input_text input = do
  name ← type_name_to_string input.type
  suffix ← type_suffix input input.type
  some (name ++ suffix)

-- The loop over the inputs, with a comma behind each but the last.
unfoldable pub inputs_text : List InputOutputAbi → Option (List ℕ)
inputs_text [] = some []
inputs_text (input ∷ []) = input_text input
inputs_text (input ∷ next ∷ inputs) = do
  text ← input_text input
  rest ← inputs_text (next ∷ inputs)
  some (text ++ (b',' ∷ rest))

unfoldable pub get_signature_text : FunctionAbi → Option (List ℕ)
get_signature_text function = do
  text ← inputs_text function.inputs
  some (function.name ++ (b'(' ∷ (text ++ (b')' ∷ []))))
