-- ===== src/Abi.antt =====
-- The types of src/abi/abi.h and the parameter makers of src/abi/abi.cpp.
pub mod Signature
pub mod TypeText
pub mod SizeText
pub mod Canonical
pub mod RoundTrip
pub mod ArraySize
pub mod Parse
pub mod ParseLaws
mod Runs
use iotex_arduino.Base.{ℕ, zero, suc, ◌+◌, ◌*◌, ◌/◌, ◌%◌, ◌^◌, List, [], ◌∷◌, Bool, true, false}
use iotex_arduino.Base.{◌||◌, length, if◌then◌else◌}
use iotex_arduino.ResultCode.{eth_address_size}

pub data EthereumTypeName : Type 0 where
  uint int address bool fixed ufixed bytes_static string bytes_dynamic : EthereumTypeName
  array_static array_dynamic tuple_static tuple_dynamic unknown : EthereumTypeName

pub record InputOutputAbi : Type 0 where
  pub name : List ℕ
  pub type : EthereumTypeName
  pub size_bytes : ℕ
  pub array_type : EthereumTypeName
  pub array_type_size_bytes : ℕ
  pub array_size : ℕ

abbrev pub is_dynamic_type : EthereumTypeName → Bool
is_dynamic_type bytes_dynamic = true
is_dynamic_type string = true
is_dynamic_type array_dynamic = true
is_dynamic_type tuple_dynamic = true
is_dynamic_type _ = false

abbrev pub is_array_static : EthereumTypeName → Bool
is_array_static array_static = true
is_array_static _ = false

-- InputOutputAbi::IsDynamic
unfoldable pub input_is_dynamic : InputOutputAbi → Bool
input_is_dynamic input =
    if is_dynamic_type input.type
    then true
    else if is_array_static input.type
    then is_dynamic_type input.array_type
    else false

pub record FunctionAbi : Type 0 where
  pub constant : Bool
  pub inputs : List InputOutputAbi
  pub name : List ℕ
  pub outputs : List InputOutputAbi
  pub state_mutability : List ℕ
  pub payable : Bool

-- The union of ParameterValue by the member that was written: an integer by the eight bytes of the
-- union, lowest first, and a pointer by what it points to. `size` is the bit pattern of an int32_t.
mutual
  pub data ParameterValue : Type 0 where
    parameter : Value → ℕ → Bool → EthereumTypeName → ParameterValue

  pub data Value : Type 0 where
    integer : List ℕ → Value
    boolean : Bool → Value
    text : List ℕ → Value
    bytes : List ℕ → Value
    elements : Elements → Value

  pub data Elements : Type 0 where
    none_left : Elements
    element : ParameterValue → Elements → Elements

abbrev pub type_of : ParameterValue → EthereumTypeName
type_of (parameter value size is_big_int type) = type

-- ParameterValue::isDynamic
unfoldable pub parameter_is_dynamic : ParameterValue → Bool
parameter_is_dynamic p = is_dynamic_type (type_of p)

-- A number in `n` bytes, lowest first, as a little-endian machine stores it.
unfoldable pub stored : ℕ → ℕ → List ℕ
stored zero value = []
stored (suc n) value = value % 256 ∷ stored n (value / 256)

unfoldable pub make_param_uint : ℕ → ParameterValue
make_param_uint value = parameter (integer (stored 8 value)) 8 false uint

-- The argument is the bit pattern of an int64_t.
unfoldable pub make_param_int : ℕ → ParameterValue
make_param_int value = parameter (integer (stored 8 value)) 8 false int

unfoldable pub make_param_string : List ℕ → ParameterValue
make_param_string value = parameter (text value) (length value % 2 ^ 32) false string

unfoldable pub make_param_address : List ℕ → ParameterValue
make_param_address value = parameter (bytes value) eth_address_size false address

unfoldable pub make_param_bytes : List ℕ → ℕ → Bool → ParameterValue
make_param_bytes value size dynamic =
    parameter (bytes value) (size % 2 ^ 32) false (if dynamic then bytes_dynamic else bytes_static)
