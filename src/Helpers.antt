-- ===== src/Helpers.antt =====
-- vectorToHexString and GetResultString of src/helpers/client_helper.cpp.
pub mod SetValue
pub mod JsonProp
pub mod JsonText
mod Runs
use iotex_arduino.Base.{ℕ, ◌/◌, ◌%◌, ◌≡◌, refl, ap, List, [], ◌∷◌}
use iotex_arduino.Base.{Option, none, some, codes}
use iotex_arduino.ResultCode.{
  ResultCode, success, error_http, error_json_parse, error_bad_parameter,
}
use iotex_arduino.ResultCode.{
  error_signature, error_unknown, error_storage_open, error_storage_bad_read,
}
use iotex_arduino.ResultCode.{error_storage_empty, error_grpc, error_wrong_type, values_count}
use iotex_arduino.Signer.{hex_digit}
use iotex_arduino.Signer.Hex.{hex_text}

-- `%02x` of each byte.
unfoldable pub vector_to_hex_string : List ℕ → List ℕ
vector_to_hex_string [] = []
vector_to_hex_string (b ∷ bytes) =
    hex_digit (b / 16) ∷ hex_digit (b % 16) ∷ vector_to_hex_string bytes

pub vector_to_hex_string_lem : (bytes : List ℕ) → vector_to_hex_string bytes ≡ hex_text bytes
unfolding vector_to_hex_string
vector_to_hex_string_lem [] = refl
vector_to_hex_string_lem (b ∷ bytes) =
    ap (λ t. hex_digit (b / 16) ∷ hex_digit (b % 16) ∷ t) (vector_to_hex_string_lem bytes)

-- The table of GetResultString. It has no entry for VALUES_COUNT.
unfoldable pub result_string : ResultCode → Option (List ℕ)
result_string success = some (codes "SUCCESS")
result_string error_http = some (codes "ERROR_HTTP")
result_string error_json_parse = some (codes "ERROR_JSON_PARSE")
result_string error_bad_parameter = some (codes "ERROR_BAD_PARAMETER")
result_string error_signature = some (codes "ERROR_SIGNATURE")
result_string error_unknown = some (codes "ERROR_UNKNOWN")
result_string error_storage_open = some (codes "ERROR_STORAGE_OPEN")
result_string error_storage_bad_read = some (codes "ERROR_STORAGE_BAD_READ")
result_string error_storage_empty = some (codes "ERROR_STORAGE_EMPTY")
result_string error_grpc = some (codes "ERROR_GRPC")
result_string error_wrong_type = some (codes "ERROR_WRONG_TYPE")
result_string values_count = none
