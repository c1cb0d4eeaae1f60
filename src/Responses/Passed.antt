-- ===== src/Responses/Passed.antt =====
-- What each statement of the fromJson methods does with a member that it accepts.
use iotex_arduino.Base.{ℕ, ◌+◌, ◌%◌, ◌^◌, ◌<◌, ◌≡◌, refl, arith, List, [], ◌∷◌, true}
use iotex_arduino.Base.{some, replicate, in_array}
use iotex_arduino.ResultCode.{success}
use iotex_arduino.Json.{JsonLibrary, accepts_string, copy_string_cleared}
use iotex_arduino.Responses.{CharArray}
use iotex_arduino.Responses.{size_of, set_array, ActionInfo, is_numeric, Statement}
use iotex_arduino.Responses.{going, run_statements, require_object, require_array, read_c_string}
use iotex_arduino.Responses.{read_version, read_nonce, read_gas_limit, read_payload}
use iotex_arduino.Responses.{read_block_height}
use iotex_arduino.Responses.Safety.{accepted_length}

pub run_statements-step :
    (statement : Statement) (statements : List Statement) {info info' : ActionInfo}
    → statement info ≡ some (going info')
    → run_statements (statement ∷ statements) info ≡ run_statements statements info'
unfolding run_statements
run_statements-step statement statements s = rw s refl

pub run_statements-end : (info : ActionInfo) → run_statements [] info ≡ some (success, info)
unfolding run_statements
run_statements-end info = refl

module _ (library : JsonLibrary) where
  pub read_c_string-accepted :
      (json : library.Json) (member : CharArray) (max_size : ℕ) (info : ActionInfo)
      → 0 < max_size
      → size_of member ≡ max_size + 1
      → accepts_string library json max_size ≡ true
      → info.arrays member ≡ replicate (size_of member) 0
      → read_c_string library json member max_size info
        ≡ some (
            going (record info {
              arrays =
                  set_array info.arrays member
                    (in_array (size_of member) (library.value_string json));
            }))
  unfolding read_c_string
  read_c_string-accepted json member max_size info positive size a cleared =
      let short = accepted_length library json max_size positive a in
      rw a (
        rw cleared (
          rw
            (copy_string_cleared (size_of member) (library.value_string json)
              (omega (arith, short, size)))
            refl))

  pub require_object-passed :
      (json : library.Json) (info : ActionInfo)
      → library.is_object json ≡ true
      → require_object library json info ≡ some (going info)
  unfolding require_object
  require_object-passed json info h = rw h refl

  pub require_array-passed :
      (json : library.Json) (info : ActionInfo)
      → library.is_array json ≡ true
      → require_array library json info ≡ some (going info)
  unfolding require_array
  require_array-passed json info h = rw h refl

  pub read_version-passed :
      (json : library.Json) (info : ActionInfo)
      → library.is_number json ≡ true
      → read_version library json info
        ≡ some (going (record info { version = library.value_int json % 2 ^ 32 }))
  unfolding read_version
  read_version-passed json info h = rw h refl

  pub read_nonce-passed :
      (json : library.Json) (info : ActionInfo)
      → accepts_string library json 0 ≡ true
      → is_numeric (library.value_string json) ≡ true
      → read_nonce library json info
        ≡ some (going (record info { nonce = library.atol (library.value_string json) }))
  unfolding read_nonce
  read_nonce-passed json info h n = rw h (rw n refl)

  pub read_gas_limit-passed :
      (json : library.Json) (info : ActionInfo)
      → accepts_string library json 0 ≡ true
      → read_gas_limit library json info
        ≡ some (going (record info { gas_limit = library.atol (library.value_string json) }))
  unfolding read_gas_limit
  read_gas_limit-passed json info h = rw h refl

  pub read_payload-passed :
      (json : library.Json) (info : ActionInfo)
      → accepts_string library json 0 ≡ true
      → read_payload library json info
        ≡ some (going (record info { payload = library.value_string json }))
  unfolding read_payload
  read_payload-passed json info h = rw h refl

  pub read_block_height-passed :
      (json : library.Json) (info : ActionInfo)
      → accepts_string library json 0 ≡ true
      → read_block_height library json info
        ≡ some (going (record info { block_height = library.value_string json }))
  unfolding read_block_height
  read_block_height-passed json info h = rw h refl
