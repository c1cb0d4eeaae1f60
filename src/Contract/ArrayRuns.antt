-- ===== src/Contract/ArrayRuns.antt =====
-- The theorems on arrays at concrete inputs.
use iotex_arduino.Base.{ℕ, ◌≡◌, List, [], ◌∷◌, ◌++◌, some, codes, arith}
use iotex_arduino.Base.{false}
use iotex_arduino.Abi.{EthereumTypeName, parameter, elements}
use iotex_arduino.Contract.BigEndian.{big_endian}
use iotex_arduino.Contract.Params.{generate_bytes_for_parameter}
use iotex_arduino.Contract.AbiEncode.{abi_encode}
use iotex_arduino.Contract.Arrays.{uint_elements, words, dynamic_array_lem}
use iotex_arduino.Contract.Offsets.{string_elements, arguments_of, string_array_lem}

dynamic_array_lem_example :
    generate_bytes_for_parameter
      (parameter (elements (uint_elements (5 ∷ 300 ∷ []))) 2 false EthereumTypeName.array_dynamic)
      EthereumTypeName.array_dynamic
      []
    ≡ some (96, big_endian 32 2 ++ words (5 ∷ 300 ∷ []))
dynamic_array_lem_example =
    dynamic_array_lem 5 (300 ∷ []) [] (omega arith) (omega arith, (omega arith, tt))

abbrev two_texts : List (List ℕ)
two_texts = codes "a" ∷ codes "bc" ∷ []

string_array_lem_example :
    generate_bytes_for_parameter
      (parameter (elements (string_elements two_texts)) 2 false EthereumTypeName.array_static)
      EthereumTypeName.array_static
      []
    ≡ some (192, abi_encode (arguments_of two_texts))
string_array_lem_example =
    string_array_lem (codes "a") (codes "bc" ∷ []) [] (omega arith, (omega arith, tt)) (omega arith)
