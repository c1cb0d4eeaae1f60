-- ===== src/Account/ContractCall.antt =====
-- A call of a contract from the ABI of its function to the answer of the node.
use iotex_arduino.Base.{ℕ, zero, suc, ◌+◌, ◌^◌, ◌<◌, ◌≡◌, arith, List, [], ◌∷◌, ◌++◌}
use iotex_arduino.Base.{
  ◌⊎◌, inl, inr, refl, ap, ◌∙◌, none, true, false, some, length, take, All, IsByte, All-append,
  IsText,
}
use iotex_arduino.Base.{length-append, length-take}
use iotex_arduino.ResultCode.{ResultCode, success}
use iotex_arduino.Json.{JsonLibrary}
use iotex_arduino.Signer.{Crypto, get_hash}
use iotex_arduino.Signer.Hex.{hex_text}
use iotex_arduino.Host.{Host, host_to_string}
use iotex_arduino.Rpc.{ExecutionCore}
use iotex_arduino.Rpc.Json.{IsBase64}
use iotex_arduino.Encoder.Protobuf.{Nanopb}
use iotex_arduino.Wallets.Answers.{answer_of, hash_json, sent}
use iotex_arduino.Abi.{FunctionAbi, InputOutputAbi}
use iotex_arduino.Abi.Signature.{get_signature_text}
use iotex_arduino.Contract.CallData.{ParameterValuesDictionary, generate_call_data}
use iotex_arduino.Contract.Arguments.{Argument, is_dynamic, IsValid, uint_argument, int_argument}
use iotex_arduino.Contract.Arguments.{address_argument, bytes_static_argument, string_argument}
use iotex_arduino.Contract.Arguments.{bytes_dynamic_argument}
use iotex_arduino.Contract.Supply.{Supplies, encodings}
use iotex_arduino.Contract.CallDataLaws.{OthersOnly}
use iotex_arduino.Contract.AbiEncode.{abi_encode, abi_heads, static_call_data_lem}
use iotex_arduino.Account.{Account}
use iotex_arduino.Account.Addresses.{IsHash}
use iotex_arduino.Account.Actions.{send_execution_action}
use iotex_arduino.Account.ActionLaws.{IsSigning, Fit}
use iotex_arduino.Account.ExecutionLaws.{execution_request, send_execution_action_lem}
use iotex_arduino.Account.ExecutionLaws.{send_execution_action-selector}
use iotex_arduino.Contract.ByteEncoding.{HasBytes, abi_heads-IsByte, encodings-IsByte}

take-IsByte : (n : ℕ) (xs : List ℕ) → All IsByte xs → All IsByte (take n xs)
take-IsByte zero xs h = tt
take-IsByte (suc n) [] h = tt
take-IsByte (suc n) (x ∷ xs) (h, hs) = (h, take-IsByte n xs hs)

-- The selector of a function and its arguments, as the contract ABI encodes them.
abbrev pub call_bytes : (crypto : Crypto) → List ℕ → List Argument → List ℕ
call_bytes crypto sign arguments = take 4 (get_hash crypto sign) ++ abi_encode arguments

call_bytes-IsByte :
    (crypto : Crypto) (sign : List ℕ) (arguments : List Argument)
    → IsHash crypto
    → All HasBytes arguments
    → All IsByte (call_bytes crypto sign arguments)
unfolding get_hash
call_bytes-IsByte crypto sign arguments hash h =
    All-append IsByte (take 4 (crypto.keccak_256 sign)) (abi_encode arguments)
      (take-IsByte 4 (crypto.keccak_256 sign) (hash.keccak_256-IsByte sign))
      (All-append IsByte (abi_heads _ arguments) (encodings true arguments)
        (abi_heads-IsByte _ arguments h) (encodings-IsByte arguments h))

length-call_bytes :
    (crypto : Crypto) (sign : List ℕ) (arguments : List Argument)
    → IsHash crypto
    → length (call_bytes crypto sign arguments) ≡ 4 + length (abi_encode arguments)
unfolding get_hash
length-call_bytes crypto sign arguments hash = omega (
  arith,
  length-append (take 4 (crypto.keccak_256 sign)) (abi_encode arguments),
  length-take 4 (crypto.keccak_256 sign),
  hash.length-keccak_256 sign,
)

-- A list of supplied arguments, none of them dynamic, is empty or has an encoding with a byte.
some_encoding :
    (a : Argument) (arguments : List Argument)
    → IsValid a
    → is_dynamic a ≡ false
    → 0 < length (abi_encode (a ∷ arguments))
some_encoding (uint_argument value) arguments v d = omega arith
some_encoding (int_argument value) arguments v d = omega arith
some_encoding (address_argument bytes) arguments v d = omega arith
some_encoding (bytes_static_argument (b ∷ bytes)) arguments v d = omega arith
some_encoding (bytes_static_argument []) arguments (v, w) d = absurd (omega (arith, v))
some_encoding (bytes_dynamic_argument bytes) arguments v d = cc
some_encoding (string_argument text) arguments v d = cc

no_arguments :
    (params : ParameterValuesDictionary) (inputs : List InputOutputAbi) (arguments : List Argument)
    → Supplies params inputs arguments
    → All (λ a. is_dynamic a ≡ false) arguments
    → (arguments ≡ []) ⊎ (0 < length (abi_encode arguments))
no_arguments params inputs [] h s = inl refl
no_arguments params [] (a ∷ arguments) h s = elim h [ ]
no_arguments params (input ∷ inputs) (a ∷ arguments) (t, p, v, h) (s, ss) =
    inr (some_encoding a arguments v s)

not_empty : (arguments : List Argument) → 0 < length (abi_encode arguments) → 0 < length arguments
not_empty [] h = absurd (omega (arith, h))
not_empty (a ∷ arguments) h = omega arith

-- For a base64 encoder as documented, a crypto library with hashes of 32 bytes and signatures of 65, a
-- host with a URL, a public key of 65 bytes, a nonce and a gas limit of 64 bits, the core's arrays on the
-- stack, and texts for the gas price, the amount and the contract that fit, take a contract with one
-- function of a name, whose signature can be printed and whose inputs the dictionary supplies with
-- valid arguments of bytes, none of them dynamic. Then generateCallData succeeds. When there are no
-- arguments, sendExecutionAction of its text writes behind the array for the base64 text of the data.
-- When there are, it posts the signed execution whose data is, in base64, the first four bytes of the
-- hash of the signature and the encoding of the arguments that the contract ABI defines; and for an
-- answer to that post whose body the parser reads, with a member `actionHash` whose text is the
-- lower-case hexadecimal text of 32 bytes, it returns the code of the post with the hash as it was,
-- when that fails; ERROR_JSON_PARSE with the hash as it was, when the member is no text; and otherwise
-- SUCCESS with the 32 bytes in the hash.
pub generate_call_data-send_execution_action :
    (crypto : Crypto) (nanopb : Nanopb) (bintob64 : List ℕ → List ℕ) (library : JsonLibrary)
    (post : List ℕ → List ℕ → ResultCode × List ℕ) (account : Account) (host : Host) (url : List ℕ)
    (stack : ExecutionCore) (nonce gas_limit : ℕ)
    (gas_price amount contract memory hash_bytes hash : List ℕ) (before after : List FunctionAbi)
    (f : FunctionAbi) (params : ParameterValuesDictionary) (arguments : List Argument)
    (sign out : List ℕ)
    → IsBase64 bintob64
    → IsSigning crypto
    → IsHash crypto
    → host_to_string host ≡ some url
    → length account.public_key ≡ 65
    → nonce < 2 ^ 64
    → gas_limit < 2 ^ 64
    → IsText gas_price × IsText amount × IsText contract
    → (length stack.gas_price ≡ 31) × (length stack.amount ≡ 31) × (length stack.contract ≡ 42)
    → Fit gas_price amount contract
    → OthersOnly f.name before
    → OthersOnly f.name after
    → get_signature_text f ≡ some sign
    → Supplies params f.inputs arguments
    → All (λ a. is_dynamic a ≡ false) arguments
    → All HasBytes arguments
    → (0 < length arguments
        → library.is_null (
            library.parse
              (answer_of post (
                execution_request crypto nanopb bintob64 account url nonce gas_limit gas_price
                  amount contract
                  (call_bytes crypto sign arguments))).1)
          ≡ false)
    → (0 < length arguments
        → library.value_string (
            hash_json library
              (answer_of post (
                execution_request crypto nanopb bintob64 account url nonce gas_limit gas_price
                  amount contract
                  (call_bytes crypto sign arguments))).1)
          ≡ hex_text hash_bytes)
    → All IsByte hash_bytes
    → length hash_bytes ≡ 32
    → length hash ≡ 32
    → (text : List ℕ) × (generate_call_data crypto (before ++ (f ∷ after)) f.name params out
        ≡ some (success, text))
      × (((arguments ≡ [])
            × (send_execution_action crypto nanopb bintob64 library post account host stack nonce
                  gas_limit gas_price amount contract text memory hash
                ≡ none))
          ⊎ ((0 < length arguments)
              × (send_execution_action crypto nanopb bintob64 library post account host stack nonce
                    gas_limit gas_price amount contract text memory hash
                  ≡ some (
                      sent library post
                        (answer_of post (
                          execution_request crypto nanopb bintob64 account url nonce gas_limit
                            gas_price amount contract
                            (call_bytes crypto sign arguments)))
                        hash_bytes
                        hash))))
generate_call_data-send_execution_action crypto nanopb bintob64 library post account host url stack
      nonce gas_limit gas_price amount contract memory hash_bytes hash before after f params
      arguments sign out base64 signing is_hash u p n l texts arrays fit hb ha s supplied static
      bytes parsed value hs lh lk =
    let data_bytes : List ℕ = call_bytes crypto sign arguments in
    let data_IsByte = call_bytes-IsByte crypto sign arguments is_hash bytes in
    let size = length-call_bytes crypto sign arguments is_hash in
    (
      hex_text data_bytes,
      static_call_data_lem crypto before after f params arguments sign out hb ha s supplied static,
      elim (no_arguments params f.inputs arguments supplied static) [
        | inl e ↦ inl (
          e,
          send_execution_action-selector crypto nanopb bintob64 library post account host stack
              nonce gas_limit gas_price amount contract data_bytes memory hash base64 signing p
              texts arrays fit data_IsByte (size ∙ ap (λ xs. 4 + length (abi_encode xs)) e),
        )
        | inr long ↦ inr (
          not_empty arguments long,
          send_execution_action_lem crypto nanopb bintob64 library post account host url stack nonce
              gas_limit gas_price amount contract data_bytes memory hash_bytes hash base64 signing u
              p n l texts arrays fit data_IsByte (omega (arith, size, long))
              (parsed (not_empty arguments long)) (value (not_empty arguments long)) hs lh lk,
        )
      ],
    )
