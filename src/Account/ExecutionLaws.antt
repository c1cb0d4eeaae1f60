-- ===== src/Account/ExecutionLaws.antt =====
-- An execution from its arguments to the answer of the node.
use iotex_arduino.Base.{
  ℕ, zero, suc, ◌+◌, ◌/◌, ◌^◌, ◌<◌, ◌≡◌, refl, ap, ◌∙◌, arith, List, [], ◌∷◌, ◌++◌,
}
use iotex_arduino.Base.{false, none, some, codes, length, replicate}
use iotex_arduino.Base.{take-append, length-replicate, c_string, IsText, All, IsByte}
use iotex_arduino.ResultCode.{ResultCode, success}
use iotex_arduino.Json.{JsonLibrary}
use iotex_arduino.Signer.{Crypto, get_hash, sign_hash, str2hex}
use iotex_arduino.Signer.Hex.{hex_text, length-hex_text}
use iotex_arduino.Signer.HexRoundTrip.{str2hex-hex_text}
use iotex_arduino.Host.{Host, host_to_string}
use iotex_arduino.Rpc.{ExecutionCore, RpcCallData, send_execution_call}
use iotex_arduino.Rpc.Execution.{send_execution_texts, send_execution_overrun}
use iotex_arduino.Rpc.Json.{IsBase64, request_json, execution_json}
use iotex_arduino.Encoder.Protobuf.{Nanopb, protobuf_encode_execution, encode_core, encode_text}
use iotex_arduino.Encoder.Protobuf.{encode_bytes, execution_tag}
use iotex_arduino.Wallets.Answers.{answer_of, hash_json, sent, send_execution_lem}
use iotex_arduino.Wallets.{send_execution}
use iotex_arduino.Account.{Account}
use iotex_arduino.Account.Actions.{execution_core, sign_execution_action, send_execution_action}
use iotex_arduino.Account.ActionLaws.{strcpy_lem, IsSigning, Fit}

replicate-snoc : (n : ℕ) → replicate {A = ℕ} (n + 1) 0 ≡ replicate n 0 ++ (0 ∷ [])
replicate-snoc zero = ground arith
replicate-snoc (suc n) = ground (arith, replicate-snoc n)

-- The protobuf message of an execution, and the signature of its hash.
abbrev pub execution_message :
    (nanopb : Nanopb) → ℕ → ℕ → List ℕ → List ℕ → List ℕ → List ℕ → List ℕ
execution_message nanopb nonce gas_limit gas_price amount contract bytes =
    encode_core nanopb 1024 (record {
      version = 1;
      nonce = nonce;
      gas_limit = gas_limit;
      gas_price = encode_text nanopb gas_price;
      action =
          execution_tag (encode_text nanopb amount) (encode_text nanopb contract)
            (encode_bytes nanopb bytes);
    })

abbrev pub signature_of : (crypto : Crypto) → Account → List ℕ → List ℕ
signature_of crypto account message =
    (sign_hash crypto (get_hash crypto message) account.private_key).1

-- The numbers of a core.
abbrev pub core_of : ℕ → ℕ → List ℕ → List ℕ → List ℕ → List ℕ → ExecutionCore
core_of nonce gas_limit gas_price amount contract payload = record {
  version = 1;
  nonce = nonce;
  gas_limit = gas_limit;
  gas_price = gas_price;
  amount = amount;
  contract = contract;
  payload = payload;
}

execution_signed :
    (crypto : Crypto) (nanopb : Nanopb) (account : Account) (nonce gas_limit : ℕ)
    (gas_array amount_array contract_array : List ℕ) (gas_price amount contract bytes : List ℕ)
    → c_string gas_array ≡ some gas_price
    → c_string amount_array ≡ some amount
    → c_string contract_array ≡ some contract
    → All IsByte bytes
    → let message = execution_message nanopb nonce gas_limit gas_price amount contract bytes in
      sign_execution_action crypto nanopb account
        (core_of nonce gas_limit gas_array amount_array contract_array (hex_text bytes))
      ≡ some (signature_of crypto account message, get_hash crypto message)
unfolding sign_execution_action protobuf_encode_execution
execution_signed crypto nanopb account nonce gas_limit gas_array amount_array contract_array
      gas_price amount contract bytes g a c h =
    let size : length (hex_text bytes) / 2 ≡ length bytes = omega (arith, length-hex_text bytes) in
    let read : str2hex (hex_text bytes) (replicate (length bytes + 1) 0) (length bytes)
        ≡ some (success, bytes ++ (0 ∷ [])) =
      ap (λ t. str2hex (hex_text bytes) t (length bytes)) (replicate-snoc (length bytes))
      ∙ str2hex-hex_text bytes (replicate (length bytes) 0) (0 ∷ []) (length bytes) h
          (length-replicate (length bytes) 0) (omega arith) in
    rw size (rw g (rw a (rw c (rw read (rw (take-append bytes (0 ∷ [])) refl)))))

-- The request for an execution with its signature.
abbrev pub execution_request :
    (crypto : Crypto) (nanopb : Nanopb) (bintob64 : List ℕ → List ℕ)
    → Account
    → List ℕ
    → ℕ
    → ℕ
    → List ℕ
    → List ℕ
    → List ℕ
    → List ℕ
    → RpcCallData
execution_request crypto nanopb bintob64 account url nonce gas_limit gas_price amount contract
      bytes =
    record {
      url = url ++ codes "SendAction";
      body =
          request_json
            (execution_json (core_of nonce gas_limit [] [] [] []) gas_price amount contract
              (bintob64 bytes))
            (bintob64 account.public_key)
            (bintob64 (
              signature_of crypto account
                (execution_message nanopb nonce gas_limit gas_price amount contract bytes)));
    }

copied_core :
    (stack : ExecutionCore) (nonce gas_limit : ℕ) (gas_price amount contract payload : List ℕ)
    → IsText gas_price × IsText amount × IsText contract
    → (length stack.gas_price ≡ 31) × (length stack.amount ≡ 31) × (length stack.contract ≡ 42)
    → Fit gas_price amount contract
    → (gas_array amount_array contract_array : List ℕ) × (execution_core stack nonce gas_limit
          gas_price amount contract payload
        ≡ some (core_of nonce gas_limit gas_array amount_array contract_array payload))
      × (c_string gas_array ≡ some gas_price)
      × (c_string amount_array ≡ some amount)
      × (c_string contract_array ≡ some contract)
unfolding execution_core
copied_core stack nonce gas_limit gas_price amount contract payload (tg, ta, tc) (lg, la, lc)
      (g, a, c) =
    let (g_array, g_copy, g_text, g_length) =
      strcpy_lem stack.gas_price gas_price tg (omega (arith, lg, g)) in
    let (a_array, a_copy, a_text, a_length) =
      strcpy_lem stack.amount amount ta (omega (arith, la, a)) in
    let (c_array, c_copy, c_text, c_length) =
      strcpy_lem stack.contract contract tc (omega (arith, lc, c)) in
    (g_array, a_array, c_array, rw g_copy (rw a_copy (rw c_copy refl)), g_text, a_text, c_text)

-- For a base64 encoder as documented, a crypto library whose signatures have 65 bytes, a host with a
-- URL, a public key of 65 bytes, a nonce and a gas limit of 64 bits, the core's arrays on the stack, a
-- gas price and an amount of at most 30 characters and a contract of at most 41, and data that is the
-- lower-case hexadecimal text of more than 4 bytes: sendExecutionAction posts to SendAction of the URL
-- the JSON object of these values with the public key and, in base64, the signature of the hash of the
-- protobuf message of the same values and bytes. When the body of the answer is read by the parser with
-- a member `actionHash` whose text is the lower-case hexadecimal text of 32 bytes, it returns the code
-- of the post with the hash as it was, when that fails; ERROR_JSON_PARSE with the hash as it was, when
-- the member is no text; and otherwise SUCCESS with the 32 bytes in the hash.
pub send_execution_action_lem :
    (crypto : Crypto) (nanopb : Nanopb) (bintob64 : List ℕ → List ℕ) (library : JsonLibrary)
    (post : List ℕ → List ℕ → ResultCode × List ℕ) (account : Account) (host : Host) (url : List ℕ)
    (stack : ExecutionCore) (nonce gas_limit : ℕ)
    (gas_price amount contract bytes memory hash_bytes hash : List ℕ)
    → IsBase64 bintob64
    → IsSigning crypto
    → host_to_string host ≡ some url
    → length account.public_key ≡ 65
    → nonce < 2 ^ 64
    → gas_limit < 2 ^ 64
    → IsText gas_price × IsText amount × IsText contract
    → (length stack.gas_price ≡ 31) × (length stack.amount ≡ 31) × (length stack.contract ≡ 42)
    → Fit gas_price amount contract
    → All IsByte bytes
    → 4 < length bytes
    → library.is_null (
        library.parse
          (answer_of post (
            execution_request crypto nanopb bintob64 account url nonce gas_limit gas_price amount
              contract bytes)).1)
      ≡ false
    → library.value_string (
        hash_json library
          (answer_of post (
            execution_request crypto nanopb bintob64 account url nonce gas_limit gas_price amount
              contract bytes)).1)
      ≡ hex_text hash_bytes
    → All IsByte hash_bytes
    → length hash_bytes ≡ 32
    → length hash ≡ 32
    → send_execution_action crypto nanopb bintob64 library post account host stack nonce gas_limit
        gas_price amount contract
        (hex_text bytes)
        memory
        hash
      ≡ some (
          sent library post
            (answer_of post (
              execution_request crypto nanopb bintob64 account url nonce gas_limit gas_price amount
                contract bytes))
            hash_bytes
            hash)
unfolding send_execution_action
send_execution_action_lem crypto nanopb bintob64 library post account host url stack nonce gas_limit
      gas_price amount contract bytes memory hash_bytes hash base64 signing u p n l texts arrays fit
      bs long parsed value hs lh lk =
    let (g_array, a_array, c_array, made, g, a, c) =
      copied_core stack nonce gas_limit gas_price amount contract (hex_text bytes) texts arrays
        fit in
    let core : ExecutionCore = core_of nonce gas_limit g_array a_array c_array (hex_text bytes) in
    let message : List ℕ =
      execution_message nanopb nonce gas_limit gas_price amount contract bytes in
    let signature : List ℕ = signature_of crypto account message in
    let signed : sign_execution_action crypto nanopb account core
        ≡ some (signature, get_hash crypto message) =
      execution_signed crypto nanopb account nonce gas_limit g_array a_array c_array gas_price
        amount contract bytes g a c bs in
    let request : RpcCallData =
      execution_request crypto nanopb bintob64 account url nonce gas_limit gas_price amount contract
        bytes in
    let called : send_execution_call bintob64 host core account.public_key signature
        ≡ some request =
      send_execution_texts bintob64 host url core gas_price amount contract bytes account.public_key
        signature base64 u (omega arith) n l (g, fit.0) (a, fit.1) (c, fit.2) refl bs p
        (unfold sign_hash in signing.length-signature _ _) (omega (arith, long)) in
    rw made (
      rw signed (
        send_execution_lem library post bintob64 host core request account.public_key signature
          memory hash_bytes hash called parsed value hs lh lk))

-- For a base64 encoder as documented, a crypto library whose signatures have 65 bytes, a public key of
-- 65 bytes, the core's arrays on the stack, a gas price and an amount of at most 30 characters and a
-- contract of at most 41, and data that is the lower-case hexadecimal text of 4 bytes:
-- sendExecutionAction writes behind the array for the base64 text of the data.
pub send_execution_action-selector :
    (crypto : Crypto) (nanopb : Nanopb) (bintob64 : List ℕ → List ℕ) (library : JsonLibrary)
    (post : List ℕ → List ℕ → ResultCode × List ℕ) (account : Account) (host : Host)
    (stack : ExecutionCore) (nonce gas_limit : ℕ)
    (gas_price amount contract bytes memory hash : List ℕ)
    → IsBase64 bintob64
    → IsSigning crypto
    → length account.public_key ≡ 65
    → IsText gas_price × IsText amount × IsText contract
    → (length stack.gas_price ≡ 31) × (length stack.amount ≡ 31) × (length stack.contract ≡ 42)
    → Fit gas_price amount contract
    → All IsByte bytes
    → length bytes ≡ 4
    → send_execution_action crypto nanopb bintob64 library post account host stack nonce gas_limit
        gas_price amount contract
        (hex_text bytes)
        memory
        hash
      ≡ none
unfolding send_execution_action send_execution
send_execution_action-selector crypto nanopb bintob64 library post account host stack nonce
      gas_limit gas_price amount contract bytes memory hash base64 signing p texts arrays fit bs
      four =
    let (g_array, a_array, c_array, made, g, a, c) =
      copied_core stack nonce gas_limit gas_price amount contract (hex_text bytes) texts arrays
        fit in
    let core : ExecutionCore = core_of nonce gas_limit g_array a_array c_array (hex_text bytes) in
    let message : List ℕ =
      execution_message nanopb nonce gas_limit gas_price amount contract bytes in
    let signature : List ℕ = signature_of crypto account message in
    let signed : sign_execution_action crypto nanopb account core
        ≡ some (signature, get_hash crypto message) =
      execution_signed crypto nanopb account nonce gas_limit g_array a_array c_array gas_price
        amount contract bytes g a c bs in
    let behind : send_execution_call bintob64 host core account.public_key signature ≡ none =
      send_execution_overrun bintob64 host core bytes account.public_key signature base64 refl bs p
        (unfold sign_hash in signing.length-signature _ _) (omega (arith, four)) in
    rw made (rw signed (rw behind refl))
