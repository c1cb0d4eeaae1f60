-- ===== src/Rpc/Execution.antt =====
-- The request that sends an execution: when it fits in its arrays, and when it does not.
use iotex_arduino.Base.{ℕ, ◌+◌, ◌*◌, ◌/◌, ◌^◌, ◌≤◌, ◌<◌, ◌≡◌, refl, sym, ap, ◌∙◌, arith, List, []}
use iotex_arduino.Base.{◌++◌, none, some, length, codes, c_string}
use iotex_arduino.Base.{length-decimal, length-print_int, IsTerminatedArray, c_string-terminated}
use iotex_arduino.Base.{All, IsByte, replicate, length-replicate, append-nil, ◌⊎◌, inl, inr}
use iotex_arduino.ResultCode.{success}
use iotex_arduino.Signer.{str2hex}
use iotex_arduino.Signer.Hex.{hex_text, length-hex_text}
use iotex_arduino.Signer.HexRoundTrip.{str2hex-hex_text}
use iotex_arduino.Host.{Host, host_to_string}
use iotex_arduino.Rpc.{ExecutionCore, execution_texts}
use iotex_arduino.Rpc.{print_all, send_execution_call}
use iotex_arduino.Rpc.Json.{request_json, execution_json, concat, total_length}
use iotex_arduino.Rpc.Json.{concat-execution_texts, print_all_lem, IsBase64}
use iotex_arduino.Rpc.Json.{base64_text_lem, base64_text_overrun}
use iotex_arduino.Rpc.Bounds.{key_text}

-- The numbers have their widths, and the arrays are terminated.
pub record IsExecutionCore (execution : ExecutionCore) : Type 0 where
  pub version_lem : execution.version < 2 ^ 32
  pub nonce_lem : execution.nonce < 2 ^ 64
  pub gas_limit_lem : execution.gas_limit < 2 ^ 64
  pub gas_price_lem : IsTerminatedArray 31 execution.gas_price
  pub amount_lem : IsTerminatedArray 31 execution.amount
  pub contract_lem : IsTerminatedArray 42 execution.contract

execution_body_lem :
    (execution : ExecutionCore) (gas_price amount contract data_text public_key signature : List ℕ)
    → execution.version < 2 ^ 32
    → execution.nonce < 2 ^ 64
    → execution.gas_limit < 2 ^ 64
    → length gas_price ≤ 30
    → length amount ≤ 30
    → length contract ≤ 41
    → length public_key ≤ 88
    → length signature ≤ 88
    → total_length
        (execution_texts execution gas_price amount contract data_text public_key signature)
      ≤ 600 + length data_text
execution_body_lem execution gas_price amount contract data_text public_key signature v n l g a r p
      s =
    omega (
      arith,
      length-print_int execution.version v,
      length-decimal 19 execution.nonce (omega (arith, n)),
      length-decimal 19 execution.gas_limit (omega (arith, l)),
    )

decoded :
    (bytes : List ℕ)
    → All IsByte bytes
    → str2hex (hex_text bytes) (replicate (length bytes) 0) (length bytes) ≡ some (success, bytes)
decoded bytes h =
    ap (λ t. str2hex (hex_text bytes) t (length bytes))
      (sym (append-nil (replicate (length bytes) 0)))
    ∙ str2hex-hex_text bytes (replicate (length bytes) 0) [] (length bytes) h
        (length-replicate (length bytes) 0) (omega arith)
    ∙ ap (λ t. some (success, t)) (append-nil bytes)

-- The array for the base64 text of the data is too short when it has less than 3 or has 4 bytes.
pub send_execution_overrun :
    (bintob64 : List ℕ → List ℕ) (host : Host) (execution : ExecutionCore)
    (bytes public_key signature : List ℕ)
    → IsBase64 bintob64
    → execution.payload ≡ hex_text bytes
    → All IsByte bytes
    → length public_key ≡ 65
    → length signature ≡ 65
    → length bytes * 2 ≤ 4 * ((length bytes + 2) / 3)
    → send_execution_call bintob64 host execution public_key signature ≡ none
unfolding send_execution_call
send_execution_overrun bintob64 host execution bytes public_key signature base64 e h p s long =
    let size : length execution.payload / 2 ≡ length bytes =
      ap (λ t. length t / 2) e ∙ omega (arith, length-hex_text bytes) in
    rw (key_text bintob64 signature base64 s).1 (
      rw (key_text bintob64 public_key base64 p).1 (
        rw size (
          rw e (
            rw (decoded bytes h) (
              rw
                (base64_text_overrun bintob64 (length bytes * 2) bytes
                  (omega (arith, base64.length_lem bytes, long)))
                refl)))))

-- The array is long enough, and so is the one for the body.
pub send_execution_texts :
    (bintob64 : List ℕ → List ℕ) (host : Host) (url : List ℕ) (execution : ExecutionCore)
    (gas_price amount contract bytes public_key signature : List ℕ)
    → IsBase64 bintob64
    → host_to_string host ≡ some url
    → execution.version < 2 ^ 32
    → execution.nonce < 2 ^ 64
    → execution.gas_limit < 2 ^ 64
    → (c_string execution.gas_price ≡ some gas_price) × (length gas_price ≤ 30)
    → (c_string execution.amount ≡ some amount) × (length amount ≤ 30)
    → (c_string execution.contract ≡ some contract) × (length contract ≤ 41)
    → execution.payload ≡ hex_text bytes
    → All IsByte bytes
    → length public_key ≡ 65
    → length signature ≡ 65
    → 4 * ((length bytes + 2) / 3) < length bytes * 2
    → send_execution_call bintob64 host execution public_key signature
      ≡ some (record {
        url = url ++ codes "SendAction";
        body =
            request_json
              (execution_json execution gas_price amount contract (bintob64 bytes))
              (bintob64 public_key)
              (bintob64 signature);
      })
unfolding send_execution_call
send_execution_texts bintob64 host url execution gas_price amount contract bytes public_key
      signature base64 u v n lim (g, g_short) (a, a_short) (c, c_short) e h p s long =
    let size : length execution.payload / 2 ≡ length bytes =
      ap (λ t. length t / 2) e ∙ omega (arith, length-hex_text bytes) in
    let (p_short, p_text) = key_text bintob64 public_key base64 p in
    let (s_short, s_text) = key_text bintob64 signature base64 s in
    let texts : List (List ℕ) =
      execution_texts execution gas_price amount contract (bintob64 bytes) (bintob64 public_key)
        (bintob64 signature) in
    let bound : total_length texts ≤ 600 + length (bintob64 bytes) =
      execution_body_lem execution gas_price amount contract (bintob64 bytes) (bintob64 public_key)
        (bintob64 signature) v n lim g_short a_short c_short p_short s_short in
    let printed : print_all (1024 + length bytes * 2) texts [] ≡ some (concat texts) =
      print_all_lem (1024 + length bytes * 2) texts []
        (omega (arith, bound, base64.length_lem bytes, long)) in
    rw s_text (
      rw p_text (
        rw size (
          rw e (
            rw (decoded bytes h) (
              rw
                (base64_text_lem bintob64 (length bytes * 2) bytes (base64.text_lem bytes)
                  (omega (arith, base64.length_lem bytes, long)))
                (rw u (
                  rw g (
                    rw a (
                      rw c (
                        rw printed (
                          ap (λ b. some (record { url = url ++ codes "SendAction"; body = b }))
                            (concat-execution_texts execution gas_price amount contract
                              (bintob64 bytes) (bintob64 public_key)
                              (bintob64 signature)))))))))))))

send_execution_fits :
    (bintob64 : List ℕ → List ℕ) (host : Host) (url : List ℕ) (execution : ExecutionCore)
    (bytes public_key signature : List ℕ)
    → IsBase64 bintob64
    → host_to_string host ≡ some url
    → IsExecutionCore execution
    → execution.payload ≡ hex_text bytes
    → All IsByte bytes
    → length public_key ≡ 65
    → length signature ≡ 65
    → 4 * ((length bytes + 2) / 3) < length bytes * 2
    → (gas_price amount contract : List ℕ) × (c_string execution.gas_price ≡ some gas_price)
      × (c_string execution.amount ≡ some amount)
      × (c_string execution.contract ≡ some contract)
      × (send_execution_call bintob64 host execution public_key signature
          ≡ some (record {
            url = url ++ codes "SendAction";
            body =
                request_json
                  (execution_json execution gas_price amount contract (bintob64 bytes))
                  (bintob64 public_key)
                  (bintob64 signature);
          }))
send_execution_fits bintob64 host url execution bytes public_key signature base64 u t e h p s long =
    let (gas_price, g, g_short) = c_string-terminated 30 execution.gas_price t.gas_price_lem.1 in
    let (amount, a, a_short) = c_string-terminated 30 execution.amount t.amount_lem.1 in
    let (contract, c, c_short) = c_string-terminated 41 execution.contract t.contract_lem.1 in
    (
      gas_price,
      amount,
      contract,
      g,
      a,
      c,
      send_execution_texts bintob64 host url execution gas_price amount contract bytes public_key
          signature base64 u t.version_lem t.nonce_lem t.gas_limit_lem (g, g_short) (a, a_short)
          (c, c_short) e h p s long,
    )

-- For a base64 encoder as documented, a host with a URL, numbers of their widths, terminated arrays, a
-- key and a signature of 65 bytes, and data that is the lower-case hexadecimal text of bytes:
-- sendExecution writes behind the array for the base64 text of the data when these are 0, 1, 2 or 4
-- bytes. Otherwise it stays in its arrays, the URL is that of the host with SendAction behind it, and
-- the body is the JSON object of the action with the core, the key and the signature in base64, and
-- the bytes of the data in base64.
pub send_execution_call_lem :
    (bintob64 : List ℕ → List ℕ) (host : Host) (url : List ℕ) (execution : ExecutionCore)
    (bytes public_key signature : List ℕ)
    → IsBase64 bintob64
    → host_to_string host ≡ some url
    → IsExecutionCore execution
    → execution.payload ≡ hex_text bytes
    → All IsByte bytes
    → length public_key ≡ 65
    → length signature ≡ 65
    → (((length bytes < 3) ⊎ (length bytes ≡ 4))
        × (send_execution_call bintob64 host execution public_key signature ≡ none))
      ⊎ (((length bytes ≡ 3) ⊎ (4 < length bytes))
          × ((gas_price amount contract : List ℕ) × (c_string execution.gas_price ≡ some gas_price)
              × (c_string execution.amount ≡ some amount)
              × (c_string execution.contract ≡ some contract)
              × (send_execution_call bintob64 host execution public_key signature
                  ≡ some (record {
                    url = url ++ codes "SendAction";
                    body =
                        request_json
                          (execution_json execution gas_price amount contract (bintob64 bytes))
                          (bintob64 public_key)
                          (bintob64 signature);
                  }))))
send_execution_call_lem bintob64 host url execution bytes public_key signature base64 u t e h p s =
    elim (sizes (length bytes)) [
      | inl short ↦ inl (
        short,
        send_execution_overrun bintob64 host execution bytes public_key signature base64 e h p s
            (too_short (length bytes) short),
      )
      | inr long ↦ inr (
        long,
        send_execution_fits bintob64 host url execution bytes public_key signature base64 u t e h p
            s (long_enough (length bytes) long),
      )
    ]
  where
    sizes : (n : ℕ) → ((n < 3) ⊎ (n ≡ 4)) ⊎ ((n ≡ 3) ⊎ (4 < n))
    sizes n = ground arith

    too_short : (n : ℕ) → (n < 3) ⊎ (n ≡ 4) → n * 2 ≤ 4 * ((n + 2) / 3)
    too_short n h = omega (arith, h)

    long_enough : (n : ℕ) → (n ≡ 3) ⊎ (4 < n) → 4 * ((n + 2) / 3) < n * 2
    long_enough n h = omega (arith, h)
