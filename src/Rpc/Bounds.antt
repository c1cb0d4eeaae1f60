-- ===== src/Rpc/Bounds.antt =====
-- The request that sends a transfer fits in its array, and is the JSON text of the transfer.
use iotex_arduino.Base.{ℕ, ◌^◌, ◌≤◌, ◌<◌, ◌≡◌, ap, arith, List, []}
use iotex_arduino.Base.{◌++◌, some, length, codes, c_string}
use iotex_arduino.Base.{length-decimal, length-print_int, IsTerminatedArray, c_string-terminated}
use iotex_arduino.Host.{Host, host_to_string}
use iotex_arduino.Rpc.{TransferCore, transfer_texts}
use iotex_arduino.Rpc.{print_all, send_token_transfer_call, base64_text}
use iotex_arduino.Rpc.Json.{request_json, transfer_json, concat, total_length}
use iotex_arduino.Rpc.Json.{concat-transfer_texts, print_all_lem, IsBase64}
use iotex_arduino.Rpc.Json.{base64_text_lem}

-- The numbers have their widths, and the arrays are terminated.
pub record IsTransferCore (transfer : TransferCore) : Type 0 where
  pub version_lem : transfer.version < 2 ^ 32
  pub nonce_lem : transfer.nonce < 2 ^ 64
  pub gas_limit_lem : transfer.gas_limit < 2 ^ 64
  pub chain_id_lem : transfer.chain_id < 2 ^ 32
  pub gas_price_lem : IsTerminatedArray 31 transfer.gas_price
  pub amount_lem : IsTerminatedArray 31 transfer.amount
  pub recipient_lem : IsTerminatedArray 42 transfer.recipient

transfer_body_lem :
    (transfer : TransferCore) (gas_price amount recipient public_key signature : List ℕ)
    → transfer.version < 2 ^ 32
    → transfer.nonce < 2 ^ 64
    → transfer.gas_limit < 2 ^ 64
    → transfer.chain_id < 2 ^ 32
    → length gas_price ≤ 30
    → length amount ≤ 30
    → length recipient ≤ 41
    → length public_key ≤ 88
    → length signature ≤ 88
    → total_length (transfer_texts transfer gas_price amount recipient public_key signature) ≤ 600
transfer_body_lem transfer gas_price amount recipient public_key signature v n l c g a r p s =
    omega (
      arith,
      length-print_int transfer.version v,
      length-decimal 19 transfer.nonce (omega (arith, n)),
      length-decimal 19 transfer.gas_limit (omega (arith, l)),
      length-print_int transfer.chain_id c,
    )

-- The base64 text of a key or a signature of 65 bytes.
pub key_text :
    (bintob64 : List ℕ → List ℕ) (bytes : List ℕ)
    → IsBase64 bintob64
    → length bytes ≡ 65
    → (length (bintob64 bytes) ≤ 88) × (base64_text bintob64 130 bytes ≡ some (bintob64 bytes))
key_text bintob64 bytes base64 h =
    let short : length (bintob64 bytes) ≤ 88 = omega (arith, base64.length_lem bytes, h) in
    (short, base64_text_lem bintob64 130 bytes (base64.text_lem bytes) (omega (arith, short)))

-- The request of a transfer whose texts fit in their arrays.
pub send_token_transfer_texts :
    (bintob64 : List ℕ → List ℕ) (host : Host) (url : List ℕ) (transfer : TransferCore)
    (gas_price amount recipient public_key signature : List ℕ)
    → IsBase64 bintob64
    → host_to_string host ≡ some url
    → transfer.version < 2 ^ 32
    → transfer.nonce < 2 ^ 64
    → transfer.gas_limit < 2 ^ 64
    → transfer.chain_id < 2 ^ 32
    → (c_string transfer.gas_price ≡ some gas_price) × (length gas_price ≤ 30)
    → (c_string transfer.amount ≡ some amount) × (length amount ≤ 30)
    → (c_string transfer.recipient ≡ some recipient) × (length recipient ≤ 41)
    → length public_key ≡ 65
    → length signature ≡ 65
    → send_token_transfer_call bintob64 host transfer public_key signature
      ≡ some (record {
        url = url ++ codes "SendAction";
        body =
            request_json
              (transfer_json transfer gas_price amount recipient)
              (bintob64 public_key)
              (bintob64 signature);
      })
unfolding send_token_transfer_call
send_token_transfer_texts bintob64 host url transfer gas_price amount recipient public_key signature
      base64 u v n l c (g, g_short) (a, a_short) (r, r_short) p s =
    let (p_short, p_text) = key_text bintob64 public_key base64 p in
    let (s_short, s_text) = key_text bintob64 signature base64 s in
    let texts : List (List ℕ) =
      transfer_texts transfer gas_price amount recipient (bintob64 public_key)
        (bintob64 signature) in
    let bound : total_length texts ≤ 600 =
      transfer_body_lem transfer gas_price amount recipient (bintob64 public_key)
        (bintob64 signature) v n l c g_short a_short r_short p_short s_short in
    let printed : print_all 1024 texts [] ≡ some (concat texts) =
      print_all_lem 1024 texts [] (omega (arith, bound)) in
    rw s_text (
      rw p_text (
        rw u (
          rw g (
            rw a (
              rw r (
                rw printed (
                  ap (λ b. some (record { url = url ++ codes "SendAction"; body = b }))
                    (concat-transfer_texts transfer gas_price amount recipient (bintob64 public_key)
                      (bintob64 signature)))))))))

-- For a base64 encoder as documented, a host with a URL, numbers of their widths, terminated arrays,
-- and a key and a signature of 65 bytes, sendTokenTransfer stays in its arrays. The URL is that of the
-- host with SendAction behind it, and the body is the JSON object of the action with the core, the key
-- and the signature in base64, and an empty payload.
pub send_token_transfer_call_lem :
    (bintob64 : List ℕ → List ℕ) (host : Host) (url : List ℕ) (transfer : TransferCore)
    (public_key signature : List ℕ)
    → IsBase64 bintob64
    → host_to_string host ≡ some url
    → IsTransferCore transfer
    → length public_key ≡ 65
    → length signature ≡ 65
    → (gas_price amount recipient : List ℕ) × (c_string transfer.gas_price ≡ some gas_price)
      × (c_string transfer.amount ≡ some amount)
      × (c_string transfer.recipient ≡ some recipient)
      × (send_token_transfer_call bintob64 host transfer public_key signature
          ≡ some (record {
            url = url ++ codes "SendAction";
            body =
                request_json
                  (transfer_json transfer gas_price amount recipient)
                  (bintob64 public_key)
                  (bintob64 signature);
          }))
send_token_transfer_call_lem bintob64 host url transfer public_key signature base64 u t p s =
    let (gas_price, g, g_short) = c_string-terminated 30 transfer.gas_price t.gas_price_lem.1 in
    let (amount, a, a_short) = c_string-terminated 30 transfer.amount t.amount_lem.1 in
    let (recipient, r, r_short) = c_string-terminated 41 transfer.recipient t.recipient_lem.1 in
    (
      gas_price,
      amount,
      recipient,
      g,
      a,
      r,
      send_token_transfer_texts bintob64 host url transfer gas_price amount recipient public_key
          signature base64 u t.version_lem t.nonce_lem t.gas_limit_lem t.chain_id_lem (g, g_short)
          (a, a_short) (r, r_short) p s,
    )
