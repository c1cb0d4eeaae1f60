-- ===== src/Account/ActionLaws.antt =====
-- A transfer from its arguments to the request that the account sends.
use iotex_arduino.Base.{
  ℕ, ◌^◌, ◌≤◌, ◌<◌, ◌≡◌, refl, ap, ◌∙◌, arith, List, [], ◌∷◌, ◌++◌, ◌⊎◌, inl, inr,
}
use iotex_arduino.Base.{none, some, codes, length, length-append, drop, length-drop}
use iotex_arduino.Base.{c_string, c_string-text, IsText, append_assoc}
use iotex_arduino.Base.{Option-cases}
use iotex_arduino.ResultCode.{ResultCode}
use iotex_arduino.Json.{JsonLibrary, copy_string}
use iotex_arduino.Signer.{Crypto, get_hash, sign_hash}
use iotex_arduino.Host.{Host, host_to_string}
use iotex_arduino.Rpc.{TransferCore, send_token_transfer_call}
use iotex_arduino.Rpc.Bounds.{send_token_transfer_texts}
use iotex_arduino.Rpc.Json.{IsBase64, request_json, transfer_json}
use iotex_arduino.Encoder.Protobuf.{Nanopb, protobuf_encode_transfer, encode_core, encode_text}
use iotex_arduino.Encoder.Protobuf.{transfer_tag}
use iotex_arduino.Wallets.{send_token_transfer}
use iotex_arduino.Account.{Account}
use iotex_arduino.Account.Actions.{strcpy, transfer_core, sign_token_transfer_action}
use iotex_arduino.Account.Actions.{send_token_transfer_action}

pub strcpy_lem :
    (array text : List ℕ)
    → IsText text
    → length text < length array
    → (new : List ℕ) × (strcpy array text ≡ some new)
      × (c_string new ≡ some text)
      × (length new ≡ length array)
unfolding strcpy copy_string
strcpy_lem array text t h =
    let rest : List ℕ = drop (length (text ++ (0 ∷ []))) array in
    (
      (text ++ (0 ∷ [])) ++ rest,
      ground (arith, length-append text (0 ∷ [])),
      ap c_string (append_assoc text (0 ∷ []) rest) ∙ c_string-text text rest t,
      omega (
        arith,
        length-append (text ++ (0 ∷ [])) rest,
        length-append text (0 ∷ []),
        length-drop (length (text ++ (0 ∷ []))) array,
      ),
    )

strcpy_overrun : (array text : List ℕ) → length array ≤ length text → strcpy array text ≡ none
unfolding strcpy copy_string
strcpy_overrun array text h = ground (arith, length-append text (0 ∷ []))

-- What the documentation of ecdsa_sign_digest says of the array for the signature.
pub record IsSigning (crypto : Crypto) : Type 0 where
  pub length-signature : (key digest : List ℕ) → length (crypto.sign_digest key digest).1 ≡ 65

-- The signature of a transfer: of the hash of its protobuf message.
abbrev pub transfer_signature :
    (crypto : Crypto) (nanopb : Nanopb) → Account → ℕ → ℕ → List ℕ → List ℕ → List ℕ → List ℕ
transfer_signature crypto nanopb account nonce gas_limit gas_price amount recipient =
    (sign_hash crypto
      (get_hash crypto (
        encode_core nanopb 1024 (record {
          version = 1;
          nonce = nonce;
          gas_limit = gas_limit;
          gas_price = encode_text nanopb gas_price;
          action = transfer_tag (encode_text nanopb amount) (encode_text nanopb recipient);
        })))
      account.private_key).1

transfer_signed :
    (crypto : Crypto) (nanopb : Nanopb) (account : Account) (transfer : TransferCore)
    (gas_price amount recipient : List ℕ)
    → transfer.version ≡ 1
    → c_string transfer.gas_price ≡ some gas_price
    → c_string transfer.amount ≡ some amount
    → c_string transfer.recipient ≡ some recipient
    → sign_token_transfer_action crypto nanopb account transfer
      ≡ some (
          transfer_signature crypto nanopb account transfer.nonce transfer.gas_limit gas_price
            amount recipient)
unfolding sign_token_transfer_action protobuf_encode_transfer
transfer_signed crypto nanopb account transfer gas_price amount recipient v g a r =
    rw v (rw g (rw a (rw r refl)))

-- The texts that fit in the arrays of the core, with their terminators.
abbrev pub Fit : List ℕ → List ℕ → List ℕ → Type 0
Fit gas_price amount recipient =
    (length gas_price ≤ 30) × (length amount ≤ 30) × (length recipient ≤ 41)

transfer_core-Fit :
    (stack : TransferCore) (nonce gas_limit : ℕ) (gas_price amount recipient : List ℕ)
    → IsText gas_price × IsText amount × IsText recipient
    → (length stack.gas_price ≡ 31) × (length stack.amount ≡ 31) × (length stack.recipient ≡ 42)
    → Fit gas_price amount recipient
    → (core : TransferCore) × (transfer_core stack nonce gas_limit gas_price amount recipient
        ≡ some core)
      × (core.version ≡ 1)
      × (core.nonce ≡ nonce)
      × (core.gas_limit ≡ gas_limit)
      × (core.chain_id ≡ 0)
      × (c_string core.gas_price ≡ some gas_price)
      × (c_string core.amount ≡ some amount)
      × (c_string core.recipient ≡ some recipient)
unfolding transfer_core
transfer_core-Fit stack nonce gas_limit gas_price amount recipient (tg, ta, tr) (lg, la, lr)
      (g, a, r) =
    let (g_array, g_copy, g_text, g_length) =
      strcpy_lem stack.gas_price gas_price tg (omega (arith, lg, g)) in
    let (a_array, a_copy, a_text, a_length) =
      strcpy_lem stack.amount amount ta (omega (arith, la, a)) in
    let (r_array, r_copy, r_text, r_length) =
      strcpy_lem stack.recipient recipient tr (omega (arith, lr, r)) in
    (
      record {
        version = 1;
        nonce = nonce;
        gas_limit = gas_limit;
        gas_price = g_array;
        chain_id = 0;
        amount = a_array;
        recipient = r_array;
        payload = [];
      },
      rw g_copy (rw a_copy (rw r_copy refl)),
      refl,
      refl,
      refl,
      refl,
      g_text,
      a_text,
      r_text,
    )

-- A text that does not fit is written behind its array.
pub transfer_core_overrun :
    (stack : TransferCore) (nonce gas_limit : ℕ) (gas_price amount recipient : List ℕ)
    → IsText gas_price × IsText amount × IsText recipient
    → (length stack.gas_price ≡ 31) × (length stack.amount ≡ 31) × (length stack.recipient ≡ 42)
    → ((30 < length gas_price) ⊎ (30 < length amount)) ⊎ (41 < length recipient)
    → transfer_core stack nonce gas_limit gas_price amount recipient ≡ none
unfolding transfer_core
transfer_core_overrun stack nonce gas_limit gas_price amount recipient texts (lg, la, lr) h =
    elim h [
      | inl (inl g) ↦ rw (strcpy_overrun stack.gas_price gas_price (omega (arith, lg, g))) refl
      | inl (inr a) ↦ elim (Option-cases (strcpy stack.gas_price gas_price)) [
        | inl e ↦ rw e refl
        | inr (array, e) ↦
            rw e (rw (strcpy_overrun stack.amount amount (omega (arith, la, a))) refl)
      ]
      | inr r ↦ elim (Option-cases (strcpy stack.gas_price gas_price)) [
        | inl e ↦ rw e refl
        | inr (array, e) ↦ elim (Option-cases (strcpy stack.amount amount)) [
          | inl f ↦ rw e (rw f refl)
          | inr (array', f) ↦
              rw e
                (rw f (rw (strcpy_overrun stack.recipient recipient (omega (arith, lr, r))) refl))
        ]
      ]
    ]

-- For a base64 encoder as documented, a crypto library whose signatures have 65 bytes, a host with a
-- URL, a public key of 65 bytes, a nonce and a gas limit of 64 bits, and the core's arrays on the
-- stack: when the gas price and the amount have at most 30 characters and the recipient at most 41,
-- sendTokenTransferAction signs the hash of the protobuf message of exactly these values, and returns
-- what sendTokenTransfer of the wallet returns for a core whose request has the URL of the host with
-- SendAction behind it and, as body, the JSON object of the same values with the public key and that
-- signature in base64. When one of the texts is longer, it writes behind an array.
pub send_token_transfer_action_lem :
    (crypto : Crypto) (nanopb : Nanopb) (bintob64 : List ℕ → List ℕ) (library : JsonLibrary)
    (post : List ℕ → List ℕ → ResultCode × List ℕ) (account : Account) (host : Host) (url : List ℕ)
    (stack : TransferCore) (nonce gas_limit : ℕ) (gas_price amount recipient memory hash : List ℕ)
    → IsBase64 bintob64
    → IsSigning crypto
    → host_to_string host ≡ some url
    → length account.public_key ≡ 65
    → nonce < 2 ^ 64
    → gas_limit < 2 ^ 64
    → IsText gas_price × IsText amount × IsText recipient
    → (length stack.gas_price ≡ 31) × (length stack.amount ≡ 31) × (length stack.recipient ≡ 42)
    → let action =
        send_token_transfer_action crypto nanopb bintob64 library post account host stack nonce
          gas_limit gas_price amount recipient memory hash in
      let signature =
        transfer_signature crypto nanopb account nonce gas_limit gas_price amount recipient in
      ((((30 < length gas_price) ⊎ (30 < length amount)) ⊎ (41 < length recipient))
        × (action ≡ none))
      ⊎ (Fit gas_price amount recipient
          × ((core : TransferCore) × (core.version ≡ 1)
              × (core.nonce ≡ nonce)
              × (core.gas_limit ≡ gas_limit)
              × (core.chain_id ≡ 0)
              × (send_token_transfer_call bintob64 host core account.public_key signature
                  ≡ some (record {
                    url = url ++ codes "SendAction";
                    body =
                        request_json
                          (transfer_json core gas_price amount recipient)
                          (bintob64 account.public_key)
                          (bintob64 signature);
                  }))
              × (action
                  ≡ send_token_transfer library post bintob64 host account.public_key signature core
                      memory hash)))
unfolding send_token_transfer_action
send_token_transfer_action_lem crypto nanopb bintob64 library post account host url stack nonce
      gas_limit gas_price amount recipient memory hash base64 signing u p n l texts arrays =
    elim (fits (length gas_price) (length amount) (length recipient)) [
      | inl long ↦ inl (
        long,
        rw
            (transfer_core_overrun stack nonce gas_limit gas_price amount recipient texts arrays
              long)
            refl,
      )
      | inr fit ↦
          let (core, made, v, cn, cl, cc, g, a, r) =
            transfer_core-Fit stack nonce gas_limit gas_price amount recipient texts arrays fit in
          let signature : List ℕ =
            transfer_signature crypto nanopb account nonce gas_limit gas_price amount recipient in
          let signed : sign_token_transfer_action crypto nanopb account core ≡ some signature =
            transfer_signed crypto nanopb account core gas_price amount recipient v g a r
            ∙ ap
                (λ (t : ℕ × ℕ).
                  some
                    (transfer_signature crypto nanopb account t.0 t.1 gas_price amount recipient))
                (pair cn cl) in
          inr (
            fit,
            (
              core,
              v,
              cn,
              cl,
              cc,
              send_token_transfer_texts bintob64 host url core gas_price amount recipient
                  account.public_key signature base64 u (omega (arith, v)) (omega (arith, cn, n))
                  (omega (arith, cl, l)) (omega (arith, cc)) (g, fit.0) (a, fit.1) (r, fit.2) p
                  (unfold sign_hash in signing.length-signature _ _),
              rw made (rw signed refl),
            ),
          )
    ]
  where
    fits : (g a r : ℕ) → (((30 < g) ⊎ (30 < a)) ⊎ (41 < r)) ⊎ ((g ≤ 30) × (a ≤ 30) × (r ≤ 41))
    fits g a r = ground arith

    pair : {a b c d : ℕ} → a ≡ b → c ≡ d → ◌≡◌ {A = ℕ × ℕ} (a, c) (b, d)
    pair p q = rw p (rw q refl)
