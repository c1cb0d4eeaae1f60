-- ===== src/Rpc/Json.antt =====
-- The JSON text of the requests that send an action, and what `sprintf` leaves in an array.
use iotex_arduino.Base.{ℕ, ◌+◌, ◌*◌, ◌/◌, ◌≤◌, ◌<◌, ◌≡◌, refl, sym, ap, arith, List, [], ◌∷◌}
use iotex_arduino.Base.{◌++◌, none, some, append-nil, append_assoc, length, length-append}
use iotex_arduino.Base.{length-replicate, replicate, drop, codes, decimal}
use iotex_arduino.Base.{print_int, c_string-text, IsText}
use iotex_arduino.Json.{copy_string}
use iotex_arduino.Rpc.{TransferCore, ExecutionCore, transfer_texts, execution_texts, print_all}
use iotex_arduino.Rpc.{base64_encode, base64_text}

-- A member with its key, with or without a blank, a text in quotes, and an object of members.
abbrev pub member : List ℕ → List ℕ → List ℕ
member key value = codes "\"" ++ (key ++ (codes "\": " ++ value))

abbrev pub tight_member : List ℕ → List ℕ → List ℕ
tight_member key value = codes "\"" ++ (key ++ (codes "\":" ++ value))

abbrev pub quoted : List ℕ → List ℕ
quoted s = codes "\"" ++ (s ++ codes "\"")

abbrev pub separated : List (List ℕ) → List ℕ
separated [] = []
separated (m ∷ []) = m
separated (m ∷ n ∷ ms) = m ++ (b',' ∷ separated (n ∷ ms))

abbrev pub object : List (List ℕ) → List ℕ
object ms = b'{' ∷ (separated ms ++ codes "}")

-- The request of a signed action by the object of its core.
abbrev pub request_json : List ℕ → List ℕ → List ℕ → List ℕ
request_json core public_key signature = object (
    member (codes "action") (
      object (
        member (codes "core") core
        ∷ member (codes "senderPubKey") (quoted public_key)
        ∷ member (codes "signature") (quoted signature)
        ∷ member (codes "encoding") (quoted (codes "IOTEX_PROTOBUF"))
        ∷ []))
    ∷ [])

abbrev pub transfer_json : TransferCore → List ℕ → List ℕ → List ℕ → List ℕ
transfer_json transfer gas_price amount recipient = object (
    member (codes "version") (print_int transfer.version)
    ∷ member (codes "nonce") (quoted (decimal transfer.nonce))
    ∷ member (codes "gasLimit") (quoted (decimal transfer.gas_limit))
    ∷ member (codes "gasPrice") (quoted gas_price)
    ∷ member (codes "chainID") (print_int transfer.chain_id)
    ∷ tight_member (codes "transfer") (
        object (
          member (codes "amount") (quoted amount)
          ∷ member (codes "recipient") (quoted recipient)
          ∷ member (codes "payload") (quoted [])
          ∷ []))
    ∷ [])

abbrev pub execution_json : ExecutionCore → List ℕ → List ℕ → List ℕ → List ℕ → List ℕ
execution_json execution gas_price amount contract data_text = object (
    member (codes "version") (print_int execution.version)
    ∷ member (codes "nonce") (quoted (decimal execution.nonce))
    ∷ member (codes "gasLimit") (quoted (decimal execution.gas_limit))
    ∷ member (codes "gasPrice") (quoted gas_price)
    ∷ tight_member (codes "execution") (
        object (
          member (codes "amount") (quoted amount)
          ∷ member (codes "contract") (quoted contract)
          ∷ member (codes "data") (quoted data_text)
          ∷ []))
    ∷ [])

abbrev pub concat : List (List ℕ) → List ℕ
concat [] = []
concat (text ∷ texts) = text ++ concat texts

pub concat-transfer_texts :
    (transfer : TransferCore) (gas_price amount recipient public_key signature : List ℕ)
    → concat (transfer_texts transfer gas_price amount recipient public_key signature)
      ≡ request_json (transfer_json transfer gas_price amount recipient) public_key signature
concat-transfer_texts transfer gas_price amount recipient public_key signature = simp (append_assoc)

pub concat-execution_texts :
    (execution : ExecutionCore) (gas_price amount contract data_text public_key signature : List ℕ)
    → concat (execution_texts execution gas_price amount contract data_text public_key signature)
      ≡ request_json
          (execution_json execution gas_price amount contract data_text)
          public_key
          signature
concat-execution_texts execution gas_price amount contract data_text public_key signature =
    simp (append_assoc)

abbrev pub total_length : List (List ℕ) → ℕ
total_length [] = 0
total_length (text ∷ texts) = length text + total_length texts

pub length-concat : (texts : List (List ℕ)) → length (concat texts) ≡ total_length texts
length-concat [] = refl
length-concat (text ∷ texts) = omega (arith, length-append text (concat texts), length-concat texts)

pub print_all_lem :
    (size : ℕ) (texts : List (List ℕ)) (body : List ℕ)
    → length body + total_length texts < size
    → print_all size texts body ≡ some (body ++ concat texts)
unfolding print_all
print_all_lem size [] body h = ap some (sym (append-nil body))
print_all_lem size (text ∷ texts) body h = ground (
  arith,
  print_all_lem size texts (body ++ text) (omega (arith, length-append body text)),
  append_assoc body text (concat texts),
)

-- What the documentation of bintob64 says of its text.
pub record IsBase64 (bintob64 : List ℕ → List ℕ) : Type 0 where
  pub length_lem : (bytes : List ℕ) → length (bintob64 bytes) ≡ 4 * ((length bytes + 2) / 3)
  pub text_lem : (bytes : List ℕ) → IsText (bintob64 bytes)

pub base64_text_lem :
    (bintob64 : List ℕ → List ℕ) (size : ℕ) (bytes : List ℕ)
    → IsText (bintob64 bytes)
    → length (bintob64 bytes) < size
    → base64_text bintob64 size bytes ≡ some (bintob64 bytes)
unfolding base64_text base64_encode copy_string
base64_text_lem bintob64 size bytes text h =
    let t : List ℕ = bintob64 bytes in
    let rest : List ℕ = drop (length (t ++ (0 ∷ []))) (replicate size 0) in
    ground (
      arith,
      length-append t (0 ∷ []),
      length-replicate {A = ℕ} size 0,
      append_assoc t (0 ∷ []) rest,
      c_string-text t rest text,
    )

pub base64_text_overrun :
    (bintob64 : List ℕ → List ℕ) (size : ℕ) (bytes : List ℕ)
    → size ≤ length (bintob64 bytes)
    → base64_text bintob64 size bytes ≡ none
unfolding base64_text base64_encode copy_string
base64_text_overrun bintob64 size bytes h =
    ground (arith, length-append (bintob64 bytes) (0 ∷ []), length-replicate {A = ℕ} size 0)
