-- ===== src/Rpc/Runs.antt =====
-- The theorems on requests at a concrete host and action.
use iotex_arduino.Base.{ℕ, zero, suc, ◌+◌, ◌*◌, ◌/◌, ◌<◌, ◌≡◌, refl, arith, List, [], ◌∷◌}
use iotex_arduino.Base.{none, some, codes, length, length-replicate, replicate, c_string, decimal}
use iotex_arduino.Base.{in_array, IsText, ◌⊎◌}
use iotex_arduino.Signer.Hex.{hex_text}
use iotex_arduino.Host.{Host, host_to_string}
use iotex_arduino.Rpc.{TransferCore, ExecutionCore, send_token_transfer_call, send_execution_call}
use iotex_arduino.Rpc.Json.{request_json, transfer_json, execution_json, IsBase64}
use iotex_arduino.Rpc.Bounds.{send_token_transfer_call_lem}
use iotex_arduino.Rpc.Execution.{send_execution_call_lem}

-- A text of the length that a base64 text has.
abbrev pub dashes : List ℕ → List ℕ
dashes bytes = replicate (4 * ((length bytes + 2) / 3)) b'-'

replicate-IsText : (n : ℕ) → IsText (replicate n b'-')
replicate-IsText zero = tt
replicate-IsText (suc n) = (omega arith, replicate-IsText n)

pub dashes-IsBase64 : IsBase64 dashes
dashes-IsBase64 = record {
  length_lem = λ bytes. length-replicate (4 * ((length bytes + 2) / 3)) b'-';
  text_lem = λ bytes. replicate-IsText (4 * ((length bytes + 2) / 3));
}

abbrev pub gateway : Host
gateway = record {
  hostname = in_array 129 (codes "iotex");
  base_url = in_array 129 [];
  port = 10000;
}

pub gateway_url : host_to_string gateway ≡ some (codes "iotex:10000/")
unfolding host_to_string c_string decimal
gateway_url = refl

abbrev pub one_iotx : TransferCore
one_iotx = record {
  version = 1;
  nonce = 7;
  gas_limit = 20000;
  gas_price = in_array 31 (codes "1000000000000");
  chain_id = 2;
  amount = in_array 31 (codes "1000000000000000000");
  recipient = in_array 42 (codes "io1");
  payload = [];
}

abbrev call_of : List ℕ → ExecutionCore
call_of payload = record {
  version = 1;
  nonce = 7;
  gas_limit = 20000;
  gas_price = in_array 31 (codes "1000000000000");
  amount = in_array 31 (codes "0");
  contract = in_array 42 (codes "io1");
  payload = payload;
}

send_token_transfer_call_lem_example :
    (gas_price amount recipient : List ℕ) × (c_string one_iotx.gas_price ≡ some gas_price)
    × (c_string one_iotx.amount ≡ some amount)
    × (c_string one_iotx.recipient ≡ some recipient)
    × (send_token_transfer_call dashes gateway one_iotx (replicate 65 4) (replicate 65 9)
        ≡ some (record {
          url = codes "iotex:10000/SendAction";
          body =
              request_json
                (transfer_json one_iotx gas_price amount recipient)
                (dashes (replicate 65 4))
                (dashes (replicate 65 9));
        }))
send_token_transfer_call_lem_example =
    send_token_transfer_call_lem dashes gateway (codes "iotex:10000/") one_iotx (replicate 65 4)
      (replicate 65 9) dashes-IsBase64 gateway_url
      (record {
        version_lem = omega arith;
        nonce_lem = omega arith;
        gas_limit_lem = omega arith;
        chain_id_lem = omega arith;
        gas_price_lem = (refl, refl);
        amount_lem = (refl, refl);
        recipient_lem = (refl, refl);
      })
      refl refl

abbrev selector : List ℕ
selector = 0xa9 ∷ 0x05 ∷ 0x9c ∷ 0xbb ∷ []

-- A call with a selector and no parameters.
send_execution_call_lem_example :
    (((length selector < 3) ⊎ (length selector ≡ 4))
      × (send_execution_call dashes gateway
            (call_of (hex_text selector))
            (replicate 65 4)
            (replicate 65 9)
          ≡ none))
    ⊎ (((length selector ≡ 3) ⊎ (4 < length selector))
        × ((gas_price amount contract : List ℕ) × (c_string (call_of (hex_text selector)).gas_price
              ≡ some gas_price)
            × (c_string (call_of (hex_text selector)).amount ≡ some amount)
            × (c_string (call_of (hex_text selector)).contract ≡ some contract)
            × (send_execution_call dashes gateway
                  (call_of (hex_text selector))
                  (replicate 65 4)
                  (replicate 65 9)
                ≡ some (record {
                  url = codes "iotex:10000/SendAction";
                  body =
                      request_json
                        (execution_json
                          (call_of (hex_text selector))
                          gas_price
                          amount
                          contract
                          (dashes selector))
                        (dashes (replicate 65 4))
                        (dashes (replicate 65 9));
                }))))
send_execution_call_lem_example =
    send_execution_call_lem dashes gateway (codes "iotex:10000/") (call_of (hex_text selector))
      selector (replicate 65 4) (replicate 65 9) dashes-IsBase64 gateway_url
      (record {
        version_lem = omega arith;
        nonce_lem = omega arith;
        gas_limit_lem = omega arith;
        gas_price_lem = (refl, refl);
        amount_lem = (refl, refl);
        contract_lem = (refl, refl);
      })
      refl (omega arith, (omega arith, (omega arith, (omega arith, tt)))) refl refl
