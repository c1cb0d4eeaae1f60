-- ===== src/Account/ActionRuns.antt =====
-- The sending of actions at a concrete account.
use iotex_arduino.Base.{
  ℕ, ◌<◌, ◌≡◌, refl, arith, List, [], ◌∷◌, ◌++◌, ◌⊎◌, true, false, Option, none, some,
}
use iotex_arduino.Base.{codes, replicate}
use iotex_arduino.Base.{zero, suc, All, IsByte}
use iotex_arduino.ResultCode.{ResultCode, error_http, success}
use iotex_arduino.Signer.Hex.{hex_text}
use iotex_arduino.Account.ExecutionLaws.{send_execution_action_lem}
use iotex_arduino.Json.{JsonLibrary}
use iotex_arduino.Signer.{Crypto}
use iotex_arduino.Rpc.{TransferCore, ExecutionCore, send_token_transfer_call}
use iotex_arduino.Rpc.Json.{request_json, transfer_json}
use iotex_arduino.Rpc.Runs.{dashes, dashes-IsBase64, gateway, gateway_url, one_iotx}
use iotex_arduino.Encoder.Protobuf.{Nanopb}
use iotex_arduino.Wallets.{send_token_transfer}
use iotex_arduino.Account.{Account}
use iotex_arduino.Account.Actions.{send_token_transfer_action, send_execution_action}
use iotex_arduino.Account.ContractCall.{generate_call_data-send_execution_action}
use iotex_arduino.Contract.Runs.{pay, pay_params, pay_arguments, pay_sign, pay_supplied}
use iotex_arduino.Contract.CallData.{generate_call_data}
use iotex_arduino.Account.ActionLaws.{Fit, transfer_signature, send_token_transfer_action_lem}

abbrev all_seven : Crypto
all_seven = record {
  Context = List ℕ;
  init = [];
  update = λ c xs. c ++ xs;
  keccak_final = λ c. replicate 32 7;
  keccak_256 = λ xs. replicate 32 7;
  public_key65 = λ key. 4 ∷ (key ++ key);
  sign_digest = λ key digest. (0, replicate 65 7);
}

-- Tags and texts in a row, of a message by its gas price only.
abbrev rows : Nanopb
rows = record {
  Stream = List ℕ;
  ostream_from_buffer = λ n. [];
  encode_tag_for_field = λ stream tag. (true, stream ++ (tag ∷ []));
  encode_string = λ stream text. (true, stream ++ text);
  encode = λ stream core. core.gas_price stream 4;
  written = λ stream. stream;
}

abbrev no_json : JsonLibrary
no_json = record {
  Json = ℕ;
  parse = λ text. 0;
  is_null = λ json. true;
  get_object_item = λ json key. json;
  get_array_item = λ json i. json;
  array_items = λ json. [];
  is_object = λ json. false;
  is_array = λ json. false;
  is_bool = λ json. false;
  is_string = λ json. false;
  is_number = λ json. false;
  value_string = λ json. [];
  value_int = λ json. 0;
  atol = λ text. 0;
}

abbrev offline : List ℕ → List ℕ → ResultCode × List ℕ
offline url body = (error_http, [])

abbrev sender : Account
sender = record {
  iotex_addr = [];
  eth_addr = [];
  public_key = replicate 65 4;
  private_key = replicate 32 1;
}

abbrev sent_action : Option (ResultCode × List ℕ)
sent_action =
    send_token_transfer_action all_seven rows dashes no_json offline sender gateway one_iotx 7 20000
      (codes "12") (codes "5") (codes "io1") [] (replicate 32 0)

abbrev sent_signature : List ℕ
sent_signature =
    transfer_signature all_seven rows sender 7 20000 (codes "12") (codes "5") (codes "io1")

send_token_transfer_action_lem_example :
    ((((30 < 2) ⊎ (30 < 1)) ⊎ (41 < 3)) × (sent_action ≡ none))
    ⊎ (Fit (codes "12") (codes "5") (codes "io1")
        × ((core : TransferCore) × (core.version ≡ 1)
            × (core.nonce ≡ 7)
            × (core.gas_limit ≡ 20000)
            × (core.chain_id ≡ 0)
            × (send_token_transfer_call dashes gateway core (replicate 65 4) sent_signature
                ≡ some (record {
                  url = codes "iotex:10000/SendAction";
                  body =
                      request_json
                        (transfer_json core (codes "12") (codes "5") (codes "io1"))
                        (dashes (replicate 65 4))
                        (dashes sent_signature);
                }))
            × (sent_action
                ≡ send_token_transfer no_json offline dashes gateway
                    (replicate 65 4)
                    sent_signature
                    core
                    []
                    (replicate 32 0))))
send_token_transfer_action_lem_example =
    send_token_transfer_action_lem all_seven rows dashes no_json offline sender gateway
      (codes "iotex:10000/") one_iotx 7 20000 (codes "12") (codes "5") (codes "io1") []
      (replicate 32 0) dashes-IsBase64 (record { length-signature = λ key digest. refl })
      gateway_url refl (omega arith) (omega arith)
      (
        (omega arith, (omega arith, tt)),
        (omega arith, tt),
        (omega arith, (omega arith, (omega arith, tt))),
      )
      (refl, refl, refl)

-- Every value is a text, that of the hash.
abbrev hash_everywhere : JsonLibrary
hash_everywhere = record no_json {
  is_null = λ json. false;
  is_string = λ json. true;
  value_string = λ json. hex_text (replicate 32 0xab);
}

abbrev online : List ℕ → List ℕ → ResultCode × List ℕ
online url body = (success, codes "{}")

abbrev stack_core : ExecutionCore
stack_core = record {
  version = 0;
  nonce = 0;
  gas_limit = 0;
  gas_price = replicate 31 9;
  amount = replicate 31 9;
  contract = replicate 42 9;
  payload = [];
}

replicate-IsByte : (n b : ℕ) → IsByte b → All IsByte (replicate n b)
replicate-IsByte zero b h = tt
replicate-IsByte (suc n) b h = (h, replicate-IsByte n b h)

send_execution_action_lem_example :
    send_execution_action all_seven rows dashes hash_everywhere online sender gateway stack_core 7
      20000
      (codes "12")
      (codes "0")
      (codes "io1")
      (hex_text (replicate 36 0xcd))
      []
      (replicate 32 0)
    ≡ some (success, replicate 32 0xab)
send_execution_action_lem_example =
    send_execution_action_lem all_seven rows dashes hash_everywhere online sender gateway
      (codes "iotex:10000/") stack_core 7 20000 (codes "12") (codes "0") (codes "io1")
      (replicate 36 0xcd) [] (replicate 32 0xab) (replicate 32 0) dashes-IsBase64
      (record { length-signature = λ key digest. refl }) gateway_url refl (omega arith)
      (omega arith)
      (
        (omega arith, (omega arith, tt)),
        (omega arith, tt),
        (omega arith, (omega arith, (omega arith, tt))),
      )
      (refl, refl, refl) (omega arith, omega arith, omega arith)
      (replicate-IsByte 36 0xcd (omega arith)) (omega arith) refl refl
      (replicate-IsByte 32 0xab (omega arith)) refl refl

generate_call_data-send_execution_action_example :
    (text : List ℕ) × (generate_call_data all_seven (pay ∷ []) (codes "pay") pay_params []
      ≡ some (success, text))
    × (((pay_arguments ≡ [])
          × (send_execution_action all_seven rows dashes hash_everywhere online sender gateway
                stack_core 7 20000
                (codes "12")
                (codes "0")
                (codes "io1")
                text
                []
                (replicate 32 0)
              ≡ none))
        ⊎ ((0 < 2)
            × (send_execution_action all_seven rows dashes hash_everywhere online sender gateway
                  stack_core 7 20000
                  (codes "12")
                  (codes "0")
                  (codes "io1")
                  text
                  []
                  (replicate 32 0)
                ≡ some (success, replicate 32 0xab))))
generate_call_data-send_execution_action_example =
    generate_call_data-send_execution_action all_seven rows dashes hash_everywhere online sender
      gateway (codes "iotex:10000/") stack_core 7 20000 (codes "12") (codes "0") (codes "io1") []
      (replicate 32 0xab) (replicate 32 0) [] [] pay pay_params pay_arguments
      (codes "pay(address,uint256)") [] dashes-IsBase64
      (record { length-signature = λ key digest. refl })
      (record {
        length-keccak_256 = λ xs. refl;
        keccak_256-IsByte = λ xs. replicate-IsByte 32 7 (omega arith);
      })
      gateway_url refl (omega arith) (omega arith)
      (
        (omega arith, (omega arith, tt)),
        (omega arith, tt),
        (omega arith, (omega arith, (omega arith, tt))),
      )
      (refl, refl, refl) (omega arith, omega arith, omega arith) tt tt pay_sign pay_supplied
      (refl, (refl, tt)) (omega arith, (tt, tt)) (λ some_lem. refl) (λ some_lem. refl)
      (replicate-IsByte 32 0xab (omega arith)) refl refl
