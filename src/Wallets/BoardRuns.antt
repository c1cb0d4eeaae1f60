-- ===== src/Wallets/BoardRuns.antt =====
-- getAccount and getBalance on a board whose network answers after one millisecond.
use iotex_arduino.Base.{
  ℕ, ◌≡◌, refl, arith, List, [], ◌++◌, some, codes, in_array, c_string, text_eq, true, decimal,
}
use iotex_arduino.ResultCode.{ResultCode, success}
use iotex_arduino.Json.{accepts_string}
use iotex_arduino.Host.Address.{host_of, url_text}
use iotex_arduino.Http.Nano33.{nano33_post}
use iotex_arduino.Http.Waiting.{now, later, read_all, waiting}
use iotex_arduino.Http.Exchange.{answered, json}
use iotex_arduino.Http.NanoRuns.{small_network}
use iotex_arduino.Responses.Runs.{account_documents, unwritten_account}
use iotex_arduino.Host.{host_to_string}
use iotex_arduino.Wallets.{get_account, get_balance}
use iotex_arduino.Wallets.Balance.{get_balance_lem}
use iotex_arduino.Wallets.Board.{account_body, get_account-nano33_post}

abbrev empty_object : List ℕ → List ℕ → ResultCode × List ℕ
empty_object url body = (success, codes "{}")

host_url : host_to_string (host_of (codes "io") 80 []) ≡ some (codes "io:80/")
unfolding host_to_string c_string decimal
host_url = refl

get_account-nano33_post_example :
    (nano33_post small_network 10
        (1, codes "x{}")
        (url_text (codes "io") 80 [] ++ codes "GetAccount")
        (account_body (codes "io1"))
        []
      ≡ some ((success, codes "{}"), (0, [])))
    × (get_account account_documents empty_object
          (host_of (codes "io") 80 [])
          (codes "io1")
          unwritten_account
          unwritten_account
        ≡ some (
          success,
          record {
            address = in_array 42 (codes "12");
            balance = in_array 31 (codes "12");
            nonce = codes "12";
            pending_nonce = codes "12";
            num_actions = codes "12";
            is_contract = true;
          },
        ))
unfolding text_eq accepts_string
get_account-nano33_post_example =
    get_account-nano33_post small_network account_documents empty_object 10 80 (1, codes "x{}")
      (0, []) (codes "io") [] (codes "io1") unwritten_account unwritten_account
      (success, codes "{}") (record { append_lem = λ s a b. refl }) (omega arith) (omega arith)
      (omega arith, (omega arith, tt)) tt (omega arith) (omega arith, (omega arith, tt))
      (omega arith, (omega arith, tt))
      (answered refl (omega arith) (later refl now) (omega arith) (omega arith)
        (waiting (omega arith) refl
          (waiting (omega arith) refl (waiting (omega arith) refl (read_all refl))))
        (json (codes "x") (codes "}") (omega arith, tt)))
      refl

get_balance_lem_example :
    get_balance account_documents empty_object (host_of (codes "io") 80 []) (codes "io1") []
    ≡ some (success, codes "12")
unfolding text_eq
get_balance_lem_example =
    get_balance_lem account_documents empty_object (host_of (codes "io") 80 []) (codes "io:80/")
      (codes "io1") [] host_url
