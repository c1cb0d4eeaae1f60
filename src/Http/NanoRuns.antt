-- ===== src/Http/NanoRuns.antt =====
-- post of the nano33 board over a small network.
use iotex_arduino.Base.{ℕ, ◌-◌, ◌<◌, ◌≡◌, refl, arith, List, [], ◌∷◌, ◌++◌, true}
use iotex_arduino.Base.{some, length, codes, ◌==◌, if◌then◌else◌, ◌⊎◌, false, decimal}
use iotex_arduino.ResultCode.{success}
use iotex_arduino.Host.Address.{url_text}
use iotex_arduino.Http.Nano33.{WifiClient, parse_uri, nano33_post, wait_for_response}
use iotex_arduino.Http.Waiting.{IsSilent, now, later, read_all, waiting, after}
use iotex_arduino.Http.Waiting.{wait_for_response_lem}
use iotex_arduino.Http.Uri.{parse_uri-url_text}
use iotex_arduino.Http.Exchange.{nano33_post-Exchange, answered, json}

-- The milliseconds until the answer arrives, and the rest of it.
abbrev pub small_network : WifiClient
small_network = record {
  State = ℕ × List ℕ;
  connect = λ s host port. (s, true);
  print = λ s text. s;
  available = λ s. if s.0 == 0 then length s.1 else 0;
  read = λ s. elim s.1 [ [] ↦ (s, 255) | c ∷ text ↦ ((s.0, text), c) ];
  delay = λ s. (s.0 - 1, s.1);
  stop = λ s. s;
}

wait_for_response_lem_example :
    ((n : ℕ) × (n < 10000)
      × IsSilent small_network n (2, codes "{}")
      × (0 < small_network.available (after small_network n (2, codes "{}")))
      × (wait_for_response small_network (2, codes "{}")
          ≡ some (true, after small_network n (2, codes "{}"))))
    ⊎ (IsSilent small_network 10000 (2, codes "{}")
        × (wait_for_response small_network (2, codes "{}")
            ≡ some (false, after small_network 10000 (2, codes "{}"))))
wait_for_response_lem_example = wait_for_response_lem small_network (2, codes "{}")

parse_uri-url_text_example :
    parse_uri (codes "io:80/v1/SendAction")
    ≡ some (record { host = codes "io"; port = 80; path = codes "/v1/SendAction" })
unfolding decimal
parse_uri-url_text_example =
    parse_uri-url_text (codes "io") 80 (codes "v1") (codes "SendAction")
      (omega arith, (omega arith, tt)) (omega arith, (omega arith, tt)) (omega arith)

-- An answer of three characters after one millisecond.
nano33_post-Exchange_example :
    nano33_post small_network 10
      (1, codes "x{}")
      (url_text (codes "io") 80 [] ++ codes "GetAccount")
      (codes "{}")
      []
    ≡ some ((success, codes "{}"), (0, []))
nano33_post-Exchange_example =
    nano33_post-Exchange small_network (record { append_lem = λ s a b. refl }) 10 80
      (1, codes "x{}") (codes "io") [] (codes "GetAccount") (codes "{}") []
      ((success, codes "{}"), (0, [])) (omega arith, (omega arith, tt))
      (omega arith, (omega arith, tt)) (omega arith)
      (answered refl (omega arith) (later refl now) (omega arith) (omega arith)
        (waiting (omega arith) refl
          (waiting (omega arith) refl (waiting (omega arith) refl (read_all refl))))
        (json (codes "x") (codes "}") (omega arith, tt)))
