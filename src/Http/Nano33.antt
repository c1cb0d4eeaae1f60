-- ===== src/Http/Nano33.antt =====
-- post of src/http/nano33/http.cpp over the WiFiClient of the board. A `none` is the value of a number
-- that an `int` does not hold, or the end of the fuel for the loop that reads the answer.
use iotex_arduino.Base.{ℕ, zero, suc, ◌+◌, List, [], ◌∷◌, ◌++◌, Bool, true, false, not, ◌&&◌, ◌==◌}
use iotex_arduino.Base.{Option, none, some, ◌>>=◌, take, drop, length, ltb, leb, if◌then◌else◌}
use iotex_arduino.Base.{codes, text_eq, decimal, print_int, atoi, first_index}
use iotex_arduino.ResultCode.{ResultCode, success, error_http}

-- The client of the WiFiNINA library: what its calls do to the state of the board and the network.
-- `available` is the number of characters that wait, and `delay` lets one millisecond pass.
pub record WifiClient : Type 1 where
  pub State : Type 0
  pub connect : State → List ℕ → ℕ → State × Bool
  pub print : State → List ℕ → State
  pub available : State → ℕ
  pub read : State → State × ℕ
  pub delay : State → State
  pub stop : State → State

-- The members that are stored for the current request.
pub record Target : Type 0 where
  pub host : List ℕ
  pub port : ℕ
  pub path : List ℕ

-- The comparison of six characters, of which the last is the terminator.
abbrev pub default_port : List ℕ → ℕ
default_port uri =
    if text_eq (take 6 (uri ++ (0 ∷ []))) (codes "https" ++ (0 ∷ [])) then 443 else 80

-- `host.substring(0, host.indexOf(c))` where there is such a character.
abbrev pub before_first : ℕ → List ℕ → List ℕ
before_first c text = elim (first_index c text) [ none ↦ text | some i ↦ take i text ]

-- `uri.substring(uri.indexOf('/'))`, which is empty for the index -1.
abbrev pub path_of : List ℕ → List ℕ
path_of uri = elim (first_index b'/' uri) [ none ↦ [] | some i ↦ drop i uri ]

unfoldable pub parse_uri : List ℕ → Option Target
parse_uri uri =
    let host = before_first b'/' uri in
    elim (first_index b':' host) [
      | none ↦ some (record { host = host; port = default_port uri; path = path_of uri })
      | some i ↦ elim (atoi (drop (i + 1) host)) [
        | none ↦ none
        | some port ↦ some (record { host = take i host; port = port; path = path_of uri })
      ]
    ]

-- What post prints to the client, in its order.
unfoldable pub request_texts : Target → List ℕ → List (List ℕ)
request_texts target body =
    codes "POST "
    ∷ target.path
    ∷ codes " HTTP/1.1\r\n"
    ∷ codes "Host: "
    ∷ target.host
    ∷ codes ":"
    ∷ print_int target.port
    ∷ codes "\r\n"
    ∷ codes "Content-Type: application/json\r\n"
    ∷ codes "Connection: close\r\n"
    ∷ codes "Content-Length: "
    ∷ decimal (length body)
    ∷ codes "\r\n\r\n"
    ∷ body
    ∷ []

-- What post makes of the text that it has received.
unfoldable pub json_part : List ℕ → ResultCode × List ℕ
json_part response = elim (first_index b'{' response) [
  | some i ↦ if ltb 0 (length response) then (success, drop i response) else (error_http, response)
  | none ↦ (error_http, response)
]

abbrev pub timeout : ℕ
timeout = 10000

module _ (client : WifiClient) where
  unfoldable pub http_initialize : client.State → List ℕ → Option (client.State × Bool × Target)
  http_initialize s uri = do
    target ← parse_uri uri
    let (s', connected) = client.connect s target.host target.port
    some (s', connected, target)

  unfoldable pub print_each : client.State → List (List ℕ) → client.State
  print_each s [] = s
  print_each s (text ∷ texts) = print_each (client.print s text) texts

  -- The loop of waitForResponse, with fuel for its rounds.
  unfoldable pub wait_loop : ℕ → ℕ → client.State → Option (Bool × client.State)
  wait_loop zero elapsed s = none
  wait_loop (suc fuel) elapsed s =
      let rest = wait_loop fuel (elapsed + 1) (client.delay s) in
      if client.available s == 0 && ltb elapsed timeout
      then if leb timeout (elapsed + 1) then some (false, client.delay s) else rest
      else some (not (client.available s == 0), s)

  unfoldable pub wait_for_response : client.State → Option (Bool × client.State)
  wait_for_response s = wait_loop timeout 0 s

  -- The loop that reads, behind what it has read.
  unfoldable pub read_loop : ℕ → List ℕ → client.State → Option (List ℕ × client.State)
  read_loop zero response s = none
  read_loop (suc fuel) response s =
      let next = client.read s in
      let rest = read_loop fuel (response ++ (next.1 ∷ [])) next.0 in
      if client.available s == 0 then some (response, s) else rest

  -- The client is not stopped when nothing arrives.
  unfoldable pub get_server_response : ℕ → client.State → Option (List ℕ × client.State)
  get_server_response fuel s = do
    waited ← wait_for_response s
    if not waited.0 then some ([], waited.1) else do
      response ←
          if ltb 0 (client.available waited.1)
          then read_loop fuel [] waited.1
          else some ([], waited.1)
      some (response.0, client.stop response.1)

  unfoldable pub nano33_post :
      ℕ → client.State → List ℕ → List ℕ → List ℕ → Option ((ResultCode × List ℕ) × client.State)
  nano33_post fuel s request body response = do
    ready ← http_initialize s request
    elim ready.1 [
      | false ↦ some ((error_http, response), ready.0)
      | true ↦ do
        answer ← get_server_response fuel (print_each ready.0 (request_texts ready.2 body))
        some (json_part answer.0, answer.1)
    ]
