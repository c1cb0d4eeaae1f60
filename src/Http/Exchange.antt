-- ===== src/Http/Exchange.antt =====
-- A request of the nano33 board and the answer to it.
use iotex_arduino.Base.{ℕ, ◌<◌, ◌≡◌, refl, arith, List, [], ◌∷◌, ◌++◌}
use iotex_arduino.Base.{true, false, some, length, codes, decimal}
use iotex_arduino.Base.{Without, first_index, first_index-found, first_index-absent, drop-append}
use iotex_arduino.Base.{drop, print_int-decimal}
use iotex_arduino.Base.{append_assoc, append-nil, length-append}
use iotex_arduino.ResultCode.{ResultCode, success, error_http}
use iotex_arduino.Host.Address.{url_text}
use iotex_arduino.Http.Nano33.{WifiClient, request_texts, json_part, http_initialize}
use iotex_arduino.Http.Nano33.{print_each, get_server_response, nano33_post}
use iotex_arduino.Http.Waiting.{IsSilent, Holds, after, wait_for_response-arrives}
use iotex_arduino.Http.Waiting.{wait_for_response-silent, read_loop-Holds, waiting}
use iotex_arduino.Http.Uri.{path_text, parse_uri-url_text}

-- The text of a request, behind the connection.
abbrev pub post_text : List ℕ → ℕ → List ℕ → List ℕ → List ℕ
post_text hostname port path body =
    codes "POST "
    ++ (path
        ++ (codes " HTTP/1.1\r\nHost: "
            ++ (hostname
                ++ (codes ":"
                    ++ (decimal port
                        ++ (codes "\r\nContent-Type: application/json\r\nConnection: close\r\n"
                            ++ (codes "Content-Length: "
                                ++ (decimal (length body) ++ (codes "\r\n\r\n" ++ body)))))))))

-- What an answer is for the caller: the JSON in it from its first brace, if it has one.
pub data IsResponse : List ℕ → ResultCode × List ℕ → Type 0 where
  json :
      (before rest : List ℕ)
      → Without b'{' before
      → IsResponse (before ++ (b'{' ∷ rest)) (success, b'{' ∷ rest)
  no_json : {text : List ℕ} → Without b'{' text → IsResponse text (error_http, text)

json_part-IsResponse :
    (text : List ℕ) (result : ResultCode × List ℕ)
    → IsResponse text result
    → json_part text ≡ result
unfolding json_part
json_part-IsResponse text result (json before rest h) = ground (
  arith,
  first_index-found b'{' before rest h,
  drop-append before (b'{' ∷ rest),
  length-append before (b'{' ∷ rest),
)
json_part-IsResponse text result (no_json h) = ground (arith, first_index-absent b'{' text h)

module _ (client : WifiClient) where
  -- Two prints are the print of both texts.
  pub record PrintLaws : Type 0 where
    pub append_lem :
        (s : client.State) (a b : List ℕ)
        → client.print (client.print s a) b ≡ client.print s (a ++ b)

  -- The ways a request can go, from the state of the client to the result: there is no connection, there is
  -- no answer within ten seconds, or there is an answer, which is shorter than a bound.
  pub data Exchange (bound : ℕ) (s : client.State) (hostname : List ℕ) (port : ℕ)
      (request response : List ℕ) : (ResultCode × List ℕ) × client.State → Type 0 where
    refused :
        {t : client.State}
        → client.connect s hostname port ≡ (t, false)
        → Exchange bound s hostname port request response ((error_http, response), t)
    timed_out :
        {t : client.State}
        → client.connect s hostname port ≡ (t, true)
        → IsSilent client 10000 (client.print t request)
        → Exchange bound s hostname port request response
            ((error_http, []), after client 10000 (client.print t request))
    answered :
        {t u : client.State} {n : ℕ} {text : List ℕ} {result : ResultCode × List ℕ}
        → client.connect s hostname port ≡ (t, true)
        → n < 10000
        → IsSilent client n (client.print t request)
        → 0 < length text
        → length text < bound
        → Holds client (after client n (client.print t request)) text u
        → IsResponse text result
        → Exchange bound s hostname port request response (result, client.stop u)

  get_server_response-silent :
      (fuel : ℕ) (s : client.State)
      → IsSilent client 10000 s
      → get_server_response client fuel s ≡ some ([], after client 10000 s)
  unfolding get_server_response
  get_server_response-silent fuel s h = rw (wait_for_response-silent client s h) refl

  Holds-available :
      (s t : client.State) (text : List ℕ)
      → Holds client s text t
      → 0 < length text
      → 0 < client.available s
  Holds-available s t [] h l = absurd (omega (arith, l))
  Holds-available s t (c ∷ text) (waiting a r h) l = a

  get_server_response-answered :
      (fuel n : ℕ) (s t : client.State) (text : List ℕ)
      → n < 10000
      → IsSilent client n s
      → 0 < length text
      → length text < fuel
      → Holds client (after client n s) text t
      → get_server_response client fuel s ≡ some (text, client.stop t)
  unfolding get_server_response
  get_server_response-answered fuel n s t text l silent some_lem short h =
      let a = Holds-available (after client n s) t text h some_lem in
      rw (wait_for_response-arrives client n s l silent a)
        (ground (arith, a, read_loop-Holds client fuel [] text (after client n s) t h short))

  abbrev joined : List (List ℕ) → List ℕ
  joined [] = []
  joined (text ∷ texts) = text ++ joined texts

  module _ (laws : PrintLaws) where
    print_each-joined :
        (s : client.State) (a : List ℕ) (texts : List (List ℕ))
        → print_each client (client.print s a) texts ≡ client.print s (a ++ joined texts)
    unfolding print_each
    print_each-joined s a [] = rw (append-nil a) refl
    print_each-joined s a (b ∷ texts) =
        rw (laws.append_lem s a b)
          (rw (← append_assoc a b (joined texts)) (print_each-joined s (a ++ b) texts))

    print_each-request_texts :
        (s : client.State) (hostname : List ℕ) (port : ℕ) (path body : List ℕ)
        → port < 65536
        → print_each client s
            (request_texts (record { host = hostname; port = port; path = path }) body)
          ≡ client.print s (post_text hostname port path body)
    unfolding request_texts print_each
    print_each-request_texts s hostname port path body p =
        let texts = request_texts (record { host = hostname; port = port; path = path }) body in
        let all = print_each-joined s (codes "POST ") (drop 1 texts) in
        rw (← print_int-decimal port p) (rw (append-nil body) at all)

    nano33_post-connected :
        (fuel port : ℕ) (s t u : client.State) (hostname url operation body response text : List ℕ)
        → Without b'/' hostname
        → Without b':' hostname
        → port < 65536
        → client.connect s hostname port ≡ (t, true)
        → get_server_response client fuel
            (client.print t (post_text hostname port (path_text url ++ operation) body))
          ≡ some (text, u)
        → nano33_post client fuel s (url_text hostname port url ++ operation) body response
          ≡ some (json_part text, u)
    unfolding nano33_post http_initialize
    nano33_post-connected fuel port s t u hostname url operation body response text slash colon p c
          r =
        rw (parse_uri-url_text hostname port url operation slash colon p) (
          rw (c, c)
            (rw (print_each-request_texts t hostname port (path_text url ++ operation) body p)
              (rw r refl)))

    -- For prints that follow each other on the connection, a host without a slash and a colon and a
    -- port below 65536, post of the nano33 board to a URL of the host goes as an exchange goes. It
    -- connects to the host at the port and prints one POST request with the path, the host and the
    -- length of the body. Its result is ERROR_HTTP when the connection is refused or nothing arrives
    -- within 10000 milliseconds. Otherwise it is SUCCESS with the answer from its first brace on, or
    -- ERROR_HTTP with the whole answer when that has no brace, for every answer shorter than the fuel.
    pub nano33_post-Exchange :
        (fuel port : ℕ) (s : client.State) (hostname url operation body response : List ℕ)
        (result : (ResultCode × List ℕ) × client.State)
        → Without b'/' hostname
        → Without b':' hostname
        → port < 65536
        → Exchange fuel s hostname port
            (post_text hostname port (path_text url ++ operation) body)
            response
            result
        → nano33_post client fuel s (url_text hostname port url ++ operation) body response
          ≡ some result
    unfolding json_part first_index
    nano33_post-Exchange fuel port s hostname url operation body response result slash colon p
          (refused {t = t} c) =
        (unfold nano33_post http_initialize in
          rw (parse_uri-url_text hostname port url operation slash colon p) (rw (c, c) refl))
    nano33_post-Exchange fuel port s hostname url operation body response result slash colon p
          (timed_out {t = t} c silent) =
        let u = client.print t (post_text hostname port (path_text url ++ operation) body) in
        nano33_post-connected fuel port s t (after client 10000 u) hostname url operation body
          response [] slash colon p c (get_server_response-silent fuel u silent)
    nano33_post-Exchange fuel port s hostname url operation body response result slash colon p
          (answered {t = t} {u = u} {n = n} {text = text} {result = r} c low silent some_lem short h
            is_response) =
        let v = client.print t (post_text hostname port (path_text url ++ operation) body) in
        rw (← json_part-IsResponse text r is_response) (
          nano33_post-connected fuel port s t (client.stop u) hostname url operation body response
            text slash colon p c
            (get_server_response-answered fuel n v u text low silent some_lem short h))
