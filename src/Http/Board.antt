-- ===== src/Http/Board.antt =====
-- What post on the ESP boards makes of the header with the status.
use iotex_arduino.Base.{ℕ, ◌^◌, ◌<◌, ◌≡◌, refl, List, [], ◌++◌, some}
use iotex_arduino.Base.{
  codes, decimal, atoi, atoi-decimal, ◌==◌, if◌then◌else◌, Bool-cases, inl, inr,
}
use iotex_arduino.ResultCode.{success, error_http, error_grpc}
use iotex_arduino.Http.{HttpClient, esp_post}

-- The header with the status: none, or the text of a number.
pub data HasStatus : List ℕ → ℕ → Type 0 where
  no_header : HasStatus [] 0
  header : (n : ℕ) → n < 2 ^ 31 → HasStatus (decimal n) n

HasStatus-atoi : (text : List ℕ) (n : ℕ) → HasStatus text n → atoi text ≡ some n
unfolding atoi
HasStatus-atoi text n no_header = refl
HasStatus-atoi text n (header m h) = atoi-decimal n h

-- On the ESP boards post returns ERROR_HTTP and leaves the response when the client does not begin.
-- When it begins and the header grpc-status is the text of a number or is missing, it returns SUCCESS
-- and the text of the answer for the number 0 and for no header, also when there was no answer, and
-- otherwise ERROR_GRPC and the text of the header grpc-message.
pub esp_post_lem :
    (client : HttpClient) (request body response : List ℕ) (n : ℕ)
    → HasStatus (client.header (codes "http://" ++ request) body (codes "grpc-status")) n
    → esp_post client request body response
      ≡ some (
          if client.begin (codes "http://" ++ request)
          then if n == 0 then (success, client.get_string (codes "http://" ++ request) body) else (
            error_grpc,
            client.header (codes "http://" ++ request) body (codes "grpc-message"),
          )
          else (error_http, response))
unfolding esp_post
esp_post_lem client request body response n h =
    let url : List ℕ = codes "http://" ++ request in
    let read = HasStatus-atoi (client.header url body (codes "grpc-status")) n h in
    elim (Bool-cases (client.begin url)) [ inr b ↦ rw b refl | inl b ↦ rw b (rw read refl) ]
