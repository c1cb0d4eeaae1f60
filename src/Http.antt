-- ===== src/Http.antt =====
-- The HTTP clients of src/http/os and src/http/esp, over the libraries of the platforms. A `none` is an
-- access outside an array, or the value of a number that an `int` does not hold.
pub mod Status
pub mod Buffers
pub mod Board
pub mod Nano33
pub mod Waiting
pub mod Uri
pub mod Exchange
pub mod NanoRuns
mod Runs
use iotex_arduino.Base.{
  ℕ, List, [], ◌∷◌, ◌++◌, Bool, true, false, not, ◌&&◌, Option, none, some, ◌>>=◌,
}
use iotex_arduino.Base.{take, drop, ◌==◌, if◌then◌else◌, codes, length, c_string, is_digit, atoi}
use iotex_arduino.ResultCode.{ResultCode, success, error_http, error_grpc}
use iotex_arduino.Json.{copy_string}

-- `code` is 0 for OK and 2 for UNKNOWN.
pub record GrpcStatus : Type 0 where
  pub code : ℕ
  pub message : List ℕ

-- `memcmp` of a needle with the bytes of a header line, as far as they go.
unfoldable pub memcmp_equal : List ℕ → List ℕ → Option Bool
memcmp_equal [] contents = some true
memcmp_equal (c ∷ needle) [] = none
memcmp_equal (c ∷ needle) (d ∷ contents) = elim (c == d) [
  | true ↦ memcmp_equal needle contents
  | false ↦ some false
]

abbrev pub status_needle : List ℕ
status_needle = codes "grpc-status:"

abbrev pub message_needle : List ℕ
message_needle = codes "grpc-message:"

abbrev pub all_digits : List ℕ → Bool
all_digits [] = true
all_digits (c ∷ s) = is_digit c && all_digits s

-- The array `codeStr` has one character.
unfoldable pub read_status : List ℕ → GrpcStatus → Option GrpcStatus
read_status rest status = do
  code_str ← copy_string (0 ∷ []) (take 2 rest)
  text ← c_string code_str
  code ← if all_digits text then atoi text else some 2
  some (record status { code = code })

unfoldable pub header_callback : List ℕ → GrpcStatus → Option GrpcStatus
header_callback contents status = elim (memcmp_equal status_needle contents) [
  | none ↦ none
  | some true ↦ read_status (drop 12 contents) status
  | some false ↦ elim (memcmp_equal message_needle contents) [
    | none ↦ none
    | some true ↦ some (record status { message = status.message ++ contents })
    | some false ↦ some status
  ]
]

-- The lines of the headers in their order.
unfoldable pub header_callbacks : List (List ℕ) → GrpcStatus → Option GrpcStatus
header_callbacks [] status = some status
header_callbacks (contents ∷ lines) status = do
  status' ← header_callback contents status
  header_callbacks lines status'

-- What the curl library does with a request: whether it initialises, whether the transfer succeeds,
-- and the header lines and the data that it gives to the callbacks.
pub record Curl : Type 0 where
  pub easy_init : Bool
  pub perform_ok : List ℕ → List ℕ → Bool
  pub header_lines : List ℕ → List ℕ → List (List ℕ)
  pub received : List ℕ → List ℕ → List ℕ
  -- The data for a request without a body.
  pub fetched : List ℕ → List ℕ

abbrev pub status_result : ℕ → ResultCode
status_result code = if code == 0 then success else error_grpc

-- `post` of the OS, with what the status on its stack holds before. It has no default for the code.
unfoldable pub os_post : Curl → GrpcStatus → List ℕ → List ℕ → List ℕ → Option (ResultCode × List ℕ)
os_post curl memory request body response =
    if not curl.easy_init then some (status_result memory.code, response) else do
      status ← header_callbacks (curl.header_lines request body) (record memory { message = [] })
      some (
        if curl.perform_ok request body then status_result status.code else error_http,
        response ++ curl.received request body,
      )

-- The HTTPClient of the ESP boards for a request: whether it begins, the text of the answer and its
-- headers, which are empty when there is no answer.
pub record HttpClient : Type 0 where
  pub begin : List ℕ → Bool
  pub get_string : List ℕ → List ℕ → List ℕ
  pub header : List ℕ → List ℕ → List ℕ → List ℕ
  -- The text of the answer to GET.
  pub fetched_string : List ℕ → List ℕ

-- `post` of the ESP boards. The result of POST is dropped.
unfoldable pub esp_post : HttpClient → List ℕ → List ℕ → List ℕ → Option (ResultCode × List ℕ)
esp_post client request body response =
    let url = codes "http://" ++ request in
    if not (client.begin url) then some (error_http, response) else do
      code ← atoi (client.header url body (codes "grpc-status"))
      some (
          if code == 0
          then (success, client.get_string url body)
          else (error_grpc, client.header url body (codes "grpc-message")))

unfoldable pub os_get : Curl → List ℕ → List ℕ
os_get curl request = if curl.easy_init then curl.fetched request else []

unfoldable pub esp_get : HttpClient → List ℕ → List ℕ
esp_get client request =
    let url = codes "http://" ++ request in
    if client.begin url then client.fetched_string url else []

-- The memcpy of an answer to `rspBuf` and the `strlen` of that, which do not ask for its size.
unfoldable pub into_buffer : List ℕ → List ℕ → Option (ℕ × List ℕ)
into_buffer text rsp_buf = do
  copied ← copy_string rsp_buf text
  found ← c_string copied
  some (length found, copied)

-- The two methods with a buffer. The first part of a result is the bit pattern of an `int`.
unfoldable pub esp_get_buffer : HttpClient → List ℕ → List ℕ → ℕ → Option (ℕ × List ℕ)
esp_get_buffer client request rsp_buf size =
    let url = codes "http://" ++ request in
    if not (client.begin url)
    then some (0xffffffff, rsp_buf)
    else into_buffer (client.fetched_string url) rsp_buf

unfoldable pub esp_post_buffer : HttpClient → List ℕ → List ℕ → List ℕ → ℕ → Option (ℕ × List ℕ)
esp_post_buffer client request body rsp_buf size =
    let url = codes "http://" ++ request in
    if not (client.begin url)
    then some (0xffffffff, rsp_buf)
    else into_buffer (client.get_string url body) rsp_buf
