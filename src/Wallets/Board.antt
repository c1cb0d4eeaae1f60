-- ===== src/Wallets/Board.antt =====
-- getAccount over the HTTP client of the nano33 board, from the host to what goes over the connection.
use iotex_arduino.Base.{ℕ, ◌<◌, ◌≡◌, List, [], ◌++◌, some, codes, if◌then◌else◌, length}
use iotex_arduino.Base.{IsText, Without, not, ◌&&◌}
use iotex_arduino.ResultCode.{ResultCode, success, error_http, error_json_parse, is_success}
use iotex_arduino.Json.{JsonLibrary}
use iotex_arduino.Host.Address.{host_of, url_text, to_string_lem}
use iotex_arduino.Http.Nano33.{WifiClient, nano33_post}
use iotex_arduino.Http.Uri.{path_text}
use iotex_arduino.Http.Exchange.{PrintLaws, Exchange, post_text, nano33_post-Exchange}
use iotex_arduino.Responses.AccountMeta.{AccountMeta, has_account_members, account_of}
use iotex_arduino.Wallets.{get_account}
use iotex_arduino.Wallets.Answers.{account_json, get_account_lem}

-- The body of the request, and what is printed to the connection.
abbrev pub account_body : List ℕ → List ℕ
account_body address = codes "{\"address\":\"" ++ (address ++ codes "\"}")

abbrev pub account_post : List ℕ → ℕ → List ℕ → List ℕ → List ℕ
account_post hostname port url address =
    post_text hostname port (path_text url ++ codes "GetAccount") (account_body address)

-- Take a nano33 board whose prints follow each other on the connection, and a host that was set to a
-- name without a slash and a colon and to a base URL, each of less than 128 characters, and to a port
-- below 65536. When the board goes through an exchange in which it connects to that name at that port
-- and prints the POST request for GetAccount with the address, then its post for getAccount returns
-- the result of the exchange. And getAccount with a post that returns this result for this request
-- gives ERROR_HTTP and the account as it was, when the result is no SUCCESS; SUCCESS and the values of
-- the account in the JSON of the answer, when the parser reads it and it has them all; and otherwise
-- ERROR_JSON_PARSE and the account as it was.
pub get_account-nano33_post :
    (client : WifiClient) (library : JsonLibrary) (post : List ℕ → List ℕ → ResultCode × List ℕ)
    (fuel port : ℕ) (s t : client.State) (hostname url address : List ℕ)
    (memory data_out : AccountMeta) (answer : ResultCode × List ℕ)
    → PrintLaws client
    → length hostname < 128
    → length url < 128
    → IsText hostname
    → IsText url
    → port < 65536
    → Without b'/' hostname
    → Without b':' hostname
    → Exchange client fuel s hostname port (account_post hostname port url address) [] (answer, t)
    → post (url_text hostname port url ++ codes "GetAccount") (account_body address) ≡ answer
    → (nano33_post client fuel s
          (url_text hostname port url ++ codes "GetAccount")
          (account_body address)
          []
        ≡ some (answer, t))
      × (get_account library post (host_of hostname port url) address memory data_out
          ≡ some (
              if is_success answer.0
              then if not (library.is_null (library.parse answer.1))
                  && (library.is_object (account_json library answer.1)
                      && has_account_members library (account_json library answer.1))
                then (success, account_of library (account_json library answer.1))
                else (error_json_parse, data_out)
              else (error_http, data_out)))
get_account-nano33_post client library post fuel port s t hostname url address memory data_out
      answer laws h u text text_url p slash colon exchange posts =
    (
      nano33_post-Exchange client laws fuel port s hostname url (codes "GetAccount")
          (account_body address) [] (answer, t) slash colon p exchange,
      rw posts at (
          get_account_lem library post (host_of hostname port url) (url_text hostname port url)
            address memory data_out (to_string_lem hostname url port h u text text_url p)),
    )
