-- ===== src/Connection/SetHost.antt =====
-- What the two hosts of a connection hold.
use iotex_arduino.Base.{
  ℕ, ◌<◌, ◌≡◌, refl, arith, List, Option, Bool, none, some, length, Bool-cases,
}
use iotex_arduino.Base.{leb, ◌||◌, inl, inr, true, false, IsText}
use iotex_arduino.Host.{Host, base_url_too_long, host_set, host_to_string}
use iotex_arduino.Host.Address.{accepted_lem, host_of, url_text, guarded, to_string_lem, null_lem}
use iotex_arduino.Connection.{Connection, set_host, connection_new}

connection_new-set :
    (new_ip : List ℕ) (new_port : ℕ) (base_url : Option (List ℕ)) (memory : Connection) (b c : Bool)
    (host api_host : Host)
    → host_set new_ip new_port base_url memory.host ≡ some (b, host)
    → host_set new_ip new_port base_url memory.api.host ≡ some (c, api_host)
    → connection_new new_ip new_port base_url memory
      ≡ some (record { api = record { host = api_host }; host = host })
unfolding connection_new set_host
connection_new-set new_ip new_port base_url memory b c host api_host h a = rw h (rw a refl)

connection_new-null :
    (new_ip : List ℕ) (new_port : ℕ) (memory : Connection)
    → host_set new_ip new_port none memory.host ≡ none
    → connection_new new_ip new_port none memory ≡ none
unfolding connection_new
connection_new-null new_ip new_port memory h = rw h refl

abbrev pub IsUrl : Option (List ℕ) → Type 0
IsUrl none = Unit
IsUrl (some url) = IsText url

-- What becomes of a connection, by the address and the memory of its hosts.
pub data Connects (new_ip : List ℕ) (new_port : ℕ) (memory : Connection)
    : Option (List ℕ) → Option Connection → Type 0 where
  null_read : length new_ip < 128 → Connects new_ip new_port memory none none
  accepted :
      (url : List ℕ) (connection : Connection)
      → length new_ip < 128
      → length url < 128
      → host_to_string connection.host ≡ some (url_text new_ip new_port url)
      → host_to_string connection.api.host ≡ some (url_text new_ip new_port url)
      → Connects new_ip new_port memory (some url) (some connection)
  too_long :
      (base_url : Option (List ℕ))
      → (leb 128 (length new_ip) || base_url_too_long base_url) ≡ true
      → Connects new_ip new_port memory base_url (some memory)

-- For texts without a terminator and a port below 65536, the constructor of a connection reads a
-- null pointer when it has no base URL and the address is shorter than 128 characters. When the
-- address or the base URL is longer, both hosts stay what the memory held before. Otherwise the host
-- of the connection and the host of its API print the URL of the address, the port and the base URL.
pub connection_new-Connects :
    (new_ip : List ℕ) (new_port : ℕ) (base_url : Option (List ℕ)) (memory : Connection)
    → IsText new_ip
    → IsUrl base_url
    → new_port < 65536
    → Connects new_ip new_port memory base_url (connection_new new_ip new_port base_url memory)
connection_new-Connects new_ip new_port base_url memory text is_url p =
    elim (Bool-cases (leb 128 (length new_ip) || base_url_too_long base_url)) [
      | inl h ↦
          rw
            (connection_new-set new_ip new_port base_url memory false false memory.host
              memory.api.host (guarded new_ip new_port base_url memory.host h)
              (guarded new_ip new_port base_url memory.api.host h))
            (too_long base_url h)
      | inr h ↦ short base_url is_url h
    ]
  where
    short :
        (base_url : Option (List ℕ))
        → IsUrl base_url
        → (leb 128 (length new_ip) || base_url_too_long base_url) ≡ false
        → Connects new_ip new_port memory base_url (connection_new new_ip new_port base_url memory)
    short none is_url h =
        let low : length new_ip < 128 = ground (arith, h) in
        rw (connection_new-null new_ip new_port memory (null_lem new_ip new_port memory.host low))
          (null_read low)
    short (some url) is_url h =
        let low : length new_ip < 128 = ground (arith, h) in
        let low_url : length url < 128 = ground (arith, h) in
        let host = host_of new_ip new_port url in
        let print = to_string_lem new_ip url new_port low low_url text is_url p in
        rw
          (connection_new-set new_ip new_port (some url) memory true true host host
            (accepted_lem new_ip url new_port memory.host low low_url)
            (accepted_lem new_ip url new_port memory.api.host low low_url))
          (accepted url (record { api = record { host = host }; host = host }) low low_url print
            print)
