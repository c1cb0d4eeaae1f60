-- ===== src/Host/Address.antt =====
-- What Host::set keeps of a host, and the URL of a host that it has set.
use iotex_arduino.Base.{ℕ, ◌<◌, ◌≡◌, refl, arith}
use iotex_arduino.Base.{List, [], ◌∷◌, ◌++◌, Bool, true, false, ◌||◌, Option, none, some}
use iotex_arduino.Base.{length, leb, ltb}
use iotex_arduino.Base.{if◌then◌else◌, codes, decimal, IsText}
use iotex_arduino.Base.{IsTerminatedArray, Bool-cases, inl, inr}
use iotex_arduino.Base.{
  in_array, in_array-IsTerminatedArray, c_string-in_array, take-all, length-decimal, ◌&&◌, not, ◌⊎◌,
}
use iotex_arduino.Host.{Host, host_port, base_url_too_long, host_set, host_ip, host_to_string}

-- Both arrays are terminated.
abbrev pub IsHost : Host → Type 0
IsHost host = IsTerminatedArray 129 host.hostname × IsTerminatedArray 129 host.base_url

pub guarded :
    (hostname : List ℕ) (port : ℕ) (base_url : Option (List ℕ)) (host : Host)
    → (leb 128 (length hostname) || base_url_too_long base_url) ≡ true
    → host_set hostname port base_url host ≡ some (false, host)
unfolding host_set
guarded hostname port base_url host h = rw h refl

abbrev pub host_of : List ℕ → ℕ → List ℕ → Host
host_of hostname port url = record {
  hostname = in_array 129 hostname;
  base_url = in_array 129 url;
  port = port;
}

pub accepted_lem :
    (hostname url : List ℕ) (port : ℕ) (host : Host)
    → length hostname < 128
    → length url < 128
    → host_set hostname port (some url) host ≡ some (true, host_of hostname port url)
unfolding host_set
accepted_lem hostname url port host h u = ground (arith, h, u)

host_of-IsHost :
    (hostname url : List ℕ) (port : ℕ)
    → length hostname < 128
    → length url < 128
    → IsHost (host_of hostname port url)
host_of-IsHost hostname url port h u = (
  in_array-IsTerminatedArray hostname 129 (omega arith),
  in_array-IsTerminatedArray url 129 (omega arith),
)

pub null_lem :
    (hostname : List ℕ) (port : ℕ) (host : Host)
    → length hostname < 128
    → host_set hostname port none host ≡ none
unfolding host_set
null_lem hostname port host h = ground (arith, h)

-- Host::set reads a null pointer when it has no base URL and the hostname is shorter than 128
-- characters, and only then. Otherwise it accepts the texts when both are shorter than 128
-- characters, and then both arrays have their size and a terminator in the last place, or it returns
-- false and leaves the host as it was.
pub host_set_lem :
    (hostname : List ℕ) (port : ℕ) (base_url : Option (List ℕ)) (host : Host)
    → (host_set hostname port base_url host ≡ none × base_url ≡ none × (length hostname < 128))
      ⊎ ((host' : Host) × (accepted : Bool) × (host_set hostname port base_url host
            ≡ some (accepted, host'))
          × (accepted ≡ (ltb (length hostname) 128 && not (base_url_too_long base_url)))
          × (if accepted then IsHost host' else host' ≡ host))
host_set_lem hostname port none host = elim (Bool-cases (leb 128 (length hostname))) [
  | inl h ↦
      inr
        (host, false, guarded hostname port none host (ground (arith, h)), ground (arith, h), refl)
  | inr h ↦ inl (null_lem hostname port host (ground (arith, h)), refl, ground (arith, h))
]
host_set_lem hostname port (some url) host =
    elim (Bool-cases (leb 128 (length hostname) || leb 128 (length url))) [
      | inl h ↦ inr (host, false, guarded hostname port (some url) host h, ground (arith, h), refl)
      | inr h ↦
          let short : length hostname < 128 = ground (arith, h) in
          let short_url : length url < 128 = ground (arith, h) in
          inr (
            host_of hostname port url,
            true,
            accepted_lem hostname url port host short short_url,
            ground (arith, short, short_url),
            host_of-IsHost hostname url port short short_url,
          )
    ]

-- The text of the URL: the host, the port and the base URL when it has one.
abbrev pub url_text : List ℕ → ℕ → List ℕ → List ℕ
url_text hostname port [] = hostname ++ (codes ":" ++ (decimal port ++ codes "/"))
url_text hostname port (c ∷ url) =
    hostname ++ (codes ":" ++ (decimal port ++ (codes "/" ++ ((c ∷ url) ++ codes "/"))))

pub to_string_lem :
    (hostname url : List ℕ) (port : ℕ)
    → length hostname < 128
    → length url < 128
    → IsText hostname
    → IsText url
    → port < 65536
    → host_to_string (host_of hostname port url) ≡ some (url_text hostname port url)
unfolding host_to_string
to_string_lem hostname [] port h u text text_url p =
    rw (c_string-in_array hostname 129 (omega arith) text) (
      rw (c_string-in_array [] 129 (omega arith) tt)
        (rw (take-all (decimal port) 5 (length-decimal 4 port (omega arith))) refl))
to_string_lem hostname (c ∷ url) port h u text text_url p =
    rw (c_string-in_array hostname 129 (omega arith) text) (
      rw (c_string-in_array (c ∷ url) 129 (omega arith) text_url)
        (rw (take-all (decimal port) 5 (length-decimal 4 port (omega arith))) (ground arith)))

-- For texts of less than 128 characters and a port below 65536, Host::set accepts, and then `ip` is
-- the hostname, `port` is the port, and `toString` is the hostname, a colon, the port in decimal and
-- a slash, and behind that the base URL with a slash when it is not empty.
pub host_to_string-host_set :
    (hostname url : List ℕ) (port : ℕ) (host : Host)
    → length hostname < 128
    → length url < 128
    → IsText hostname
    → IsText url
    → port < 65536
    → (host' : Host) × (host_set hostname port (some url) host ≡ some (true, host'))
      × (host_ip host' ≡ some hostname)
      × (host_port host' ≡ port)
      × (host_to_string host' ≡ some (url_text hostname port url))
unfolding host_ip host_port
host_to_string-host_set hostname url port host h u text text_url p = (
  host_of hostname port url,
  accepted_lem hostname url port host h u,
  c_string-in_array hostname 129 (omega arith) text,
  refl,
  to_string_lem hostname url port h u text text_url p,
)
