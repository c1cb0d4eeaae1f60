-- ===== src/Host.antt =====
-- src/host/host.cpp: the host of a server and its URL. The two arrays are memory, so they may hold
-- anything until `set` accepts its arguments. A `none` stands for a read outside a text.
pub mod Address
use iotex_arduino.Base.{
  ℕ, ◌+◌, ◌-◌, List, [], ◌∷◌, ◌++◌, Bool, true, false, ◌||◌, Option, none, some,
}
use iotex_arduino.Base.{◌>>=◌, length, replicate, take, leb, ◌==◌, if◌then◌else◌, codes, decimal}
use iotex_arduino.Base.{c_string, in_array}

abbrev pub ip_max_string_len : ℕ
ip_max_string_len = 128

abbrev pub base_url_max_string_len : ℕ
base_url_max_string_len = 128

-- `port` is the bit pattern of an `int`.
pub record Host : Type 0 where
  pub hostname : List ℕ
  pub base_url : List ℕ
  pub port : ℕ

-- The part of the guard on `baseUrl`, which may be null.
abbrev pub base_url_too_long : Option (List ℕ) → Bool
base_url_too_long none = false
base_url_too_long (some url) = leb base_url_max_string_len (length url)

-- Host::set. Past the guard, `strlen(baseUrl)` reads the null pointer.
unfoldable pub host_set : List ℕ → ℕ → Option (List ℕ) → Host → Option (Bool × Host)
host_set hostname port base_url host =
    if leb ip_max_string_len (length hostname) || base_url_too_long base_url
    then some (false, host)
    else do
      url ← base_url
      some (
        true,
        record {
          hostname = in_array (ip_max_string_len + 1) hostname;
          base_url = in_array (base_url_max_string_len + 1) url;
          port = port;
        },
      )

-- The constructor on the memory of the object, whose `port` starts at -1.
unfoldable pub host_new : List ℕ → ℕ → Option (List ℕ) → Host → Option Host
host_new hostname port base_url memory = do
  r ← host_set hostname port base_url (record memory { port = 0xffffffff })
  some (r.1)

unfoldable pub host_ip : Host → Option (List ℕ)
host_ip host = c_string host.hostname

unfoldable pub host_port : Host → ℕ
host_port host = host.port

-- What `snprintf` leaves in the six characters for `%u`.
abbrev pub port_text : ℕ → List ℕ
port_text port = take 5 (decimal port)

-- Host::toString
unfoldable pub host_to_string : Host → Option (List ℕ)
host_to_string host = do
  name ← c_string host.hostname
  url ← c_string host.base_url
  some (
      name
      ++ (codes ":"
          ++ (port_text host.port
              ++ ((if length url == 0 then [] else codes "/" ++ url) ++ codes "/"))))
