-- ===== src/Http/Uri.antt =====
-- What the nano33 board reads from the URL of a host.
use iotex_arduino.Base.{ℕ, ◌+◌, ◌<◌, ◌≡◌, ◌≢◌, refl, arith, List, [], ◌∷◌, ◌++◌}
use iotex_arduino.Base.{some, length, codes, decimal}
use iotex_arduino.Base.{
  Without, first_index, first_index-found, take-append, drop-append, drop-append_one,
}
use iotex_arduino.Base.{atoi-decimal, decimal-AllDigits, AllDigits-Without, take, drop}
use iotex_arduino.Base.{append_assoc, All-append, atoi}
use iotex_arduino.Host.Address.{url_text}
use iotex_arduino.Http.Nano33.{parse_uri}
use iotex_arduino.Http.Nano33.{path_of, before_first}

-- The path behind the host and the port of a URL.
abbrev pub path_text : List ℕ → List ℕ
path_text [] = codes "/"
path_text (c ∷ url) = codes "/" ++ ((c ∷ url) ++ codes "/")

before_first-found : (c : ℕ) (s t : List ℕ) → Without c s → before_first c (s ++ (c ∷ t)) ≡ s
before_first-found c s t h = ground (arith, first_index-found c s t h, take-append s (c ∷ t))

path_of-found : (s t : List ℕ) → Without b'/' s → path_of (s ++ (b'/' ∷ t)) ≡ b'/' ∷ t
path_of-found s t h = ground (arith, first_index-found b'/' s t h, drop-append s (b'/' ∷ t))

-- The parts of a text whose host has a colon.
parse_uri-parts :
    (uri host path : List ℕ) (i port : ℕ)
    → before_first b'/' uri ≡ host
    → first_index b':' host ≡ some i
    → atoi (drop (i + 1) host) ≡ some port
    → path_of uri ≡ path
    → parse_uri uri ≡ some (record { host = take i host; port = port; path = path })
unfolding parse_uri
parse_uri-parts uri host path i port h c p t = ground (arith, h, c, p, t)

-- A text that starts with a host, a colon and a port.
parse_uri-address :
    (hostname : List ℕ) (port : ℕ) (rest : List ℕ)
    → Without b'/' hostname
    → Without b':' hostname
    → port < 65536
    → parse_uri (hostname ++ (b':' ∷ (decimal port ++ (b'/' ∷ rest))))
      ≡ some (record { host = hostname; port = port; path = b'/' ∷ rest })
parse_uri-address hostname port rest slash colon p =
    let address : List ℕ = hostname ++ (b':' ∷ decimal port) in
    let no_slash : Without b'/' address =
      All-append (λ (d : ℕ). d ≢ b'/') hostname (b':' ∷ decimal port) slash
        (omega arith, AllDigits-Without b'/' (decimal port) refl (decimal-AllDigits port)) in
    let parsed =
      parse_uri-parts (address ++ (b'/' ∷ rest)) address (b'/' ∷ rest) (length hostname) port
        (before_first-found b'/' address rest no_slash)
        (first_index-found b':' hostname (decimal port) colon)
        (rw (drop-append_one hostname (decimal port) b':') (atoi-decimal port (omega arith)))
        (path_of-found address rest no_slash) in
    rw
      (
        append_assoc hostname (b':' ∷ decimal port) (b'/' ∷ rest),
        take-append hostname (b':' ∷ decimal port),
      )
      at parsed

-- For a host without a slash and a colon and a port below 65536, the nano33 board reads back from
-- the URL of a host, with the name of an operation behind it, the host, the port, and as the path a
-- slash, the base URL with a slash when it is not empty, and the name.
pub parse_uri-url_text :
    (hostname : List ℕ) (port : ℕ) (url operation : List ℕ)
    → Without b'/' hostname
    → Without b':' hostname
    → port < 65536
    → parse_uri (url_text hostname port url ++ operation)
      ≡ some (record { host = hostname; port = port; path = path_text url ++ operation })
parse_uri-url_text hostname port [] operation slash colon p =
    let e : url_text hostname port [] ++ operation
        ≡ hostname ++ (b':' ∷ (decimal port ++ (b'/' ∷ operation))) =
      simp (append_assoc) in
    rw e (parse_uri-address hostname port operation slash colon p)
parse_uri-url_text hostname port (c ∷ url) operation slash colon p =
    let rest : List ℕ = ((c ∷ url) ++ codes "/") ++ operation in
    let e : url_text hostname port (c ∷ url) ++ operation
        ≡ hostname ++ (b':' ∷ (decimal port ++ (b'/' ∷ rest))) =
      simp (append_assoc) in
    rw e (parse_uri-address hostname port rest slash colon p)
