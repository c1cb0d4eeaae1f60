-- ===== src/Signer.antt =====
-- src/signer/signer.cpp. A `none` of `hex2str` and `str2hex` is a write outside the caller's buffer.
-- The hash and the signature are those of the crypto library, a parameter.
pub mod Hex
pub mod HexRoundTrip
pub mod Message
mod Runs
use iotex_arduino.Base.{ℕ, zero, suc, ◌+◌, ◌-◌, ◌*◌, ◌/◌, ◌%◌, ◌^◌, ◌<◌, ◌≡◌, List, [], ◌∷◌, ◌++◌}
use iotex_arduino.Base.{Bool, true, false, ◌&&◌, Option, none, some, codes, length, drop, replicate}
use iotex_arduino.Base.{get_or, ltb, leb, ◌==◌, if◌then◌else◌}
use iotex_arduino.Bits.{bit_and, bit_or}
use iotex_arduino.ResultCode.{ResultCode, success, error_bad_parameter, error_signature, write}
use iotex_arduino.ResultCode.{hash_size, signature_size}

-- `value`; `none` is `*ret = 0`.
unfoldable pub value : ℕ → Option ℕ
value c =
    if leb b'0' c && leb c b'9'
    then some (c - b'0')
    else if leb b'a' c && leb c b'z'
    then some (c - b'a' + 10)
    else if leb b'A' c && leb c b'Z'
    then some (c - b'A' + 10)
    else none

-- `hexmap[n]`, for n below 16.
abbrev pub hex_digit : ℕ → ℕ
hex_digit n = get_or (codes "0123456789abcdef") n 0

-- The loop of hex2str: the bytes that are left, and `cur`.
unfoldable pub hex2str_loop : List ℕ → List ℕ → ℕ → Option (ResultCode × List ℕ)
hex2str_loop [] str cur = some (success, str)
hex2str_loop (b ∷ hex) str cur = elim (write str cur (hex_digit (b / 2 ^ 4))) [
  | none ↦ none
  | some str₁ ↦ elim (write str₁ (cur + 1) (hex_digit (bit_and b 0xf))) [
    | none ↦ none
    | some str₂ ↦ hex2str_loop hex str₂ (cur + 2)
  ]
]

unfoldable pub hex2str : List ℕ → List ℕ → ℕ → Option (ResultCode × List ℕ)
hex2str hex str str_size =
    if ltb str_size (length hex * 2)
    then some (error_bad_parameter, str)
    else hex2str_loop hex str 0

-- The loop of str2hex: the characters from `it` on, and `cur`.
unfoldable pub str2hex_loop : List ℕ → List ℕ → ℕ → Option (ResultCode × List ℕ)
str2hex_loop [] hex cur = some (success, hex)
str2hex_loop (c ∷ []) hex cur = elim (value c) [
  | none ↦ some (error_bad_parameter, hex)
  | some high ↦ elim (write hex cur high) [ none ↦ none | some hex' ↦ some (success, hex') ]
]
str2hex_loop (c ∷ d ∷ it) hex cur = elim (value c) [
  | none ↦ some (error_bad_parameter, hex)
  | some high ↦ elim (value d) [
    | none ↦ some (error_bad_parameter, hex)
    | some low ↦ elim (write hex cur (bit_or (high * 2 ^ 4) low % 2 ^ 8)) [
      | none ↦ none
      | some hex' ↦ str2hex_loop it hex' (cur + 1)
    ]
  ]
]

-- The text from `it` on, behind a prefix `0x`.
unfoldable pub skip_prefix : List ℕ → List ℕ
skip_prefix (c ∷ d ∷ rest) = if (c == b'0') && (d == b'x') then rest else c ∷ d ∷ rest
skip_prefix str = str

unfoldable pub str2hex : List ℕ → List ℕ → ℕ → Option (ResultCode × List ℕ)
str2hex str hex size =
    let it = skip_prefix str in
    if ltb size (length it / 2) then some (error_bad_parameter, hex) else str2hex_loop it hex 0

-- The functions of extern/crypto that the signer calls. `keccak_256` hashes in one call what
-- `sha3_Update` may be given in parts between `sha3_256_Init` and `keccak_Final`.
pub record Crypto : Type 1 where
  pub Context : Type 0
  pub init : Context
  pub update : Context → List ℕ → Context
  pub keccak_final : Context → List ℕ
  pub keccak_256 : List ℕ → List ℕ
  pub public_key65 : List ℕ → List ℕ
  pub sign_digest : List ℕ → List ℕ → ℕ × List ℕ

-- What the documentation of the hash promises.
pub record IsStreaming (crypto : Crypto) : Type 1 where
  pub update-update :
      (c : crypto.Context) (xs ys : List ℕ)
      → crypto.update (crypto.update c xs) ys ≡ crypto.update c (xs ++ ys)
  pub one_shot :
      (xs : List ℕ) → crypto.keccak_256 xs ≡ crypto.keccak_final (crypto.update crypto.init xs)

-- The 26 bytes in front of a signed message.
abbrev pub message_prefix : List ℕ
message_prefix = 25 ∷ (codes "Ethereum Signed Message:" ++ (10 ∷ []))

module _ (crypto : Crypto) where
  unfoldable pub get_hash : List ℕ → List ℕ
  get_hash bytes = crypto.keccak_256 bytes

  -- The digits of the length from 10 ^ k down to 10, each only from the first that counts.
  unfoldable pub update_digits : ℕ → ℕ → crypto.Context → crypto.Context
  update_digits zero n ctx = ctx
  update_digits (suc k) n ctx =
      update_digits k n
        (if leb (10 ^ suc k) n then crypto.update ctx ((b'0' + n / 10 ^ suc k % 10) ∷ []) else ctx)

  unfoldable pub get_ethereum_message_hash : List ℕ → List ℕ
  get_ethereum_message_hash msg =
      let n = length msg in
      let ctx₁ = crypto.update crypto.init message_prefix in
      let ctx₂ = update_digits 9 n ctx₁ in
      let ctx₃ = crypto.update ctx₂ ((b'0' + n % 10) ∷ []) in
      crypto.keccak_final (crypto.update ctx₃ msg)

  unfoldable pub get_public_key : List ℕ → List ℕ
  get_public_key key = crypto.public_key65 key

  -- The result code and the signature buffer after the call.
  unfoldable pub sign_hash : List ℕ → List ℕ → ResultCode × List ℕ
  sign_hash hash key =
      let (ret, signature) = crypto.sign_digest key hash in
      (if ret == 0 then success else error_signature, signature)

  unfoldable pub get_signature : List ℕ → List ℕ → ResultCode × List ℕ
  get_signature bytes key =
      let (ret, signature) = crypto.sign_digest key (get_hash bytes) in
      (if ret == 0 then success else error_signature, signature)

  -- signMessage drops the result code.
  unfoldable pub sign_message : List ℕ → List ℕ → List ℕ
  sign_message msg key = (sign_hash (get_ethereum_message_hash msg) key).1
