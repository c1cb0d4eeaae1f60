-- ===== src/Signer/Runs.antt =====
-- Concrete runs, and the theorems at concrete inputs.
use iotex_arduino.Base.{ℕ, ◌≡◌, refl, List, [], ◌∷◌, ◌++◌, some, none, codes}
use iotex_arduino.Base.{append_assoc, arith}
use iotex_arduino.ResultCode.{success, write}
use iotex_arduino.Signer.{Crypto, IsStreaming, hex2str, str2hex, str2hex_loop, value}
use iotex_arduino.Signer.{skip_prefix, get_ethereum_message_hash, message_prefix}
use iotex_arduino.Signer.HexRoundTrip.{str2hex-hex2str, str2hex_overrun}
use iotex_arduino.Signer.Message.{message_hash_lem}
use iotex_arduino.Base.{decimal}

-- A hash that is the text itself shows what is hashed.
abbrev transcript : Crypto
transcript = record {
  Context = List ℕ;
  init = [];
  update = λ c xs. c ++ xs;
  keccak_final = λ c. c;
  keccak_256 = λ xs. xs;
  public_key65 = λ key. key;
  sign_digest = λ key digest. (0, key ++ digest);
}

transcript-IsStreaming : IsStreaming transcript
transcript-IsStreaming = record {
  update-update = λ c xs ys. append_assoc c xs ys;
  one_shot = λ xs. refl;
}

-- "zz" is no hexadecimal text, and is read as 35 * 17 in one byte.
str2hex_letters : str2hex (codes "zz") (0 ∷ []) 1 ≡ some (success, 0x33 ∷ [])
unfolding str2hex str2hex_loop skip_prefix value write
str2hex_letters = refl

str2hex-hex2str_example :
    (text : List ℕ) × (hex2str (0x1f ∷ []) (0 ∷ 0 ∷ []) 2 ≡ some (success, text))
    × (str2hex text (0 ∷ []) 1 ≡ some (success, 0x1f ∷ []))
str2hex-hex2str_example = str2hex-hex2str (0x1f ∷ []) (0 ∷ 0 ∷ []) (0 ∷ []) (omega arith) refl refl

str2hex_overrun_example : str2hex (codes "1f2") (0 ∷ []) 1 ≡ none
unfolding skip_prefix value
str2hex_overrun_example =
    str2hex_overrun (codes "1f2") (0 ∷ []) ((1, refl), ((15, refl), ((2, refl), tt))) refl refl

message_hash_lem_example :
    get_ethereum_message_hash transcript (codes "hello")
    ≡ message_prefix ++ (decimal 5 ++ codes "hello")
message_hash_lem_example =
    message_hash_lem transcript transcript-IsStreaming (codes "hello") (omega arith)
