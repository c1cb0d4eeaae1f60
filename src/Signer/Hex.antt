-- ===== src/Signer/Hex.antt =====
-- hex2str and str2hex against the plain reading of a text as pairs of digits.
use iotex_arduino.Base.{ℕ, ◌+◌, ◌*◌, ◌/◌, ◌%◌, ◌≡◌, refl, sym, ap}
use iotex_arduino.Base.{◌∙◌, arith, List, [], ◌∷◌, ◌++◌, append_assoc, length, ltb}
use iotex_arduino.Base.{length-append, some}
use iotex_arduino.Base.{if◌then◌else◌}
use iotex_arduino.Bits.{bit_and, and_mask}
use iotex_arduino.ResultCode.{success, error_bad_parameter, write, write-append}
use iotex_arduino.Signer.{hex_digit, hex2str_loop, hex2str}

-- Two digits for each byte, the high one first.
abbrev pub hex_text : List ℕ → List ℕ
hex_text [] = []
hex_text (b ∷ bytes) = hex_digit (b / 16) ∷ hex_digit (b % 16) ∷ hex_text bytes

pub length-hex_text : (bytes : List ℕ) → length (hex_text bytes) ≡ length bytes * 2
length-hex_text [] = refl
length-hex_text (b ∷ bytes) = omega (arith, length-hex_text bytes)

write-second :
    (pre post : List ℕ) (a x i v : ℕ)
    → i ≡ length pre + 1
    → write (pre ++ (a ∷ x ∷ post)) i v ≡ some (pre ++ (a ∷ v ∷ post))
write-second pre post a x i v e =
    ap (λ t. write t i v) (sym (append_assoc pre (a ∷ []) (x ∷ post)))
    ∙ write-append (pre ++ (a ∷ [])) post x i v (omega (arith, length-append pre (a ∷ [])))
    ∙ ap some (append_assoc pre (a ∷ []) (v ∷ post))

low_digit : (b : ℕ) → bit_and b 0xf ≡ b % 16
low_digit b = and_mask 4 b

hex2str_loop_lem :
    (bytes pre old rest : List ℕ) (cur : ℕ)
    → length old ≡ length bytes * 2
    → cur ≡ length pre
    → hex2str_loop bytes (pre ++ (old ++ rest)) cur
      ≡ some (success, pre ++ (hex_text bytes ++ rest))
unfolding hex2str_loop
hex2str_loop_lem [] pre [] rest cur l e = refl
hex2str_loop_lem [] pre (x ∷ old) rest cur l e = absurd (omega arith)
hex2str_loop_lem (b ∷ bytes) pre [] rest cur l e = absurd (omega arith)
hex2str_loop_lem (b ∷ bytes) pre (x ∷ []) rest cur l e = absurd (omega arith)
hex2str_loop_lem (b ∷ bytes) pre (x ∷ y ∷ old) rest cur l e =
    let high = hex_digit (b / 16) in
    let low = hex_digit (b % 16) in
    let pair = high ∷ low ∷ [] in
    ground (
      arith,
      low_digit b,
      write-append pre (y ∷ (old ++ rest)) x cur high,
      write-second pre (old ++ rest) high y (cur + 1) low,
      append_assoc pre pair (old ++ rest),
      append_assoc pre pair (hex_text bytes ++ rest),
      length-append pre pair,
      hex2str_loop_lem bytes (pre ++ pair) old rest (cur + 2),
    )

-- On a buffer that holds two characters for each byte, hex2str writes them and nothing else; told
-- a smaller size it writes nothing and returns ERROR_BAD_PARAMETER.
pub hex2str_lem :
    (bytes old rest : List ℕ) (size : ℕ)
    → length old ≡ length bytes * 2
    → hex2str bytes (old ++ rest) size ≡ (
        if ltb size (length bytes * 2)
        then some (error_bad_parameter, old ++ rest)
        else some (success, hex_text bytes ++ rest))
unfolding hex2str
hex2str_lem bytes old rest size l = ground (arith, hex2str_loop_lem bytes [] old rest 0)
