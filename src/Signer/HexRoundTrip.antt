-- ===== src/Signer/HexRoundTrip.antt =====
-- str2hex: it reads back what hex2str wrote, and stays in the buffer on an even number of digits.
use iotex_arduino.Base.{ℕ, ◌+◌, ◌*◌, ◌/◌, ◌%◌, ◌^◌, ◌≤◌, ◌<◌, ◌≡◌, refl}
use iotex_arduino.Base.{◌∙◌, arith, List, [], ◌∷◌, ◌++◌, append_assoc, append-nil, All, IsByte}
use iotex_arduino.Base.{length, ltb, length-append, Option, none, some, Bool-cases, inl, inr}
use iotex_arduino.Base.{true, false, Option-cases, ◌==◌, not, Bool}
use iotex_arduino.Base.{holds_below, holds_below→test}
use iotex_arduino.Bits.{bit_or, or_fields}
use iotex_arduino.ResultCode.{ResultCode, success, error_bad_parameter, write-append}
use iotex_arduino.ResultCode.{write_past, write_in_range}
use iotex_arduino.Signer.{value, hex_digit, hex2str, str2hex_loop, skip_prefix, str2hex}
use iotex_arduino.Signer.Hex.{hex_text, length-hex_text, hex2str_lem}

reads_back : Option ℕ → ℕ → Bool
reads_back none n = false
reads_back (some v) n = v == n

reads_back→eq : (o : Option ℕ) (n : ℕ) → reads_back o n ≡ true → o ≡ some n
unfolding reads_back
reads_back→eq none n h = cc
reads_back→eq (some v) n h = ground arith

digit_table : holds_below (λ n. reads_back (value (hex_digit n)) n) 16 ≡ true
unfolding holds_below reads_back value
digit_table = refl

value-hex_digit : (n : ℕ) → n < 16 → value (hex_digit n) ≡ some n
value-hex_digit n h =
    reads_back→eq _ n
      (holds_below→test (λ n. reads_back (value (hex_digit n)) n) 16 n digit_table h)

no_x_table : holds_below (λ n. not (hex_digit n == b'x')) 16 ≡ true
unfolding holds_below
no_x_table = refl

no_x : (n : ℕ) → n < 16 → (hex_digit n == b'x') ≡ false
no_x n h =
    let e = holds_below→test (λ n. not (hex_digit n == b'x')) 16 n no_x_table h in ground arith

skip_prefix-hex_text :
    (bytes : List ℕ) → All IsByte bytes → skip_prefix (hex_text bytes) ≡ hex_text bytes
unfolding skip_prefix
skip_prefix-hex_text [] h = refl
skip_prefix-hex_text (b ∷ bytes) (h, hs) = ground (arith, no_x (b % 16))

join_digits : (b : ℕ) → IsByte b → bit_or (b / 16 * 2 ^ 4) (b % 16) % 2 ^ 8 ≡ b
join_digits b h = omega (arith, or_fields 4 (b / 16) (b % 16) (omega arith))

str2hex_loop-hex_text :
    (bytes pre old rest : List ℕ) (cur : ℕ)
    → All IsByte bytes
    → length old ≡ length bytes
    → cur ≡ length pre
    → str2hex_loop (hex_text bytes) (pre ++ (old ++ rest)) cur
      ≡ some (success, pre ++ (bytes ++ rest))
unfolding str2hex_loop
str2hex_loop-hex_text [] pre [] rest cur h l e = refl
str2hex_loop-hex_text [] pre (x ∷ old) rest cur h l e = absurd (omega arith)
str2hex_loop-hex_text (b ∷ bytes) pre [] rest cur h l e = absurd (omega arith)
str2hex_loop-hex_text (b ∷ bytes) pre (x ∷ old) rest cur (h, hs) l e = ground (
  arith,
  value-hex_digit (b / 16),
  value-hex_digit (b % 16),
  join_digits b h,
  write-append pre (old ++ rest) x cur b,
  append_assoc pre (b ∷ []) (old ++ rest),
  append_assoc pre (b ∷ []) (bytes ++ rest),
  length-append pre (b ∷ []),
  str2hex_loop-hex_text bytes (pre ++ (b ∷ [])) old rest (cur + 1) hs,
)

-- str2hex reads the digits of `bytes` into a buffer of their length or more.
pub str2hex-hex_text :
    (bytes old rest : List ℕ) (size : ℕ)
    → All IsByte bytes
    → length old ≡ length bytes
    → length bytes ≤ size
    → str2hex (hex_text bytes) (old ++ rest) size ≡ some (success, bytes ++ rest)
unfolding str2hex
str2hex-hex_text bytes old rest size h l s = ground (
  arith,
  skip_prefix-hex_text bytes h,
  length-hex_text bytes,
  str2hex_loop-hex_text bytes [] old rest 0 h l refl,
)

-- What hex2str writes into a buffer of two characters a byte, str2hex reads back into a buffer of
-- the bytes' number.
pub str2hex-hex2str :
    (bytes buf target : List ℕ)
    → All IsByte bytes
    → length buf ≡ length bytes * 2
    → length target ≡ length bytes
    → (text : List ℕ) × (hex2str bytes buf (length buf) ≡ some (success, text))
      × (str2hex text target (length target) ≡ some (success, bytes))
str2hex-hex2str bytes buf target h lb lt =
    let wrote = hex2str_lem bytes buf [] (length buf) lb in
    let back = str2hex-hex_text bytes target [] (length target) h lt (omega arith) in
    (
      hex_text bytes,
      ground (arith, wrote, append-nil buf, append-nil (hex_text bytes)),
      ground (arith, back, append-nil target, append-nil bytes),
    )

str2hex_loop_in_range :
    (it hex : List ℕ) (cur : ℕ)
    → length it % 2 ≡ 0
    → cur + length it / 2 ≤ length hex
    → (r : ResultCode × List ℕ) × (str2hex_loop it hex cur ≡ some r) × (length r.1 ≡ length hex)
unfolding str2hex_loop
str2hex_loop_in_range [] hex cur even fits = ((success, hex), refl, refl)
str2hex_loop_in_range (c ∷ []) hex cur even fits = absurd (omega arith)
str2hex_loop_in_range (c ∷ d ∷ it) hex cur even fits = elim (Option-cases (value c)) [
  | inl e ↦ ((error_bad_parameter, hex), ground arith, refl)
  | inr (high, e) ↦ elim (Option-cases (value d)) [
    | inl n ↦ ((error_bad_parameter, hex), ground arith, refl)
    | inr (low, s) ↦
        let wrote = write_in_range hex cur (bit_or (high * 2 ^ 4) low % 2 ^ 8) (omega arith) in
        let rest =
          str2hex_loop_in_range it wrote.0 (cur + 1) (omega arith) (omega (arith, wrote.2)) in
        (rest.0, ground (arith, wrote.1, rest.1), rest.2 ∙ wrote.2)
  ]
]

-- On an even number of characters behind the prefix, and a size that the buffer has, str2hex
-- returns and writes in the buffer only, whatever the characters are.
pub str2hex_in_range :
    (str hex : List ℕ) (size : ℕ)
    → length (skip_prefix str) % 2 ≡ 0
    → size ≤ length hex
    → (r : ResultCode × List ℕ) × (str2hex str hex size ≡ some r) × (length r.1 ≡ length hex)
unfolding str2hex
str2hex_in_range str hex size even fits =
    elim (Bool-cases (ltb size (length (skip_prefix str) / 2))) [
      | inl small ↦ ((error_bad_parameter, hex), ground arith, refl)
      | inr enough ↦
          let rest = str2hex_loop_in_range (skip_prefix str) hex 0 even (ground arith) in
          (rest.0, ground (arith, rest.1), rest.2)
    ]

abbrev pub IsDigit : ℕ → Type 0
IsDigit c = (v : ℕ) × (value c ≡ some v)

str2hex_loop_overrun :
    (it hex : List ℕ) (cur : ℕ)
    → All IsDigit it
    → length it % 2 ≡ 1
    → cur + length it / 2 ≡ length hex
    → str2hex_loop it hex cur ≡ none
unfolding str2hex_loop
str2hex_loop_overrun [] hex cur h odd fits = absurd (omega arith)
str2hex_loop_overrun (c ∷ []) hex cur (h, hs) odd fits =
    ground (arith, h.1, write_past hex cur h.0 (omega arith))
str2hex_loop_overrun (c ∷ d ∷ it) hex cur (h, (g, hs)) odd fits =
    let wrote = write_in_range hex cur (bit_or (h.0 * 2 ^ 4) g.0 % 2 ^ 8) (omega arith) in
    ground (
      arith,
      h.1,
      g.1,
      wrote.1,
      str2hex_loop_overrun it wrote.0 (cur + 1) hs (omega arith) (omega (arith, wrote.2)),
    )

-- On an odd number of digits behind the prefix, the check of the size rounds down, and the last
-- digit is written behind a buffer of half as many bytes.
pub str2hex_overrun :
    (str hex : List ℕ)
    → All IsDigit (skip_prefix str)
    → length (skip_prefix str) % 2 ≡ 1
    → length hex ≡ length (skip_prefix str) / 2
    → str2hex str hex (length hex) ≡ none
unfolding str2hex
str2hex_overrun str hex h odd fits =
    ground (arith, str2hex_loop_overrun (skip_prefix str) hex 0 h odd)
