-- ===== src/Bech32/RoundTrip.antt =====
-- Decode after Encode.
use native.Mathlib.Numerals.{add-one}
use iotex_arduino.Base.{ℕ, ◌+◌, ◌-◌, ◌≤◌, ◌<◌, ◌≡◌, refl, ap, ◌∙◌, arith, ◌≢◌}
use iotex_arduino.Base.{some, List, [], ◌∷◌, ◌++◌, map, All, All-append, IsByte}
use iotex_arduino.Base.{length, take, drop, length-append, length-map, ◌==◌, false}
use iotex_arduino.Bech32.{Encoding, invalid, bech32, bech32m, encode, decode}
use iotex_arduino.Bech32.{create_checksum, split_at, check_values, lower_case, rfind}
use iotex_arduino.Bech32.{verify_checksum}
use iotex_arduino.Bech32.Checksum.{IsGroup, create_checksum-IsGroup, length-create_checksum}
use iotex_arduino.Bech32.Checksum.{verify-create_checksum}
use iotex_arduino.Bech32.Charset.{symbol, IsSymbol, to_chars_lem, read_values-symbols}
use iotex_arduino.Bech32.Charset.{symbols-IsSymbol}
use iotex_arduino.Bech32.Text.{IsLowerCase, symbols-IsLowerCase, lower_case-map, scan_case-lower}
use iotex_arduino.Bech32.Text.{rfind-append, take-front, drop-front}

-- What an encoder may be given: a prefix in lower case and values of five bits, within the 90
-- characters of the format.
pub record IsEncodable (hrp values : List ℕ) : Type 0 where
  pub prefix : All IsLowerCase hrp
  pub groups : All IsGroup values
  pub not_empty : 0 < length hrp
  pub short : length hrp + length values + 7 ≤ 90

All-lower-IsByte : (s : List ℕ) → All IsLowerCase s → All IsByte s
All-lower-IsByte [] h = tt
All-lower-IsByte (c ∷ s) (h, hs) = (omega (arith, h.printable), All-lower-IsByte s hs)

no_separator : (s : List ℕ) → All IsSymbol s → All (λ x. (x == b'1') ≡ false) s
no_separator [] h = tt
no_separator (c ∷ s) (h, hs) = (h.not_separator, no_separator s hs)

-- Every value of five bits has its character, so that Encode reads CHARSET in range.
pub encode_lem :
    (e : Encoding) (hrp values : List ℕ)
    → All IsGroup values
    → encode e hrp values
      ≡ some (hrp ++ (b'1' ∷ map symbol (values ++ create_checksum e hrp values)))
unfolding encode
encode_lem e hrp values h =
    ground
      (arith, to_chars_lem _ (All-append IsGroup values _ h (create_checksum-IsGroup e hrp values)))

check_values-verified :
    (e : Encoding) (hrp combined values : List ℕ)
    → e ≢ invalid
    → verify_checksum hrp combined ≡ e
    → take (length combined - 6) combined ≡ values
    → check_values hrp combined ≡ record { encoding = e; hrp = hrp; values = values }
unfolding check_values
check_values-verified invalid hrp combined values valid p q = absurd (valid refl)
check_values-verified bech32 hrp combined values valid p q = ground arith
check_values-verified bech32m hrp combined values valid p q = ground arith

module _ (e : Encoding) (hrp values : List ℕ) (valid : e ≢ invalid)
    (fits : IsEncodable hrp values) where
  combined : List ℕ
  combined = values ++ create_checksum e hrp values

  combined-groups : All IsGroup combined
  unfolding combined
  combined-groups = All-append IsGroup values _ fits.groups (create_checksum-IsGroup e hrp values)

  length-combined : length combined ≡ length values + 6
  unfolding combined
  length-combined =
      length-append values _ ∙ ap (◌+◌ (length values)) (length-create_checksum e hrp values)

  written : List ℕ
  written = hrp ++ (b'1' ∷ map symbol combined)

  length-written : length written ≡ length hrp + length values + 7
  unfolding written
  length-written = omega (
    arith,
    length-append hrp (b'1' ∷ map symbol combined),
    length-map combined symbol,
    length-combined,
  )

  written-IsLowerCase : All IsLowerCase written
  unfolding written
  written-IsLowerCase = All-append IsLowerCase hrp _ fits.prefix (
    record { printable = omega arith; not_upper = refl },
    symbols-IsLowerCase _ (symbols-IsSymbol combined combined-groups),
  )

  check_values-combined :
      check_values hrp combined ≡ record { encoding = e; hrp = hrp; values = values }
  check_values-combined =
      check_values-verified e hrp combined values valid
        (unfold combined in
          verify-create_checksum e hrp values valid (All-lower-IsByte hrp fits.prefix) fits.groups)
        (ap (λ n. take n combined) (omega (arith, length-combined)) ∙ values-combined)
    where
      values-combined : take (length values) combined ≡ values
      values-combined = unfold combined in take-front values _

  tail-written : drop (length hrp + 1) written ≡ map symbol combined
  unfolding written
  tail-written = rw add-one (drop-front hrp (map symbol combined) b'1')

  prefix-written : map lower_case (take (length hrp) written) ≡ hrp
  unfolding written
  prefix-written = ap (map lower_case) (take-front hrp _) ∙ lower_case-map hrp fits.prefix

  split_at-written :
      split_at written (length hrp) ≡ some (record { encoding = e; hrp = hrp; values = values })
  unfolding split_at
  split_at-written = ground (
    arith,
    tail-written,
    prefix-written,
    read_values-symbols combined combined-groups,
    check_values-combined,
  )

  separator-written : rfind b'1' written ≡ some (length hrp)
  unfolding written
  separator-written =
      rfind-append b'1' hrp _ (no_separator _ (symbols-IsSymbol combined combined-groups))

  decode-written : decode written ≡ some (record { encoding = e; hrp = hrp; values = values })
  unfolding decode
  decode-written =
      let scanned = scan_case-lower written false written-IsLowerCase in
      ground (
        arith, scanned.1, separator-written, split_at-written, length-written, fits.not_empty,
        fits.short,
      )

-- Encode returns a text of the prefix, the separator, the values and six more characters, and
-- Decode gives back from it the variant, the prefix and the values that Encode was given.
pub decode-encode :
    (e : Encoding) (hrp values : List ℕ)
    → e ≢ invalid
    → IsEncodable hrp values
    → (s : List ℕ) × (encode e hrp values ≡ some s)
      × (length s ≡ length hrp + length values + 7)
      × (decode s ≡ some (record { encoding = e; hrp = hrp; values = values }))
decode-encode e hrp values valid fits = (
  written e hrp values valid fits,
  unfold written combined in encode_lem e hrp values fits.groups,
  length-written e hrp values valid fits,
  decode-written e hrp values valid fits,
)
