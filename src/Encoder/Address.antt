-- ===== src/Encoder/Address.antt =====
-- Encoder::bech32_encode on the 20 bytes of an address.
use iotex_arduino.Base.{ℕ, ◌+◌, ◌*◌, ◌≡◌, refl, sym, ap, ◌∙◌, arith, codes}
use iotex_arduino.Base.{Option, some, List, [], ◌∷◌, All, IsByte, length}
use iotex_arduino.Bech32.{decode, bech32, DecodeResult}
use iotex_arduino.Bech32.RoundTrip.{IsEncodable, decode-encode}
use iotex_arduino.Encoder.{bech32_convert_bytes_to5_bit, bech32_encode}
use iotex_arduino.Encoder.Digits.{horner}
use iotex_arduino.Encoder.Groups.{convert-horner}

abbrev pub groups_of : List ℕ → List ℕ
groups_of xs = (bech32_convert_bytes_to5_bit xs).out

address-IsEncodable :
    (xs : List ℕ) → All IsByte xs → length xs ≡ 20 → IsEncodable (codes "io") (groups_of xs)
address-IsEncodable xs h len =
    let groups = convert-horner xs h (omega arith) in
    record {
      prefix = (
        record { printable = omega arith; not_upper = refl },
        (record { printable = omega arith; not_upper = refl }, tt),
      );
      groups = groups.2;
      not_empty = omega arith;
      short = omega (arith, groups.1);
    }

-- The 20 bytes of an address give a text of 41 characters, and Decode reads back from it the
-- prefix "io" and 32 groups of five bits that stand for the same number as the bytes.
pub decode-bech32_encode :
    (xs : List ℕ)
    → All IsByte xs
    → length xs ≡ 20
    → (s : List ℕ) × (groups : List ℕ) × (bech32_encode xs ≡ some s)
      × (length s ≡ 41)
      × (decode s ≡ some (record { encoding = bech32; hrp = codes "io"; values = groups }))
      × (horner 32 0 groups ≡ horner 256 0 xs)
unfolding bech32_encode
decode-bech32_encode xs h len =
    let groups = convert-horner xs h (omega arith) in
    let trip =
      decode-encode bech32 (codes "io") (groups_of xs) (λ e. cc) (address-IsEncodable xs h len) in
    (trip.0, groups_of xs, trip.1, omega (arith, trip.2, groups.1), trip.3, groups.0)

pub horner-injective :
    (a b : ℕ) (xs ys : List ℕ)
    → All IsByte xs
    → All IsByte ys
    → length xs ≡ length ys
    → horner 256 a xs ≡ horner 256 b ys
    → (a ≡ b) × (xs ≡ ys)
horner-injective a b [] [] hx hy l e = (e, refl)
horner-injective a b [] (y ∷ ys) hx hy l e = absurd (omega arith)
horner-injective a b (x ∷ xs) [] hx hy l e = absurd (omega arith)
horner-injective a b (x ∷ xs) (y ∷ ys) (hx, hxs) (hy, hys) l e =
    let rest = horner-injective (a * 256 + x) (b * 256 + y) xs ys hxs hys (omega arith) e in
    let same : x ≡ y = omega (arith, rest.0) in (omega (arith, rest.0), cc (rest.1, same))

io_result : List ℕ → Option DecodeResult
io_result values = some (record { encoding = bech32; hrp = codes "io"; values = values })

same_values : (gs hs : List ℕ) → io_result gs ≡ io_result hs → gs ≡ hs
unfolding io_result
same_values gs hs e = cc

-- Two addresses with the same text are the same 20 bytes.
pub bech32_encode_injective :
    (xs ys : List ℕ)
    → All IsByte xs
    → All IsByte ys
    → length xs ≡ 20
    → length ys ≡ 20
    → bech32_encode xs ≡ bech32_encode ys
    → xs ≡ ys
unfolding io_result
bech32_encode_injective xs ys hx hy lx ly e =
    let a = decode-bech32_encode xs hx lx in
    let b = decode-bech32_encode ys hy ly in
    let text : a.0 ≡ b.0 = cc (a.2, b.2) in
    let groups = same_values a.1 b.1 (sym a.4 ∙ ap decode text ∙ b.4) in
    (horner-injective 0 0 xs ys hx hy (lx ∙ sym ly) (sym a.5 ∙ ap (horner 32 0) groups ∙ b.5)).1
