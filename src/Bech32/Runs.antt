-- ===== src/Bech32/Runs.antt =====
-- Concrete runs, and the theorems at concrete inputs.
use iotex_arduino.Base.{ℕ, ◌+◌, ◌≡◌, refl, List, [], ◌∷◌, ◌++◌, some, codes, length, arith}
use iotex_arduino.Bech32.{encode, decode, bech32, bech32m, DecodeResult}
use iotex_arduino.Bech32.{check_values, split_at, read_values, rfind, scan_case, to_chars}
use iotex_arduino.Bech32.{create_checksum, checksum_value, verify_checksum, expand_hrp, lower_case}
use iotex_arduino.Bech32.{poly_mod, poly_loop, poly_step, add_generator, encoding_constant, charset}
use iotex_arduino.Bech32.{charset_rev, failed}
use iotex_arduino.Bech32.Checksum.{verify-create_checksum}
use iotex_arduino.Bech32.RoundTrip.{IsEncodable, decode-encode}
use iotex_arduino.Bech32.Safety.{decode_total}

abbrev empty_a : List ℕ
empty_a = codes "a12uel5l"

encode_empty : encode bech32 (codes "a") [] ≡ some empty_a
unfolding encode create_checksum checksum_value expand_hrp poly_mod poly_loop poly_step
    add_generator encoding_constant to_chars charset
encode_empty = refl

decode_empty : decode empty_a ≡ some (record { encoding = bech32; hrp = codes "a"; values = [] })
unfolding decode scan_case rfind split_at read_values check_values verify_checksum expand_hrp
    poly_mod poly_loop poly_step add_generator encoding_constant lower_case charset_rev
decode_empty = refl

decode_mixed : decode (codes "A12uel5l") ≡ some failed
unfolding decode scan_case
decode_mixed = refl

abbrev three_values : List ℕ
three_values = 0 ∷ 17 ∷ 31 ∷ []

io_IsEncodable : IsEncodable (codes "io") three_values
io_IsEncodable = record {
  prefix = (
    record { printable = omega arith; not_upper = refl },
    (record { printable = omega arith; not_upper = refl }, tt),
  );
  groups = omega arith;
  not_empty = omega arith;
  short = omega arith;
}

decode-encode_example :
    (s : List ℕ) × (encode bech32 (codes "io") three_values ≡ some s)
    × (length s ≡ 2 + 3 + 7)
    × (decode s ≡ some (record { encoding = bech32; hrp = codes "io"; values = three_values }))
decode-encode_example = decode-encode bech32 (codes "io") three_values (λ e. cc) io_IsEncodable

verify-create_checksum_example :
    verify_checksum (codes "io") (three_values ++ create_checksum bech32m (codes "io") three_values)
    ≡ bech32m
verify-create_checksum_example =
    verify-create_checksum bech32m (codes "io") three_values (λ e. cc) (omega arith) (omega arith)

decode_total_example : (r : DecodeResult) × (decode (codes "io1" ++ (200 ∷ [])) ≡ some r)
decode_total_example = decode_total (codes "io1" ++ (200 ∷ []))
