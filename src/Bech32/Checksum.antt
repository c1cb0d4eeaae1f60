-- ===== src/Bech32/Checksum.antt =====
-- CreateChecksum against VerifyChecksum.
use iotex_arduino.Base.{ℕ, ◌-◌, ◌*◌, ◌/◌, ◌%◌, ◌^◌, ◌<◌, ◌≡◌, refl, sym, ap, ◌∙◌, arith}
use iotex_arduino.Base.{List, [], ◌∷◌, ◌++◌, map, append_assoc, All, All-append, IsByte, ◌≢◌}
use iotex_arduino.Base.{length, replicate}
use iotex_arduino.Bits.{bit_and, bit_xor, xor_assoc, zero-xor, xor_self, xor-lt, and_mask}
use iotex_arduino.Bech32.{Encoding, invalid, bech32, bech32m, encoding_constant, poly_mod}
use iotex_arduino.Bech32.{poly_loop, expand_hrp, verify_checksum, group_at, checksum_value}
use iotex_arduino.Bech32.{create_checksum}
use iotex_arduino.Bech32.Linear.{poly_loop-lt, poly_loop-append, poly_loop-six, pack_six}

abbrev pub IsGroup : ℕ → Type 0
IsGroup v = v < 32

All-groups-IsByte : (vs : List ℕ) → All IsGroup vs → All IsByte vs
All-groups-IsByte [] h = tt
All-groups-IsByte (v ∷ vs) (h, hs) = (omega arith, All-groups-IsByte vs hs)

high_bits-IsByte : (s : List ℕ) → All IsByte s → All IsByte (map (λ c. c / 2 ^ 5) s)
high_bits-IsByte [] h = tt
high_bits-IsByte (c ∷ s) (h, hs) = (omega arith, high_bits-IsByte s hs)

low_bits-IsByte : (s : List ℕ) → All IsByte (map (λ c. bit_and c 0x1f) s)
low_bits-IsByte [] = tt
low_bits-IsByte (c ∷ s) = (omega (arith, and_mask 5 c), low_bits-IsByte s)

expand_hrp-IsByte : (hrp : List ℕ) → All IsByte hrp → All IsByte (expand_hrp hrp)
unfolding expand_hrp
expand_hrp-IsByte hrp h =
    All-append IsByte _ _ (high_bits-IsByte hrp h) (omega arith, low_bits-IsByte hrp)

encoding_constant-lt : (e : Encoding) → encoding_constant e < 2 ^ 30
unfolding encoding_constant
encoding_constant-lt bech32 = omega arith
encoding_constant-lt bech32m = omega arith
encoding_constant-lt invalid = omega arith

group_at_lem : (m i : ℕ) → group_at m i ≡ m / 2 ^ (5 * (5 - i)) % 32
group_at_lem m i = and_mask 5 _

-- The six groups of a 30-bit number make it up.
pack_groups :
    (m : ℕ)
    → m < 2 ^ 30
    → pack_six
        (group_at m 0)
        (group_at m 1)
        (group_at m 2)
        (group_at m 3)
        (group_at m 4)
        (group_at m 5)
      ≡ m
pack_groups m h = omega (
  arith,
  group_at_lem m 0,
  group_at_lem m 1,
  group_at_lem m 2,
  group_at_lem m 3,
  group_at_lem m 4,
  group_at_lem m 5,
)

pub create_checksum-IsGroup :
    (e : Encoding) (hrp values : List ℕ) → All IsGroup (create_checksum e hrp values)
unfolding create_checksum
create_checksum-IsGroup e hrp values = omega (arith, group_at_lem)

pub length-create_checksum :
    (e : Encoding) (hrp values : List ℕ) → length (create_checksum e hrp values) ≡ 6
unfolding create_checksum
length-create_checksum e hrp values = refl

-- The register after the prefix and the values, before the last six inputs.
before_six : List ℕ → List ℕ → ℕ
before_six hrp values = poly_loop 1 (expand_hrp hrp ++ values)

checksum_value_lem :
    (e : Encoding) (hrp values : List ℕ)
    → checksum_value e hrp values
      ≡ bit_xor (poly_loop (before_six hrp values) (replicate 6 0)) (encoding_constant e)
unfolding checksum_value poly_mod before_six
checksum_value_lem e hrp values = rw (poly_loop-append 1 (expand_hrp hrp ++ values) (replicate 6 0))

checksum_value-lt :
    (e : Encoding) (hrp values : List ℕ)
    → All IsByte hrp
    → All IsGroup values
    → checksum_value e hrp values < 2 ^ 30
unfolding checksum_value poly_mod
checksum_value-lt e hrp values hh hv =
    xor-lt 30 _ (encoding_constant e)
      (poly_loop-lt 1 _ (omega arith) (
        All-append IsByte _ _
          (All-append IsByte _ _ (expand_hrp-IsByte hrp hh) (All-groups-IsByte values hv))
          (omega arith)))
      (encoding_constant-lt e)

xor_cancel : (x k : ℕ) → bit_xor x (bit_xor x k) ≡ k
xor_cancel x k = cc (xor_assoc x x k, xor_self x, zero-xor k)

-- With the checksum appended, PolyMod gives the constant of the encoding.
poly_mod-create_checksum :
    (e : Encoding) (hrp values : List ℕ)
    → All IsByte hrp
    → All IsGroup values
    → poly_mod (expand_hrp hrp ++ (values ++ create_checksum e hrp values)) ≡ encoding_constant e
unfolding poly_mod create_checksum
poly_mod-create_checksum e hrp values hh hv =
    ap (poly_loop 1) (sym (append_assoc (expand_hrp hrp) values _))
    ∙ poly_loop-append 1 (expand_hrp hrp ++ values) _
    ∙ six
    ∙ ap (bit_xor zeroes) (pack_groups m (checksum_value-lt e hrp values hh hv))
    ∙ ap (bit_xor zeroes) (checksum_value_lem e hrp values)
    ∙ xor_cancel zeroes (encoding_constant e)
  where
    m : ℕ
    m = checksum_value e hrp values

    zeroes : ℕ
    zeroes = poly_loop (before_six hrp values) (replicate 6 0)

    six :
        poly_loop
          (poly_loop 1 (expand_hrp hrp ++ values))
          (map (group_at m) (0 ∷ 1 ∷ 2 ∷ 3 ∷ 4 ∷ 5 ∷ []))
        ≡ bit_xor zeroes (
            pack_six
              (group_at m 0)
              (group_at m 1)
              (group_at m 2)
              (group_at m 3)
              (group_at m 4)
              (group_at m 5))
    six =
        unfold before_six in
        poly_loop-six _ _ _ _ _ _ _ (omega (arith, group_at_lem m 0))
          (omega (arith, group_at_lem m 1)) (omega (arith, group_at_lem m 2))
          (omega (arith, group_at_lem m 3)) (omega (arith, group_at_lem m 4))
          (omega (arith, group_at_lem m 5))

-- VerifyChecksum recognises what CreateChecksum appends, and tells the two variants apart.
pub verify-create_checksum :
    (e : Encoding) (hrp values : List ℕ)
    → e ≢ invalid
    → All IsByte hrp
    → All IsGroup values
    → verify_checksum hrp (values ++ create_checksum e hrp values) ≡ e
unfolding verify_checksum encoding_constant
verify-create_checksum invalid hrp values he hh hv = absurd (he refl)
verify-create_checksum bech32 hrp values he hh hv =
    rw (poly_mod-create_checksum bech32 hrp values hh hv)
verify-create_checksum bech32m hrp values he hh hv =
    rw (poly_mod-create_checksum bech32m hrp values hh hv)
