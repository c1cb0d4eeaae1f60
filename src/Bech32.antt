-- ===== src/Bech32.antt =====
-- src/encoder/bech32.cpp and the concatenation of src/encoder/util/vector.h. A `data` vector and a
-- `std::string` are lists of bytes. A `none` of `encode` and `decode` is an index outside CHARSET
-- or CHARSET_REV, which C++ leaves undefined.
pub mod Linear
pub mod Checksum
pub mod Charset
pub mod Text
pub mod RoundTrip
pub mod Safety
mod Runs
use iotex_arduino.Base.{ℕ, zero, suc, ◌+◌, ◌-◌, ◌*◌, ◌/◌, ◌%◌, ◌^◌, List, [], ◌∷◌, ◌++◌, map}
use iotex_arduino.Base.{Bool, true, false, ◌&&◌, ◌||◌, Option, none, some, codes, length}
use iotex_arduino.Base.{ltb, leb, ◌==◌, if◌then◌else◌, get_elem?, take, drop, replicate}
use iotex_arduino.Bits.{bit_and, bit_xor}

pub data Encoding : Type 0 where
  invalid bech32 bech32m : Encoding

-- CHARSET, with the terminator that ends the literal.
unfoldable pub charset : List ℕ
charset = codes "qpzry9x8gf2tvdw0s3jn54khce6mua7l" ++ (0 ∷ [])

-- An `int8_t` by its bit pattern: 255 is the -1 that marks a character outside the set.
unfoldable pub charset_rev : List ℕ
charset_rev =
    replicate 48 255
    ++ (15 ∷ 255 ∷ 10 ∷ 17 ∷ 21 ∷ 20 ∷ 26 ∷ 30 ∷ 7 ∷ 5 ∷ [])
    ++ replicate 7 255
    ++ (29 ∷ 255 ∷ 24 ∷ 13 ∷ 25 ∷ 9 ∷ 8 ∷ 23 ∷ 255 ∷ 18 ∷ 22 ∷ 31 ∷ 27 ∷ 19 ∷ 255 ∷ [])
    ++ (1 ∷ 0 ∷ 3 ∷ 16 ∷ 11 ∷ 28 ∷ 12 ∷ 14 ∷ 6 ∷ 4 ∷ 2 ∷ [])
    ++ replicate 6 255
    ++ (29 ∷ 255 ∷ 24 ∷ 13 ∷ 25 ∷ 9 ∷ 8 ∷ 23 ∷ 255 ∷ 18 ∷ 22 ∷ 31 ∷ 27 ∷ 19 ∷ 255 ∷ [])
    ++ (1 ∷ 0 ∷ 3 ∷ 16 ∷ 11 ∷ 28 ∷ 12 ∷ 14 ∷ 6 ∷ 4 ∷ 2 ∷ [])
    ++ replicate 5 255

unfoldable pub encoding_constant : Encoding → ℕ
encoding_constant bech32 = 1
encoding_constant _ = 0x2bc830a3

-- `if(c0 & bit) c ^= k;`
abbrev pub add_term : ℕ → ℕ → ℕ → ℕ → ℕ
add_term c0 bit k c = if bit_and c0 bit == 0 then c else bit_xor c k

unfoldable pub add_generator : ℕ → ℕ → ℕ
add_generator c0 c = add_term c0 16 0x2a1462b3 (
    add_term c0 8 0x3d4233dd
      (add_term c0 4 0x1ea119fa (add_term c0 2 0x26508e6d (add_term c0 1 0x3b6a57b2 c))))

-- One round of the loop of PolyMod on the `uint32_t` c.
unfoldable pub poly_step : ℕ → ℕ → ℕ
poly_step c v =
    add_generator (c / 2 ^ 25 % 2 ^ 8) (bit_xor (bit_and c 0x1ffffff * 2 ^ 5 % 2 ^ 32) v)

unfoldable pub poly_loop : ℕ → List ℕ → ℕ
poly_loop c [] = c
poly_loop c (v ∷ vs) = poly_loop (poly_step c v) vs

unfoldable pub poly_mod : List ℕ → ℕ
poly_mod v = poly_loop 1 v

abbrev pub is_lower : ℕ → Bool
is_lower c = leb b'a' c && leb c b'z'

abbrev pub is_upper : ℕ → Bool
is_upper c = leb b'A' c && leb c b'Z'

unfoldable pub lower_case : ℕ → ℕ
lower_case c = if is_upper c then c - b'A' + b'a' else c

unfoldable pub expand_hrp : List ℕ → List ℕ
expand_hrp hrp = map (λ c. c / 2 ^ 5) hrp ++ (0 ∷ map (λ c. bit_and c 0x1f) hrp)

unfoldable pub verify_checksum : List ℕ → List ℕ → Encoding
verify_checksum hrp values =
    let check = poly_mod (expand_hrp hrp ++ values) in
    if check == encoding_constant bech32
    then bech32
    else if check == encoding_constant bech32m
    then bech32m
    else invalid

-- `(mod >> (5 * (5 - i))) & 31`
abbrev pub group_at : ℕ → ℕ → ℕ
group_at m i = bit_and (m / 2 ^ (5 * (5 - i))) 31

unfoldable pub checksum_value : Encoding → List ℕ → List ℕ → ℕ
checksum_value encoding hrp values =
    bit_xor (poly_mod ((expand_hrp hrp ++ values) ++ replicate 6 0)) (encoding_constant encoding)

unfoldable pub create_checksum : Encoding → List ℕ → List ℕ → List ℕ
create_checksum encoding hrp values =
    map (group_at (checksum_value encoding hrp values)) (0 ∷ 1 ∷ 2 ∷ 3 ∷ 4 ∷ 5 ∷ [])

-- The loop `ret += CHARSET[c]`.
unfoldable pub to_chars : List ℕ → Option (List ℕ)
to_chars [] = some []
to_chars (c ∷ cs) = elim (get_elem? charset c) [
  | none ↦ none
  | some ch ↦ elim (to_chars cs) [ none ↦ none | some s ↦ some (ch ∷ s) ]
]

unfoldable pub encode : Encoding → List ℕ → List ℕ → Option (List ℕ)
encode encoding hrp values =
    let combined = values ++ create_checksum encoding hrp values in
    elim (to_chars combined) [ none ↦ none | some s ↦ some (hrp ++ (b'1' ∷ s)) ]

pub record DecodeResult : Type 0 where
  pub encoding : Encoding
  pub hrp : List ℕ
  pub values : List ℕ

abbrev pub failed : DecodeResult
failed = record { encoding = invalid; hrp = []; values = [] }

-- The first loop of Decode; `none` is its early return. The result is (lower, upper).
unfoldable pub scan_case : Bool → Bool → List ℕ → Option (Bool × Bool)
scan_case lower upper [] = some (lower, upper)
scan_case lower upper (c ∷ cs) =
    let as_lower = scan_case true upper cs in
    let as_upper = scan_case lower true cs in
    let as_other = scan_case lower upper cs in
    if is_lower c
    then as_lower
    else if is_upper c
    then as_upper
    else if ltb c 33 || ltb 126 c
    then none
    else as_other

-- `str.rfind(c)`; `none` is `npos`.
unfoldable pub rfind : ℕ → List ℕ → Option ℕ
rfind c [] = none
rfind c (x ∷ xs) = elim (rfind c xs) [
  | none ↦ if x == c then some 0 else none
  | some i ↦ some (suc i)
]

-- What the loop over the data part ends in: the values, the early return, or a read out of range.
pub data Reading : Type 0 where
  values_read : List ℕ → Reading
  rejected : Reading
  out_of_range : Reading

abbrev pub prepend : ℕ → Reading → Reading
prepend v (values_read vs) = values_read (v ∷ vs)
prepend v rejected = rejected
prepend v out_of_range = out_of_range

unfoldable pub read_values : List ℕ → Reading
read_values [] = values_read []
read_values (c ∷ cs) = elim (get_elem? charset_rev c) [
  | none ↦ out_of_range
  | some rev ↦ let rest = read_values cs in if rev == 255 then rejected else prepend rev rest
]

-- From the values on: the checksum, and the result without its six values.
unfoldable pub check_values : List ℕ → List ℕ → DecodeResult
check_values hrp values = elim (verify_checksum hrp values) [
  | invalid ↦ failed
  | e ↦ record { encoding = e; hrp = hrp; values = take (length values - 6) values }
]

unfoldable pub split_at : List ℕ → ℕ → Option DecodeResult
split_at str pos = elim (read_values (drop (pos + 1) str)) [
  | out_of_range ↦ none
  | rejected ↦ some failed
  | values_read values ↦ some (check_values (map lower_case (take pos str)) values)
]

unfoldable pub decode : List ℕ → Option DecodeResult
decode str = elim (scan_case false false str) [
  | none ↦ some failed
  | some (lower, upper) ↦ if lower && upper then some failed else elim (rfind b'1' str) [
    | none ↦ some failed
    | some pos ↦
        if ltb 90 (length str) || (pos == 0) || ltb (length str) (pos + 7)
        then some failed
        else split_at str pos
  ]
]
