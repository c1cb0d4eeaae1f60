-- ===== src/ResultCode.antt =====
-- src/IoTeXResultCodes.h, the sizes of src/IoTeXConstants.h, and writes into buffers.
use iotex_arduino.Base.{ℕ, zero, suc, ◌+◌, ◌*◌, ◌<◌, ◌≡◌, refl, arith, List, [], ◌∷◌, ◌++◌}
use iotex_arduino.Base.{Bool, true, false, Option, none, some, length}

pub data ResultCode : Type 0 where
  success error_http error_json_parse error_bad_parameter error_signature error_unknown : ResultCode
  error_storage_open error_storage_bad_read error_storage_empty error_grpc : ResultCode
  error_wrong_type values_count : ResultCode

abbrev pub is_success : ResultCode → Bool
is_success success = true
is_success _ = false

abbrev pub hash_size : ℕ
hash_size = 32

abbrev pub private_key_size : ℕ
private_key_size = 32

abbrev pub public_key_size : ℕ
public_key_size = 65

abbrev pub signature_size : ℕ
signature_size = 65

abbrev pub address_strlen : ℕ
address_strlen = 41

abbrev pub address_c_string_size : ℕ
address_c_string_size = address_strlen + 1

abbrev pub max_balance_strlen : ℕ
max_balance_strlen = 30

abbrev pub eth_address_size : ℕ
eth_address_size = 20

abbrev pub eth_address_strlen : ℕ
eth_address_strlen = eth_address_size * 2 + 2

abbrev pub eth_address_c_string_size : ℕ
eth_address_c_string_size = eth_address_strlen + 1

abbrev pub hash_strlen : ℕ
hash_strlen = hash_size * 2

abbrev pub public_key_strlen : ℕ
public_key_strlen = public_key_size * 2

abbrev pub signature_strlen : ℕ
signature_strlen = signature_size * 2

abbrev pub timestamp_strlen : ℕ
timestamp_strlen = 21

-- `buf[i] = v`; `none` is a write outside the buffer, which C++ leaves undefined.
unfoldable pub write : List ℕ → ℕ → ℕ → Option (List ℕ)
write [] i v = none
write (x ∷ xs) zero v = some (v ∷ xs)
write (x ∷ xs) (suc i) v = elim (write xs i v) [ none ↦ none | some ys ↦ some (x ∷ ys) ]

pub write-append :
    (pre post : List ℕ) (x i v : ℕ)
    → i ≡ length pre
    → write (pre ++ (x ∷ post)) i v ≡ some (pre ++ (v ∷ post))
unfolding write
write-append [] post x zero v e = refl
write-append [] post x (suc i) v e = absurd (omega arith)
write-append (y ∷ pre) post x zero v e = absurd (omega arith)
write-append (y ∷ pre) post x (suc i) v e = ground (arith, write-append pre post x i v)

pub write_past : (buf : List ℕ) (i v : ℕ) → length buf ≡ i → write buf i v ≡ none
unfolding write
write_past [] i v e = refl
write_past (x ∷ buf) zero v e = absurd (omega arith)
write_past (x ∷ buf) (suc i) v e = ground (arith, write_past buf i v)

pub write_in_range :
    (buf : List ℕ) (i v : ℕ)
    → i < length buf
    → (buf' : List ℕ) × (write buf i v ≡ some buf') × (length buf' ≡ length buf)
unfolding write
write_in_range [] i v h = absurd (omega arith)
write_in_range (x ∷ buf) zero v h = (v ∷ buf, refl, refl)
write_in_range (x ∷ buf) (suc i) v h =
    let rest = write_in_range buf i v (omega arith) in
    (x ∷ rest.0, ground (arith, rest.1), omega (arith, rest.2))
