-- ===== src/Contract/SignedWords.antt =====
-- The word of a signed integer of 64 bits is its two's complement of 256 bits.
use mathlib.Core.Path.{subst}
use iotex_arduino.Base.{ℕ, zero, suc, ◌/◌, ◌%◌, ◌^◌, ◌<◌, ◌≡◌, refl, sym, ap, ◌∙◌, arith}
use iotex_arduino.Base.{List, [], ◌∷◌, ◌++◌, some, length, take, replicate, All, IsByte, All-append}
use iotex_arduino.Base.{take-all, Option, inr, if◌then◌else◌, Bool, true, false}
use iotex_arduino.Encoder.Digits.{horner}
use iotex_arduino.Encoder.Address.{horner-injective}
use iotex_arduino.Abi.{stored}
use iotex_arduino.Contract.Words.{generate_bytes_for_int, is_negative, swapped}
use iotex_arduino.Contract.WordLaws.{little_endian, sign_extended, int-horner, length-stored}
use iotex_arduino.Contract.WordLaws.{little_endian-stored}
use iotex_arduino.Contract.BigEndian.{
  big_endian, length-big_endian, horner-big_endian, swapped-stored,
}

stored-IsByte : (n v : ℕ) → All IsByte (stored n v)
unfolding stored
stored-IsByte zero v = tt
stored-IsByte (suc n) v = (omega arith, stored-IsByte n (v / 256))

pub big_endian-IsByte : (n v : ℕ) → All IsByte (big_endian n v)
big_endian-IsByte zero v = tt
big_endian-IsByte (suc n) v =
    All-append IsByte (big_endian n (v / 256)) (v % 256 ∷ []) (big_endian-IsByte n (v / 256))
      (omega arith, tt)

replicate-IsByte : (n b : ℕ) → b < 256 → All IsByte (replicate n b)
replicate-IsByte zero b h = tt
replicate-IsByte (suc n) b h = (h, replicate-IsByte n b h)

pad_byte : (b : Bool) → (if b then 0xff else 0) < 256
pad_byte true = omega arith
pad_byte false = omega arith

-- The bytes of a number are its big-endian form.
big_endian-horner :
    (n : ℕ) (word : List ℕ)
    → length word ≡ n
    → All IsByte word
    → horner 256 0 word < 256 ^ n
    → big_endian n (horner 256 0 word) ≡ word
big_endian-horner n word size bytes h =
    let v : ℕ = horner 256 0 word in
    (horner-injective 0 0 (big_endian n v) word (big_endian-IsByte n v) bytes
      (length-big_endian n v ∙ sym size) (horner-big_endian n v h)).1

abbrev pad_of : List ℕ → ℕ
pad_of p = if is_negative p 8 then 0xff else 0

generate_int :
    (p : List ℕ) → generate_bytes_for_int p 8 ≡ some (replicate 24 (pad_of p) ++ swapped p 8)
unfolding generate_bytes_for_int
generate_int p = refl

some-injective : (xs ys : List ℕ) → ◌≡◌ {A = Option (List ℕ)} (some xs) (some ys) → xs ≡ ys
some-injective xs ys e = cc

sign_extended-lt : (v : ℕ) → v < 2 ^ 64 → sign_extended 8 v < 256 ^ 32
sign_extended-lt v h = ground (arith, h)

word-IsByte :
    (p : List ℕ) (v : ℕ)
    → swapped p 8 ≡ big_endian 8 v
    → All IsByte (replicate 24 (pad_of p) ++ swapped p 8)
word-IsByte p v e =
    All-append IsByte (replicate 24 (pad_of p)) (swapped p 8)
      (replicate-IsByte 24 (pad_of p) (pad_byte (is_negative p 8)))
      (subst (λ (t : List ℕ). All IsByte t) (sym e) (big_endian-IsByte 8 v))

-- A word with the number of the signed integer is its big-endian form.
signed_word :
    (word : List ℕ) (v : ℕ)
    → v < 2 ^ 64
    → length word ≡ 32
    → All IsByte word
    → horner 256 0 word ≡ sign_extended 8 v
    → word ≡ big_endian 32 (sign_extended 8 v)
signed_word word v h size bytes value =
    sym (big_endian-horner 32 word size bytes (rw value (sign_extended-lt v h)))
    ∙ ap (λ (n : ℕ). big_endian 32 n) value

-- generateBytesForInt on the eight bytes of an int64_t gives its sign-extended big-endian form.
pub int_word :
    (v : ℕ)
    → v < 2 ^ 64
    → generate_bytes_for_int (stored 8 v) 8 ≡ some (big_endian 32 (sign_extended 8 v))
int_word v h =
    let p : List ℕ = stored 8 v in
    let (word, run, size, value) =
      int-horner p 8 (length-stored 8 v) (stored-IsByte 8 v) (inr (inr (inr refl))) in
    let e =
      some-injective word (replicate 24 (pad_of p) ++ swapped p 8) (sym run ∙ generate_int p) in
    let bytes =
      subst (λ (t : List ℕ). All IsByte t) (sym e) (word-IsByte p v (swapped-stored 8 v)) in
    let whole : take 8 p ≡ p = take-all p 8 (omega (arith, length-stored 8 v)) in
    let number : sign_extended 8 (little_endian (take 8 p)) ≡ sign_extended 8 v =
      ap (λ (t : List ℕ). sign_extended 8 (little_endian t)) whole
      ∙ ap (λ (n : ℕ). sign_extended 8 n) (little_endian-stored 8 v (omega (arith, h))) in
    run ∙ ap some (signed_word word v h size bytes (value ∙ number))
