-- ===== src/Abi/SizeText.antt =====
-- The size behind the name of a type is read back from its decimal text.
use iotex_arduino.Base.{ℕ, ◌+◌, ◌/◌, ◌%◌, ◌≤◌, ◌<◌, ◌≡◌, refl, ◌∙◌}
use iotex_arduino.Base.{arith, List, [], ◌∷◌, ◌++◌, true, false, inl, inr, none}
use iotex_arduino.Base.{some, length, ltb, ◌==◌, if◌then◌else◌, atoi}
use iotex_arduino.Base.{digits_value, signed_value, decimal, decimal_one, decimal_two}
use iotex_arduino.Base.{decimal_three, Bool-cases}
use iotex_arduino.Abi.{InputOutputAbi}
use iotex_arduino.Abi.TypeText.{read_size_digits, size_value, has_size, set_size, check_array}
use iotex_arduino.Abi.TypeText.{get_size_and_check_if_array}

-- A text that ends, or that goes on with an array.
abbrev pub EndsSize : List ℕ → Type 0
EndsSize [] = Unit
EndsSize (c ∷ rest) = c ≡ b'['

-- A predicate of the decimal text by its one, two or three digits.
pub by_digits {ℓ} :
    (P : List ℕ → Type ℓ) (n : ℕ)
    → n < 1000
    → (n < 10 → P ((b'0' + n) ∷ []))
    → (10 ≤ n → n < 100 → P ((b'0' + n / 10) ∷ (b'0' + n % 10) ∷ []))
    → (100 ≤ n → P ((b'0' + n / 10 / 10) ∷ (b'0' + n / 10 % 10) ∷ (b'0' + n % 10) ∷ []))
    → P (decimal n)
by_digits P n h one two three = elim (Bool-cases (ltb n 10)) [
  | inl a ↦ let s : n < 10 = ground arith in rw (decimal_one n s) (one s)
  | inr a ↦ elim (Bool-cases (ltb n 100)) [
    | inl b ↦
        let l : 10 ≤ n = ground arith in
        let s : n < 100 = ground arith in rw (decimal_two n l s) (two l s)
    | inr b ↦ let l : 100 ≤ n = ground arith in rw (decimal_three n l h) (three l)
  ]
]

read_size_digits-decimal :
    (n : ℕ) (rest : List ℕ)
    → n < 1000
    → EndsSize rest
    → read_size_digits 4 [] (decimal n ++ rest) ≡ some (decimal n, rest)
unfolding read_size_digits
read_size_digits-decimal n [] h e =
    by_digits (λ s. read_size_digits 4 [] (s ++ []) ≡ some (s, [])) n h (λ a. ground arith)
      (λ a b. ground arith) (λ a. ground arith)
read_size_digits-decimal n (c ∷ []) h e =
    by_digits (λ s. read_size_digits 4 [] (s ++ (c ∷ [])) ≡ some (s, c ∷ [])) n h
      (λ a. ground arith) (λ a b. ground arith) (λ a. ground arith)
read_size_digits-decimal n (c ∷ d ∷ rest) h e =
    by_digits (λ s. read_size_digits 4 [] (s ++ (c ∷ d ∷ rest)) ≡ some (s, c ∷ d ∷ rest)) n h
      (λ a. ground arith) (λ a b. ground arith) (λ a. ground arith)

pub atoi-decimal : (n : ℕ) → n < 1000 → atoi (decimal n) ≡ some n
unfolding atoi digits_value signed_value
atoi-decimal n h =
    by_digits (λ s. atoi s ≡ some n) n h (λ a. ground arith) (λ a b. ground arith)
      (λ a. ground arith)

size_value-decimal : (n : ℕ) → n < 1000 → size_value (decimal n) ≡ some n
unfolding size_value
size_value-decimal n h =
    (by_digits (λ s. (if ltb (length s) 4 then atoi s else none) ≡ atoi s) n h (λ a. refl)
      (λ a b. refl) (λ a. refl))
    ∙ atoi-decimal n h

decimal-not_empty : (n : ℕ) (rest : List ℕ) → n < 1000 → (length (decimal n ++ rest) == 0) ≡ false
decimal-not_empty n rest h =
    by_digits (λ s. (length (s ++ rest) == 0) ≡ false) n h (λ a. ground arith) (λ a b. ground arith)
      (λ a. ground arith)

-- A type with a size in decimal goes on with the array.
pub sized_lem :
    (n : ℕ) (rest : List ℕ) (out : InputOutputAbi)
    → n < 1000
    → EndsSize rest
    → has_size out.type ≡ true
    → get_size_and_check_if_array (decimal n ++ rest) out
      ≡ check_array rest (set_size out.type n out)
unfolding get_size_and_check_if_array
sized_lem n rest out h e sized = ground (
  arith,
  sized,
  decimal-not_empty n rest h,
  read_size_digits-decimal n rest h e,
  size_value-decimal n h,
)
