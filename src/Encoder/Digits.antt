-- ===== src/Encoder/Digits.antt =====
-- The number that a list of digits stands for, the most significant digit first.
use iotex_arduino.Base.{ℕ, ◌+◌, ◌*◌, ◌≡◌, refl, List, [], ◌∷◌, ◌++◌}

abbrev pub horner : ℕ → ℕ → List ℕ → ℕ
horner base acc [] = acc
horner base acc (d ∷ ds) = horner base (acc * base + d) ds

pub horner-append :
    (base acc : ℕ) (xs ys : List ℕ)
    → horner base acc (xs ++ ys) ≡ horner base (horner base acc xs) ys
horner-append base acc [] ys = refl
horner-append base acc (x ∷ xs) ys = horner-append base (acc * base + x) xs ys
