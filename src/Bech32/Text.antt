-- ===== src/Bech32/Text.antt =====
-- The scans that Decode makes of a whole text: letter case, the separator, the two parts.
use iotex_arduino.Base.{ℕ, suc, ◌≤◌, ◌≡◌, refl, arith, Bool, true, false, map}
use iotex_arduino.Base.{none, some, List, [], ◌∷◌, ◌++◌, All, length, take, drop, ◌==◌}
use iotex_arduino.Base.{Bool-cases, inl, inr}
use iotex_arduino.Bech32.{is_upper, is_lower, lower_case, scan_case, rfind}
use iotex_arduino.Bech32.Charset.{IsSymbol}

-- A printable character that is no capital, as the prefix and the data part of an encoder's
-- result have.
pub record IsLowerCase (c : ℕ) : Type 0 where
  pub printable : (33 ≤ c) × (c ≤ 126)
  pub not_upper : is_upper c ≡ false

pub symbols-IsLowerCase : (s : List ℕ) → All IsSymbol s → All IsLowerCase s
symbols-IsLowerCase [] h = tt
symbols-IsLowerCase (c ∷ s) (h, hs) =
    (record { printable = h.printable; not_upper = h.not_upper }, symbols-IsLowerCase s hs)

pub lower_case-map : (s : List ℕ) → All IsLowerCase s → map lower_case s ≡ s
unfolding lower_case
lower_case-map [] h = refl
lower_case-map (c ∷ s) (h, hs) = rw (h.not_upper, lower_case-map s hs)

-- A text in lower case passes the scan, and its second flag stays off.
pub scan_case-lower :
    (s : List ℕ) (lower : Bool)
    → All IsLowerCase s
    → (l : Bool) × (scan_case lower false s ≡ some (l, false))
unfolding scan_case
scan_case-lower [] lower h = (lower, refl)
scan_case-lower (c ∷ s) lower (h, hs) = elim (Bool-cases (is_lower c)) [
  | inl e ↦ rw e (scan_case-lower s true hs)
  | inr e ↦ let rest = scan_case-lower s lower hs in (rest.0, ground (arith, rest.1, h.not_upper))
]

pub rfind-ne : (c : ℕ) (s : List ℕ) → All (λ x. (x == c) ≡ false) s → rfind c s ≡ none
unfolding rfind
rfind-ne c [] h = refl
rfind-ne c (x ∷ s) (h, hs) = ground (arith, rfind-ne c s hs)

-- The last separator stands where the part without separators begins.
pub rfind-append :
    (c : ℕ) (front back : List ℕ)
    → All (λ x. (x == c) ≡ false) back
    → rfind c (front ++ (c ∷ back)) ≡ some (length front)
unfolding rfind
rfind-append c [] back h = ground (arith, rfind-ne c back h)
rfind-append c (x ∷ front) back h = ground (arith, rfind-append c front back h)

pub take-front {ℓ} : {A : Type ℓ} (xs ys : List A) → take (length xs) (xs ++ ys) ≡ xs
take-front [] ys = refl
take-front (x ∷ xs) ys = rw (take-front xs ys)

pub drop-front {ℓ} :
    {A : Type ℓ} (xs ys : List A) (y : A) → drop (suc (length xs)) (xs ++ (y ∷ ys)) ≡ ys
drop-front [] ys y = refl
drop-front (x ∷ xs) ys y = drop-front xs ys y
