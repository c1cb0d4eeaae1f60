-- ===== src/Base/CString.antt =====
-- The text in a character array, up to its terminator.
use Prim.Native.Nat.{ℕ, zero, suc, ◌+◌, ◌-◌, ◌≤◌, ◌<◌}
use native.Mathlib.Omega.{arith}
use mathlib.Core.Path.{◌≡◌, refl}
use mathlib.Core.Logic.{inl, inr}
use mathlib.Core.Bool.{true, false}
use mathlib.Core.Option.{Option, none, some}
use mathlib.Core.List.{List, [], ◌∷◌, ◌++◌}
use iotex_arduino.Base.Tests.{◌==◌, Bool-cases}
use iotex_arduino.Base.Lists.{length, get_or, replicate, length-append, length-replicate}
use iotex_arduino.Base.Text.{All}

-- The string at the start of a buffer.
unfoldable pub c_string : List ℕ → Option (List ℕ)
c_string [] = none
c_string (c ∷ buffer) = elim (c == 0) [
  | true ↦ some []
  | false ↦ elim (c_string buffer) [ none ↦ none | some s ↦ some (c ∷ s) ]
]

-- An array of its size whose last character is the terminator.
abbrev pub IsTerminatedArray : ℕ → List ℕ → Type 0
IsTerminatedArray size array = (length array ≡ size) × (get_or array (size - 1) 1 ≡ 0)

abbrev pub IsText : List ℕ → Type 0
IsText s = All (λ c. 0 < c) s

pub c_string-text : (s rest : List ℕ) → IsText s → c_string (s ++ (0 ∷ rest)) ≡ some s
unfolding c_string
c_string-text [] rest h = refl
c_string-text (c ∷ s) rest (h, hs) = ground (arith, c_string-text s rest hs)

pub c_string-terminated :
    (n : ℕ) (array : List ℕ)
    → get_or array n 1 ≡ 0
    → (s : List ℕ) × (c_string array ≡ some s) × (length s ≤ n)
unfolding c_string
c_string-terminated n [] h = absurd (omega (arith, h))
c_string-terminated zero (c ∷ array) h = ([], ground (arith, h), omega arith)
c_string-terminated (suc n) (c ∷ array) h =
    let (s, e, bound) = c_string-terminated n array h in
    elim (Bool-cases (c == 0)) [
      | inl z ↦ ([], ground (arith, z), omega arith)
      | inr z ↦ (c ∷ s, ground (arith, z, e), omega (arith, bound))
    ]

-- A text at the start of a cleared array.
abbrev pub in_array : ℕ → List ℕ → List ℕ
in_array size s = s ++ replicate (size - length s) 0

get_or-zeroes : (k i : ℕ) → i < k → get_or (replicate {A = ℕ} k 0) i 1 ≡ 0
get_or-zeroes zero i h = absurd (omega arith)
get_or-zeroes (suc k) zero h = refl
get_or-zeroes (suc k) (suc i) h = get_or-zeroes k i (omega arith)

get_or-behind_text :
    (s : List ℕ) (k i : ℕ) → length s ≤ i → i < length s + k → get_or (s ++ replicate k 0) i 1 ≡ 0
get_or-behind_text [] k i h g = get_or-zeroes k i (omega arith)
get_or-behind_text (c ∷ s) k zero h g = absurd (omega arith)
get_or-behind_text (c ∷ s) k (suc i) h g = get_or-behind_text s k i (omega arith) (omega arith)

pub in_array-IsTerminatedArray :
    (s : List ℕ) (n : ℕ) → length s < n → IsTerminatedArray n (in_array n s)
in_array-IsTerminatedArray s n h = (
  omega (
    arith,
    length-append s (replicate (n - length s) 0),
    length-replicate {A = ℕ} (n - length s) 0,
  ),
  get_or-behind_text s (n - length s) (n - 1) (omega arith) (omega arith),
)

pub c_string-in_array :
    (s : List ℕ) (n : ℕ) → length s < n → IsText s → c_string (in_array n s) ≡ some s
c_string-in_array s n h text = behind (n - length s) (omega arith)
  where
    behind : (k : ℕ) → 0 < k → c_string (s ++ replicate k 0) ≡ some s
    behind zero z = absurd (omega arith)
    behind (suc k) z = c_string-text s (replicate k 0) text
