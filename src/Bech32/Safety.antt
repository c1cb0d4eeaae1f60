-- ===== src/Bech32/Safety.antt =====
-- Decode on any text: the first scan keeps the table lookups in range.
use iotex_arduino.Base.{ℕ, zero, suc, ◌+◌, ◌≤◌, ◌≡◌, refl, arith, ◌≢◌, Bool, true, false, ◌||◌}
use iotex_arduino.Base.{Option, none, some, List, [], ◌∷◌, map, All, get_elem?, drop, take, ltb}
use iotex_arduino.Base.{◌==◌, holds_below, holds_below→test, Bool-cases, inl, inr, ◌&&◌}
use iotex_arduino.Base.{length, Option-cases}
use iotex_arduino.Bech32.{charset_rev, scan_case, read_values, values_read, rejected, out_of_range}
use iotex_arduino.Bech32.{Reading, prepend, decode, split_at, DecodeResult, is_lower, is_upper}
use iotex_arduino.Bech32.{check_values, lower_case, rfind, failed}

found : Option ℕ → Bool
found none = false
found (some v) = true

rev_table : holds_below (λ c. found (get_elem? charset_rev c)) 128 ≡ true
unfolding holds_below found charset_rev
rev_table = refl

found→some : (o : Option ℕ) → found o ≡ true → (v : ℕ) × (o ≡ some v)
unfolding found
found→some none h = cc
found→some (some v) h = (v, refl)

get-charset_rev-some : (c : ℕ) → c ≤ 126 → (v : ℕ) × (get_elem? charset_rev c ≡ some v)
get-charset_rev-some c h =
    found→some _
      (holds_below→test (λ c. found (get_elem? charset_rev c)) 128 c rev_table (omega arith))

prepend-ne : (v : ℕ) (r : Reading) → r ≢ out_of_range → prepend v r ≢ out_of_range
prepend-ne v (values_read vs) h e = cc
prepend-ne v rejected h e = cc
prepend-ne v out_of_range h e = h refl

-- Below 127 the loop over the data part never reads outside CHARSET_REV.
pub read_values-in_range : (cs : List ℕ) → All (λ c. c ≤ 126) cs → read_values cs ≢ out_of_range
unfolding read_values
read_values-in_range [] h e = cc
read_values-in_range (c ∷ cs) (h, hs) e =
    let look = get-charset_rev-some c h in
    elim (Bool-cases (look.0 == 255)) [
      | inl x ↦ ground (arith, look.1)
      | inr x ↦
          ground (arith, look.1, prepend-ne look.0 (read_values cs) (read_values-in_range cs hs))
    ]

-- One round of the scan that goes on: the character is printable, and some flags are passed on.
scan_case-next :
    (c : ℕ) (cs : List ℕ) (lower upper : Bool) (r : Bool × Bool)
    → scan_case lower upper (c ∷ cs) ≡ some r
    → (c ≤ 126) × ((l : Bool) × (u : Bool) × (scan_case l u cs ≡ some r))
unfolding scan_case
scan_case-next c cs lower upper r h = elim (Bool-cases (is_lower c)) [
  | inl p ↦ (ground arith, (true, upper, ground arith))
  | inr p ↦ elim (Bool-cases (is_upper c)) [
    | inl q ↦ (ground arith, (lower, true, ground arith))
    | inr q ↦ (ground arith, (lower, upper, ground arith))
  ]
]

scan_case-bound :
    (cs : List ℕ) (lower upper : Bool) (r : Bool × Bool)
    → scan_case lower upper cs ≡ some r
    → All (λ c. c ≤ 126) cs
scan_case-bound [] lower upper r h = tt
scan_case-bound (c ∷ cs) lower upper r h =
    let step = scan_case-next c cs lower upper r h in
    (step.0, scan_case-bound cs step.1.0 step.1.1 r step.1.2)

All-drop {ℓ κ} : {A : Type ℓ} (P : A → Type κ) (n : ℕ) (xs : List A) → All P xs → All P (drop n xs)
All-drop P zero xs h = h
All-drop P (suc n) [] h = h
All-drop P (suc n) (x ∷ xs) (p, h) = All-drop P n xs h

split_at_total :
    (s : List ℕ) (pos : ℕ) → All (λ c. c ≤ 126) s → (r : DecodeResult) × (split_at s pos ≡ some r)
unfolding split_at
split_at_total s pos h = by_reading (read_values (drop (pos + 1) s)) refl
  where
    by_reading :
        (rd : Reading)
        → read_values (drop (pos + 1) s) ≡ rd
        → (r : DecodeResult) × (split_at s pos ≡ some r)
    by_reading (values_read vs) e = (check_values (map lower_case (take pos s)) vs, ground arith)
    by_reading rejected e = (failed, ground arith)
    by_reading out_of_range e =
        absurd (read_values-in_range _ (All-drop (λ c. c ≤ 126) (pos + 1) s h) e)

-- Decode returns on every text: it reads no table out of range.
pub decode_total : (s : List ℕ) → (r : DecodeResult) × (decode s ≡ some r)
unfolding decode
decode_total s = elim (Option-cases (scan_case false false s)) [
  | inl e ↦ (failed, rw (e, decode) refl)
  | inr ((l, u), e) ↦ elim (Bool-cases (l && u)) [
    | inl mixed ↦ (failed, ground arith)
    | inr same ↦ elim (Option-cases (rfind b'1' s)) [
      | inl n ↦ (failed, ground arith)
      | inr (pos, p) ↦
          elim (Bool-cases (ltb 90 (length s) || (pos == 0) || ltb (length s) (pos + 7))) [
            | inl bad ↦ (failed, ground arith)
            | inr good ↦
                let rest = split_at_total s pos (scan_case-bound s false false (l, u) e) in
                (rest.0, ground (arith, rest.1))
          ]
    ]
  ]
]
