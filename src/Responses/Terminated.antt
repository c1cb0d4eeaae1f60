-- ===== src/Responses/Terminated.antt =====
-- Sequences of statements that keep the character arrays of an action terminated.
use iotex_arduino.Base.{IsTerminatedArray, ℕ, zero, suc, ◌-◌, ◌≤◌, ◌<◌, ◌≡◌, refl, ◌∙◌, arith}
use iotex_arduino.Base.{All, List, [], ◌∷◌, ◌++◌, true, Bool-cases, inl, inr}
use iotex_arduino.Base.{Option, none, some, length, length-append, length-drop, drop, get_or}
use iotex_arduino.Base.{◌==◌}
use iotex_arduino.ResultCode.{ResultCode, success}
use iotex_arduino.Json.{copy_string}
use iotex_arduino.Responses.{CharArray, action_hash, block_hash, timestamp, sender, gas_fee}
use iotex_arduino.Responses.{sender_public_key, signature, gas_price, amount, recipient, index_of}
use iotex_arduino.Responses.{size_of, ActionInfo, set_array, clear_fields, Outcome}
use iotex_arduino.Responses.{returned, going, Statement, run_statements}

abbrev pub IsTerminated : ActionInfo → Type 0
IsTerminated info = (member : CharArray) → IsTerminatedArray (size_of member) (info.arrays member)

-- Behind a new text stands what stood at the same index.
get_or-behind :
    (text array : List ℕ) (i : ℕ)
    → length text ≤ i
    → get_or (text ++ drop (length text) array) i 1 ≡ get_or array i 1
get_or-behind [] array i h = refl
get_or-behind (x ∷ text) [] zero h = absurd (omega arith)
get_or-behind (x ∷ text) [] (suc i) h = nothing text i (omega arith)
  where
    nothing : (text : List ℕ) (i : ℕ) → length text ≤ i → get_or (text ++ []) i 1 ≡ 1
    nothing [] i h = refl
    nothing (y ∷ text) zero h = absurd (omega arith)
    nothing (y ∷ text) (suc i) h = nothing text i (omega arith)
get_or-behind (x ∷ text) (y ∷ array) zero h = absurd (omega arith)
get_or-behind (x ∷ text) (y ∷ array) (suc i) h = get_or-behind text array i (omega arith)

pub copy_string_lem :
    (size : ℕ) (array text : List ℕ)
    → IsTerminatedArray size array
    → length text < size
    → (new : List ℕ) × (copy_string array text ≡ some new) × IsTerminatedArray size new
unfolding copy_string
copy_string_lem size array text (l, z) h =
    let rest = drop (length text) array in
    (
      text ++ rest,
      ground arith,
      (
        omega (arith, length-append text rest, length-drop (length text) array),
        get_or-behind text array (size - 1) (omega arith) ∙ z,
      ),
    )

pub cleared : (info : ActionInfo) → IsTerminated (clear_fields info)
unfolding clear_fields
cleared info action_hash = (refl, refl)
cleared info block_hash = (refl, refl)
cleared info timestamp = (refl, refl)
cleared info sender = (refl, refl)
cleared info gas_fee = (refl, refl)
cleared info sender_public_key = (refl, refl)
cleared info signature = (refl, refl)
cleared info gas_price = (refl, refl)
cleared info amount = (refl, refl)
cleared info recipient = (refl, refl)

size_at : ℕ → ℕ
size_at i =
    let sizes : List ℕ = 65 ∷ 65 ∷ 22 ∷ 42 ∷ 31 ∷ 131 ∷ 131 ∷ 31 ∷ 31 ∷ 42 ∷ [] in get_or sizes i 0

size_of-index : (member : CharArray) → size_of member ≡ size_at (index_of member)
unfolding size_at
size_of-index action_hash = refl
size_of-index block_hash = refl
size_of-index timestamp = refl
size_of-index sender = refl
size_of-index gas_fee = refl
size_of-index sender_public_key = refl
size_of-index signature = refl
size_of-index gas_price = refl
size_of-index amount = refl
size_of-index recipient = refl

pub set_array-IsTerminated :
    (info : ActionInfo) (member : CharArray) (new : List ℕ)
    → IsTerminated info
    → IsTerminatedArray (size_of member) new
    → IsTerminated (record info { arrays = set_array info.arrays member new })
unfolding set_array
set_array-IsTerminated info member new h n other =
    elim (Bool-cases (index_of member == index_of other)) [
      | inl e ↦ rw e (rw (size_of-index other, ← same_index e, ← size_of-index member) n)
      | inr e ↦ rw e (h other)
    ]
  where
    same_index : (index_of member == index_of other) ≡ true → index_of member ≡ index_of other
    same_index e = ground arith

-- Every end of the statement is there and keeps the arrays terminated.
abbrev pub EndsTerminated : Option Outcome → Type 0
EndsTerminated none = ⊥
EndsTerminated (some (returned ret info)) = IsTerminated info
EndsTerminated (some (going info)) = IsTerminated info

abbrev pub IsSafe : Statement → Type 0
IsSafe statement = (info : ActionInfo) → IsTerminated info → EndsTerminated (statement info)

abbrev pub EndsWell : List Statement → ActionInfo → Type 0
EndsWell statements info =
    (result : ResultCode × ActionInfo) × (run_statements statements info ≡ some result)
    × IsTerminated result.1

run_statements-step :
    (statement : Statement) (statements : List Statement) (info : ActionInfo)
    (outcome : Option Outcome)
    → statement info ≡ outcome
    → EndsTerminated outcome
    → ((after : ActionInfo) → IsTerminated after → EndsWell statements after)
    → EndsWell (statement ∷ statements) info
unfolding run_statements
run_statements-step statement statements info none e n rest = absurd n
run_statements-step statement statements info (some (returned ret after)) e n rest =
    ((ret, after), rw e refl, n)
run_statements-step statement statements info (some (going after)) e n rest =
    let r = rest after n in (r.0, rw e r.1, r.2)

pub run_statements-IsSafe :
    (statements : List Statement) (info : ActionInfo)
    → All IsSafe statements
    → IsTerminated info
    → EndsWell statements info
run_statements-IsSafe [] info h t = ((success, info), unfold run_statements in refl, t)
run_statements-IsSafe (statement ∷ statements) info (h, hs) t =
    run_statements-step statement statements info (statement info) refl (h info t)
      (λ after n. run_statements-IsSafe statements after hs n)
