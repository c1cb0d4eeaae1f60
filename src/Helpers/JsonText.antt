-- ===== src/Helpers/JsonText.antt =====
-- The JSON text of a property that has been set, and how often a moved one is freed.
use iotex_arduino.Base.{ℕ, ◌+◌, ◌-◌, ◌%◌, ◌^◌, ◌<◌, ◌≡◌, refl, arith, ap, ◌∙◌, List, [], ◌∷◌, ◌++◌}
use iotex_arduino.Base.{Bool, true, false, Option, some, if◌then◌else◌, codes, decimal, length}
use iotex_arduino.Base.{replicate, length-append, length-decimal, append_assoc, append-nil}
use iotex_arduino.Base.{AllDigits, decimal-AllDigits, IsText, c_string-text, Bool-cases, inl, inr}
use iotex_arduino.Json.{copy_string_cleared}
use iotex_arduino.Rpc.Json.{tight_member, quoted, object}
use iotex_arduino.Helpers.JsonProp.{Value, bits, JsonProp, Kind, string_prop, uint8_prop}
use iotex_arduino.Helpers.JsonProp.{
  uint64_prop, bytes_prop, array_prop, bool_prop, json_prop_new, json_prop_move, destroy,
}
use iotex_arduino.Helpers.JsonProp.{
  set_value_string, set_value_uint64, set_value_boolean, bit_of, print_number,
}
use iotex_arduino.Helpers.JsonProp.{get_value_uint64, get_value_bool, append_value, to_string}

AllDigits-IsText : (s : List ℕ) → AllDigits s → IsText s
AllDigits-IsText [] h = tt
AllDigits-IsText (c ∷ s) (h, hs) = (ground (arith, h), AllDigits-IsText s hs)

print_number_lem : (size n : ℕ) → length (decimal n) < size → print_number size n ≡ some (decimal n)
unfolding print_number
print_number_lem size n h =
    let line : List ℕ = decimal n ++ (0 ∷ []) in
    let copied =
      copy_string_cleared size line (omega (arith, h, length-append (decimal n) (0 ∷ []))) in
    let rest : List ℕ = replicate (size - length line) 0 in
    rw copied (
      rw (append_assoc (decimal n) (0 ∷ []) rest)
        (c_string-text (decimal n) rest (AllDigits-IsText (decimal n) (decimal-AllDigits n))))

-- What a setter makes of a property of a kind, and the JSON value that it stands for.
pub data Sets : Kind → (JsonProp → Option JsonProp) → List ℕ → Type 0 where
  sets_string : (s : List ℕ) → Sets string_prop (set_value_string s) (quoted s)
  sets_uint8 : (n : ℕ) → n < 256 → Sets uint8_prop (set_value_uint64 n) (decimal n)
  sets_uint64 : (n : ℕ) → n < 2 ^ 64 → Sets uint64_prop (set_value_uint64 n) (decimal n)
  sets_boolean :
      (b : Bool) → Sets bool_prop (set_value_boolean b) (if b then codes "true" else codes "false")

-- The text of a member, or of an object with the one member.
abbrev pub json_of : Bool → List ℕ → List ℕ → List ℕ
json_of true name value = object (tight_member name value ∷ [])
json_of false name value = tight_member name value

to_string-value :
    (kind : Kind) (prop : JsonProp) (enclose : Bool) (value : List ℕ)
    → append_value kind prop ≡ some value
    → to_string kind prop enclose ≡ some (json_of enclose prop.name value)
unfolding to_string
to_string-value kind prop true value h =
    rw h (ap (λ (t : List ℕ). some (b'{' ∷ t)) (simp (append_assoc)))
to_string-value kind prop false value h = rw h (rw (append-nil value) refl)

append_value-set :
    (kind : Kind) (setter : JsonProp → Option JsonProp) (prop : JsonProp) (memory : ℕ)
    (value : List ℕ)
    → prop.value ≡ bits memory
    → Sets kind setter value
    → (prop' : JsonProp) × (setter prop ≡ some prop')
      × (prop'.name ≡ prop.name)
      × (append_value kind prop' ≡ some value)
unfolding append_value get_value_uint64 get_value_bool set_value_string set_value_uint64
    set_value_boolean
append_value-set string_prop setter prop memory value h (sets_string s) = (_, refl, refl, refl)
append_value-set uint8_prop setter prop memory value h (sets_uint8 n low) =
    let e : n % 256 ≡ n = omega (arith, low) in
    (
      _,
      refl,
      refl,
      rw e (print_number_lem 4 n (omega (arith, length-decimal 2 n (omega (arith, low))))),
    )
append_value-set uint64_prop setter prop memory value h (sets_uint64 n low) =
    (_, refl, refl, print_number_lem 21 n (omega (arith, length-decimal 19 n (omega (arith, low)))))
append_value-set bool_prop setter prop memory value h (sets_boolean true) = (
  record prop { initialized = true; value = bits (memory - memory % 256 + bit_of true) },
  ground (arith, h),
  refl,
  ground arith,
)
append_value-set bool_prop setter prop memory value h (sets_boolean false) = (
  record prop { initialized = true; value = bits (memory - memory % 256 + bit_of false) },
  ground (arith, h),
  refl,
  ground arith,
)
append_value-set bytes_prop setter prop memory value h s = elim s [ ]
append_value-set array_prop setter prop memory value h s = elim s [ ]

-- A new property whose value is printed as JSON: a StringJsonProp that was set to a string, a
-- Uint8JsonProp or Uint64JsonProp that was set to a number that it can hold, or a BoolJsonProp that
-- was set to a Boolean, whatever number its memory held before. ToString returns the member with the
-- name of the property and that value, and in braces when it is asked for them.
pub to_string-set :
    (kind : Kind) (setter : JsonProp → Option JsonProp) (name value : List ℕ) (memory : JsonProp)
    (noise : ℕ) (enclose : Bool)
    → memory.value ≡ bits noise
    → Sets kind setter value
    → (prop : JsonProp) × (setter (json_prop_new kind name memory) ≡ some prop)
      × (to_string kind prop enclose ≡ some (json_of enclose name value))
unfolding json_prop_new
to_string-set kind setter name value memory noise enclose h sets =
    let (prop, run, named, appended) =
      append_value-set kind setter (json_prop_new kind name memory) noise value h sets in
    (
      prop,
      run,
      to_string-value kind prop enclose value appended
          ∙ ap (λ (n : List ℕ). some (json_of enclose n value)) named,
    )

-- When the destructor of a property is defined, then after a move the destructor of the new property
-- frees as much, and that of the old one frees nothing: no object is freed twice and none is lost.
pub destroy-json_prop_move :
    (prop : JsonProp) (memory : Value) (freed : ℕ)
    → destroy prop ≡ some freed
    → (destroy (json_prop_move prop memory).0 ≡ some freed)
      × (destroy (json_prop_move prop memory).1 ≡ some 0)
unfolding destroy json_prop_move
destroy-json_prop_move prop memory freed h = elim (Bool-cases prop.initialized) [
  | inl i ↦ rw i ((rw i at h), ground arith)
  | inr i ↦ ground (arith, i, h)
]
