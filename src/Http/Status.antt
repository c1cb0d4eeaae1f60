-- ===== src/Http/Status.antt =====
-- What post on the OS makes of the status that the node sends.
use mathlib.Core.Path.{subst}
use iotex_arduino.Base.{ℕ, ◌<◌, ◌≡◌, refl, ap, ◌∙◌, arith, List, [], ◌∷◌, ◌++◌, Bool, true, false}
use iotex_arduino.Base.{Option, none, some, drop, length, c_string, IsText, if◌then◌else◌}
use iotex_arduino.Base.{Bool-cases, inl, inr, ◌⊎◌}
use iotex_arduino.ResultCode.{error_http}
use iotex_arduino.Json.{copy_string}
use iotex_arduino.Http.{GrpcStatus, memcmp_equal, status_needle, message_needle, read_status}
use iotex_arduino.Http.{header_callback, header_callbacks, Curl, os_post, status_result}

-- A line that the two comparisons read inside of, whose text behind the name of a status is not empty.
pub record IsLine (line : List ℕ) : Type 0 where
  pub is_status : Bool
  pub is_message : Bool
  pub status_lem : memcmp_equal status_needle line ≡ some is_status
  pub message_lem : memcmp_equal message_needle line ≡ some is_message
  pub text_lem : IsText (drop 12 line)
  pub length_lem : if is_status then 0 < length (drop 12 line) else Unit

read_status_overrun :
    (rest : List ℕ) (status : GrpcStatus)
    → IsText rest
    → 0 < length rest
    → read_status rest status ≡ none
unfolding read_status copy_string c_string
read_status_overrun [] status t h = absurd (omega (arith, h))
read_status_overrun (c ∷ []) status (positive, t) h = ground (arith, positive)
read_status_overrun (c ∷ d ∷ rest) status t h = ground arith

-- The lines in which a status is, and the status behind lines without one.
abbrev pub has_status : List (List ℕ) → Bool
has_status [] = false
has_status (line ∷ lines) = elim (memcmp_equal status_needle line) [
  | some true ↦ true
  | some false ↦ has_status lines
  | none ↦ has_status lines
]

abbrev pub AllLines : List (List ℕ) → Type 0
AllLines [] = Unit
AllLines (line ∷ lines) = IsLine line × AllLines lines

header_callback-status :
    (line : List ℕ) (status : GrpcStatus)
    → memcmp_equal status_needle line ≡ some true
    → IsText (drop 12 line)
    → 0 < length (drop 12 line)
    → header_callback line status ≡ none
unfolding header_callback
header_callback-status line status e t h =
    ground (arith, e, read_status_overrun (drop 12 line) status t h)

header_callback-other :
    (line : List ℕ) (status : GrpcStatus) (b : Bool)
    → memcmp_equal status_needle line ≡ some false
    → memcmp_equal message_needle line ≡ some b
    → (status' : GrpcStatus) × (header_callback line status ≡ some status')
      × (status'.code ≡ status.code)
unfolding header_callback
header_callback-other line status true e f =
    (record status { message = status.message ++ line }, ground (arith, e, f), refl)
header_callback-other line status false e f = (status, ground (arith, e, f), refl)

header_callbacks-step :
    (line : List ℕ) (lines : List (List ℕ)) (status status' : GrpcStatus)
    (result : Option GrpcStatus)
    → header_callback line status ≡ some status'
    → header_callbacks lines status' ≡ result
    → header_callbacks (line ∷ lines) status ≡ result
unfolding header_callbacks
header_callbacks-step line lines status status' result p q = rw p q

header_callbacks_lem :
    (lines : List (List ℕ)) (status : GrpcStatus)
    → AllLines lines
    → ((has_status lines ≡ true) × (header_callbacks lines status ≡ none))
      ⊎ ((has_status lines ≡ false)
          × ((status' : GrpcStatus) × (header_callbacks lines status ≡ some status')
              × (status'.code ≡ status.code)))
unfolding memcmp_equal
header_callbacks_lem [] status h = inr (refl, (status, (unfold header_callbacks in refl), refl))
header_callbacks_lem (line ∷ lines) status (h, hs) = elim (Bool-cases h.is_status) [
  | inl s ↦
      let found : memcmp_equal status_needle line ≡ some true = h.status_lem ∙ ap some s in
      inl (
        rw found refl,
        (unfold header_callbacks in
            rw
              (header_callback-status line status found h.text_lem (
                subst (λ (b : Bool). if b then 0 < length (drop 12 line) else Unit) s h.length_lem))
              refl),
      )
  | inr s ↦
      let other : memcmp_equal status_needle line ≡ some false = h.status_lem ∙ ap some s in
      let (status', run, code) =
        header_callback-other line status h.is_message other h.message_lem in
      elim (header_callbacks_lem lines status' hs) [
        | inl (has, none_lem) ↦
            inl (rw other has, header_callbacks-step line lines status status' none run none_lem)
        | inr (has, rest) ↦ inr (
          rw other has,
          (
            rest.0,
            header_callbacks-step line lines status status' (some rest.0) run rest.1,
            rest.2 ∙ code,
          ),
        )
      ]
]

-- For header lines in which memcmp stays, of texts without a terminator, a status with something
-- behind its name: `post` of the OS writes or reads behind an array as soon as one line has a
-- grpc-status. Otherwise its code is ERROR_HTTP when the transfer fails, and when it succeeds, or curl
-- does not initialise, it is SUCCESS or ERROR_GRPC by what was on the stack in the place of the code.
pub os_post_lem :
    (curl : Curl) (memory : GrpcStatus) (request body response : List ℕ)
    → AllLines (curl.header_lines request body)
    → os_post curl memory request body response ≡ (
        if curl.easy_init
        then if has_status (curl.header_lines request body)
          then none
          else some (
            if curl.perform_ok request body then status_result memory.code else error_http,
            response ++ curl.received request body,
          )
        else some (status_result memory.code, response))
unfolding os_post
os_post_lem curl memory request body response h = elim (Bool-cases curl.easy_init) [
  | inr e ↦ rw e refl
  | inl e ↦
      elim (header_callbacks_lem (curl.header_lines request body) (record memory { message = [] })
        h) [
          | inl (has, run) ↦ rw e (rw has (rw run refl))
          | inr (has, rest) ↦ rw e (rw has (rw rest.1 (rw rest.2 refl)))
        ]
]
