-- ===== src/Http/Buffers.antt =====
-- What the methods of the ESP boards leave in a buffer.
use iotex_arduino.Base.{ℕ, ◌-◌, ◌<◌, ◌≡◌, refl, arith, List, [], ◌∷◌, ◌++◌, true}
use iotex_arduino.Base.{none, some, length, replicate, ltb, if◌then◌else◌, Bool-cases, inl, inr}
use iotex_arduino.Base.{
  codes, c_string, c_string-in_array, in_array, IsText, length-replicate, append-nil,
}
use iotex_arduino.Json.{copy_string, copy_string_cleared}
use iotex_arduino.Http.{HttpClient, into_buffer, esp_post_buffer}

c_string-open : (s : List ℕ) → IsText s → c_string s ≡ none
unfolding c_string
c_string-open [] h = refl
c_string-open (c ∷ s) (h, hs) = ground (arith, h, c_string-open s hs)

copy_string-long :
    (n : ℕ) (text : List ℕ) → n < length text → copy_string (replicate n 0) text ≡ none
unfolding copy_string
copy_string-long n text h = ground (arith, h, length-replicate {A = ℕ} n 0)

into_buffer-cleared :
    (n : ℕ) (text : List ℕ)
    → IsText text
    → into_buffer text (replicate n 0)
      ≡ (if ltb (length text) n then some (length text, in_array n text) else none)
unfolding into_buffer
into_buffer-cleared n text h = elim (Bool-cases (ltb (length text) n)) [
  | inl short ↦
      let low : length text < n = ground (arith, short) in
      rw short (
        rw (copy_string_cleared n text (omega (arith, low)))
          (rw (c_string-in_array text n low h) refl))
  | inr long ↦ rw long (elim (Bool-cases (ltb n (length text))) [
    | inl longer ↦ rw (copy_string-long n text (ground (arith, longer))) refl
    | inr same ↦
        let e : n - length text ≡ 0 = ground (arith, long, same) in
        rw (copy_string_cleared n text (ground (arith, same)))
          (rw e (rw (append-nil text) (rw (c_string-open text h) refl)))
  ])
]

-- On a board that connects, for an answer without a terminator and a cleared buffer, `post` with a
-- buffer returns the length of the answer and leaves the answer with zeroes behind it in the buffer
-- when the answer is shorter than the buffer. Otherwise it writes or reads behind the buffer. The
-- size that is given to it does not matter.
pub esp_post_buffer_lem :
    (client : HttpClient) (request body : List ℕ) (n size : ℕ)
    → client.begin (codes "http://" ++ request) ≡ true
    → IsText (client.get_string (codes "http://" ++ request) body)
    → esp_post_buffer client request body (replicate n 0) size ≡ (
        let text = client.get_string (codes "http://" ++ request) body in
        if ltb (length text) n then some (length text, in_array n text) else none)
unfolding esp_post_buffer
esp_post_buffer_lem client request body n size b h =
    rw b (into_buffer-cleared n (client.get_string (codes "http://" ++ request) body) h)
