-- ===== src/Signer/Message.antt =====
-- The hash of a signed message: the digits that it feeds are the decimal length.
use native.Mathlib.Nat.{pow-suc, pow-succ', div-div-eq-div-mul, one-le-pow}
use iotex_arduino.Base.{ℕ, zero, suc, ◌+◌, ◌/◌, ◌%◌, ◌^◌, ◌<◌, ◌≡◌, refl, sym, ap, ◌∙◌}
use iotex_arduino.Base.{arith, List, [], ◌∷◌, ◌++◌, append_assoc, append-nil, length, leb}
use iotex_arduino.Base.{if◌then◌else◌, Bool-cases, inl, inr}
use iotex_arduino.Base.{decimal_digits, decimal, lt-ten-pow, decimal_digits_fuel}
use iotex_arduino.Signer.{Crypto, IsStreaming, update_digits, get_ethereum_message_hash}
use iotex_arduino.Signer.{message_prefix}

-- The digits above the last, as the source tests for them.
high_digits : ℕ → ℕ → List ℕ
high_digits zero n = []
high_digits (suc k) n =
    (if leb (10 ^ suc k) n then (b'0' + n / 10 ^ suc k % 10) ∷ [] else []) ++ high_digits k n

tenth : (k n : ℕ) → n / 10 ^ suc k ≡ n / 10 / 10 ^ k
tenth k n = rw (pow-succ' 10 k) (sym (div-div-eq-div-mul n 10 (10 ^ k)))

leb-tenth : (k n : ℕ) → leb (10 ^ suc k) n ≡ leb (10 ^ k) (n / 10)
leb-tenth k n = ground (arith, pow-suc 10 k)

high_digits-suc :
    (k n : ℕ)
    → high_digits (suc (suc k)) n
      ≡ (if leb (10 ^ suc k) (n / 10) then (b'0' + n / 10 / 10 ^ suc k % 10) ∷ [] else [])
        ++ high_digits (suc k) n
high_digits-suc k n = rw (← leb-tenth (suc k) n, ← tenth (suc k) n) (unfold high_digits in refl)

high_digits-step :
    (k n : ℕ)
    → high_digits (suc k) n
      ≡ (if leb (10 ^ suc k) n then (b'0' + n / 10 ^ suc k % 10) ∷ [] else []) ++ high_digits k n
unfolding high_digits
high_digits-step k n = refl

high_digits-tenth :
    (k n : ℕ)
    → high_digits (suc k) n
      ≡ (if leb 10 n then high_digits k (n / 10) ++ ((b'0' + n / 10 % 10) ∷ []) else [])
high_digits-tenth zero n = unfold high_digits in ground arith
high_digits-tenth (suc k) n = ground (
  arith,
  high_digits-suc k n,
  high_digits-tenth k n,
  one-le-pow (suc k) 10,
  high_digits-step k (n / 10),
)

high_digits-last : (k n : ℕ) → high_digits k n ++ ((b'0' + n % 10) ∷ []) ≡ decimal_digits k n
unfolding decimal_digits
high_digits-last zero n = unfold high_digits in refl
high_digits-last (suc k) n = elim (Bool-cases (leb 10 n)) [
  | inl e ↦ ground (arith, high_digits-tenth k n, high_digits-last k (n / 10))
  | inr e ↦ ground (arith, high_digits-tenth k n)
]

module _ (crypto : Crypto) (streaming : IsStreaming crypto) where
  update_digits-lem :
      (k n : ℕ) (c : crypto.Context) (xs : List ℕ)
      → update_digits crypto k n (crypto.update c xs) ≡ crypto.update c (xs ++ high_digits k n)
  unfolding update_digits high_digits
  update_digits-lem zero n c xs = rw append-nil
  update_digits-lem (suc k) n c xs = elim (Bool-cases (leb (10 ^ suc k) n)) [
    | inl e ↦ rw e (
        ap (update_digits crypto k n) (streaming.update-update c xs _)
        ∙ update_digits-lem k n c _
        ∙ ap (crypto.update c) (append_assoc xs _ (high_digits k n)))
    | inr e ↦ rw e (update_digits-lem k n c xs)
  ]

  -- Below ten thousand million bytes, the hash of a message is keccak256 of the prefix, the
  -- decimal length and the message.
  pub message_hash_lem :
      (msg : List ℕ)
      → length msg < 10 ^ 10
      → get_ethereum_message_hash crypto msg
        ≡ crypto.keccak_256 (message_prefix ++ (decimal (length msg) ++ msg))
  unfolding get_ethereum_message_hash decimal
  message_hash_lem msg h =
      ap crypto.keccak_final (
        ap (λ t. crypto.update (crypto.update t last) msg)
          (update_digits-lem 9 n crypto.init message_prefix)
        ∙ ap (λ t. crypto.update t msg)
            (streaming.update-update crypto.init (message_prefix ++ high_digits 9 n) last)
        ∙ streaming.update-update crypto.init ((message_prefix ++ high_digits 9 n) ++ last) msg
        ∙ ap (crypto.update crypto.init) parts)
      ∙ sym (streaming.one_shot _)
    where
      n : ℕ
      n = length msg

      last : List ℕ
      last = (b'0' + n % 10) ∷ []

      printed : high_digits 9 n ++ last ≡ decimal_digits n n
      printed = high_digits-last 9 n ∙ decimal_digits_fuel 9 n n h (lt-ten-pow n)

      parts :
          ((message_prefix ++ high_digits 9 n) ++ last) ++ msg
          ≡ message_prefix ++ (decimal_digits n n ++ msg)
      parts = cc (
        append_assoc message_prefix (high_digits 9 n) last,
        append_assoc message_prefix (high_digits 9 n ++ last) msg,
        printed,
      )
