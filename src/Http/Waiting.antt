-- ===== src/Http/Waiting.antt =====
-- How long waitForResponse of the nano33 waits, and what the loop behind it reads.
use iotex_arduino.Base.{ℕ, zero, suc, ◌+◌, ◌<◌, ◌≤◌, ◌≡◌, refl, arith, List, [], ◌∷◌, ◌++◌}
use iotex_arduino.Base.{true, false, some, length, ◌==◌, Bool-cases, inl, inr, ◌⊎◌}
use iotex_arduino.Base.{append-nil, append_assoc}
use iotex_arduino.Http.Nano33.{WifiClient, timeout, wait_loop, wait_for_response, read_loop}

module _ (client : WifiClient) where
  -- The state after some milliseconds.
  abbrev pub after : ℕ → client.State → client.State
  after zero s = s
  after (suc n) s = after n (client.delay s)

  -- Nothing waits in a state and in those of some milliseconds after it.
  pub data IsSilent : ℕ → client.State → Type 0 where
    now : {s : client.State} → IsSilent 0 s
    later :
        {n : ℕ} {s : client.State}
        → client.available s ≡ 0
        → IsSilent n (client.delay s)
        → IsSilent (suc n) s

  -- A text waits, and behind it nothing; the last state is the one after the reads.
  pub data Holds : client.State → List ℕ → client.State → Type 0 where
    read_all : {s : client.State} → client.available s ≡ 0 → Holds s [] s
    waiting :
        {s s' t : client.State} {c : ℕ} {text : List ℕ}
        → 0 < client.available s
        → client.read s ≡ (s', c)
        → Holds s' text t
        → Holds s (c ∷ text) t

  IsSilent-cases :
      (k : ℕ) (s : client.State)
      → ((n : ℕ) × (n < k) × IsSilent n s × (0 < client.available (after n s))) ⊎ IsSilent k s
  IsSilent-cases zero s = inr now
  IsSilent-cases (suc k) s = elim (Bool-cases (client.available s == 0)) [
    | inr some_lem ↦ inl (0, omega arith, now, ground (arith, some_lem))
    | inl none_lem ↦ elim (IsSilent-cases k (client.delay s)) [
      | inl (n, low, silent, some_lem) ↦
          inl (suc n, omega (arith, low), later (ground (arith, none_lem)) silent, some_lem)
      | inr silent ↦ inr (later (ground (arith, none_lem)) silent)
    ]
  ]

  wait_loop-arrives :
      (n k e : ℕ) (s : client.State)
      → e + suc k ≡ timeout
      → n ≤ k
      → IsSilent n s
      → 0 < client.available (after n s)
      → wait_loop client (suc k) e s ≡ some (true, after n s)
  unfolding wait_loop
  wait_loop-arrives zero k e s h l now a = ground (arith, a)
  wait_loop-arrives (suc n) zero e s h l (later z silent) a = absurd (omega (arith, l))
  wait_loop-arrives (suc n) (suc k) e s h l (later z silent) a = ground (
    arith,
    z,
    wait_loop-arrives n k (e + 1) (client.delay s) (omega (arith, h)) (omega (arith, l)) silent a,
  )

  wait_loop-silent :
      (k e : ℕ) (s : client.State)
      → e + suc k ≡ timeout
      → IsSilent (suc k) s
      → wait_loop client (suc k) e s ≡ some (false, after (suc k) s)
  unfolding wait_loop
  wait_loop-silent zero e s h (later z silent) = ground (arith, z)
  wait_loop-silent (suc k) e s h (later z silent) =
      ground (arith, z, wait_loop-silent k (e + 1) (client.delay s) (omega (arith, h)) silent)

  pub wait_for_response-arrives :
      (n : ℕ) (s : client.State)
      → n < timeout
      → IsSilent n s
      → 0 < client.available (after n s)
      → wait_for_response client s ≡ some (true, after n s)
  unfolding wait_for_response
  wait_for_response-arrives n s l silent a =
      wait_loop-arrives n 9999 0 s refl (omega (arith, l)) silent a

  pub wait_for_response-silent :
      (s : client.State)
      → IsSilent timeout s
      → wait_for_response client s ≡ some (false, after timeout s)
  unfolding wait_for_response
  wait_for_response-silent s silent = wait_loop-silent 9999 0 s refl silent

  -- waitForResponse returns within 10000 rounds: with true in the first millisecond below 10000 in
  -- which characters wait, and with false after 10000 milliseconds when nothing waited in the
  -- milliseconds before.
  pub wait_for_response_lem :
      (s : client.State)
      → ((n : ℕ) × (n < 10000)
          × IsSilent n s
          × (0 < client.available (after n s))
          × (wait_for_response client s ≡ some (true, after n s)))
        ⊎ (IsSilent 10000 s × (wait_for_response client s ≡ some (false, after 10000 s)))
  wait_for_response_lem s = elim (IsSilent-cases 10000 s) [
    | inl (n, low, silent, a) ↦ inl (n, low, silent, a, wait_for_response-arrives n s low silent a)
    | inr silent ↦ inr (silent, wait_for_response-silent s silent)
  ]

  pub read_loop-Holds :
      (fuel : ℕ) (response text : List ℕ) (s t : client.State)
      → Holds s text t
      → length text < fuel
      → read_loop client fuel response s ≡ some (response ++ text, t)
  unfolding read_loop
  read_loop-Holds zero response text s t h l = absurd (omega (arith, l))
  read_loop-Holds (suc fuel) response [] s t (read_all z) l = ground (arith, z, append-nil response)
  read_loop-Holds (suc fuel) response (c ∷ text) s t (waiting {s' = s'} a r h) l = ground (
    arith,
    a,
    r,
    read_loop-Holds fuel (response ++ (c ∷ [])) text s' t h (omega (arith, l)),
    append_assoc response (c ∷ []) text,
  )
