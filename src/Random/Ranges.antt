-- ===== src/Random/Ranges.antt =====
-- Which bytes the generators over the numbers of a board write.
use iotex_arduino.Base.{ℕ, zero, suc, ◌<◌, ◌≤◌, ◌≡◌, refl, arith, List, [], ◌∷◌, ◌++◌}
use iotex_arduino.Base.{some, length, drop, All, replicate, append-nil}
use iotex_arduino.Json.{copy_string}
use iotex_arduino.Contract.WordLaws.{little_endian}
use iotex_arduino.Random.{NumberSource, draw, fill_range, random32, esp8266_random}

-- What the documentation of `random` promises.
pub record IsNumberSource (source : NumberSource) : Type 0 where
  pub low_lem :
      (seed : source.Seed) (small big : ℕ) → small < big → small ≤ (source.random seed small big).1
  pub high_lem :
      (seed : source.Seed) (small big : ℕ) → small < big → (source.random seed small big).1 < big

abbrev pub InRange : ℕ → ℕ → List ℕ → Type 0
InRange small big bytes = All (λ b. (small ≤ b) × (b < big)) bytes

module _ (source : NumberSource) (laws : IsNumberSource source) where
  draw_lem :
      (small big size : ℕ) (seed : source.Seed)
      → small < big
      → big ≤ 256
      → (length (draw source small big size seed).1 ≡ size)
        × InRange small big (draw source small big size seed).1
  unfolding draw
  draw_lem small big zero seed h l = (refl, tt)
  draw_lem small big (suc size) seed h l =
      let r = source.random seed small big in
      let rest = draw_lem small big size r.0 h l in
      let low = laws.low_lem seed small big h in
      let high = laws.high_lem seed small big h in
      (omega (arith, rest.0), ((omega (arith, low, high), omega (arith, low, high)), rest.1))

  -- With numbers as `random` promises them, from a first one to below a last one of at most 256,
  -- the loop of fillRandom on the ESP8266 and on the nano33 writes bytes of that range in the places
  -- that it is asked for, and leaves the rest of the buffer as it was.
  pub fill_range_lem :
      (small big size : ℕ) (seed : source.Seed) (buffer : List ℕ)
      → small < big
      → big ≤ 256
      → size ≤ length buffer
      → (seed' : source.Seed) × (bytes : List ℕ) × (fill_range source small big seed buffer size
          ≡ some (seed', bytes ++ drop size buffer))
        × (length bytes ≡ size)
        × InRange small big bytes
  unfolding fill_range copy_string
  fill_range_lem small big size seed buffer h l fits =
      let drawn = draw source small big size seed in
      let d = draw_lem small big size seed h l in
      (drawn.0, drawn.1, ground (arith, d.0, fits), d.0, d.1)

  four_bytes :
      (bytes : List ℕ)
      → length bytes ≡ 4
      → InRange 1 255 bytes
      → (0x01010101 ≤ little_endian bytes) × (little_endian bytes ≤ 0xfefefefe)
  four_bytes (a ∷ b ∷ c ∷ d ∷ []) e h = (omega (arith, h), omega (arith, h))
  four_bytes [] e h = absurd (omega (arith, e))
  four_bytes (a ∷ []) e h = absurd (omega (arith, e))
  four_bytes (a ∷ b ∷ []) e h = absurd (omega (arith, e))
  four_bytes (a ∷ b ∷ c ∷ []) e h = absurd (omega (arith, e))
  four_bytes (a ∷ b ∷ c ∷ d ∷ f ∷ bytes) e h = absurd (omega (arith, e))

  -- With numbers as `random` promises them, random32 on the ESP8266 returns a number, which lies
  -- between 0x01010101 and 0xfefefefe, and has no byte 0 and no byte 255.
  pub random32_lem :
      (seed : source.Seed)
      → (seed' : source.Seed) × (bytes : List ℕ) × (random32 (esp8266_random source) seed
          ≡ some (seed', little_endian bytes))
        × InRange 1 255 bytes
        × (0x01010101 ≤ little_endian bytes)
        × (little_endian bytes ≤ 0xfefefefe)
  unfolding random32
  random32_lem seed =
      let (seed', bytes, run, size, range) =
        fill_range_lem 1 255 4 seed (replicate 4 0) (omega arith) (omega arith) (omega arith) in
      let bounds = four_bytes bytes size range in
      let kept : bytes ++ [] ≡ bytes = append-nil bytes in
      (seed', bytes, (rw run (rw kept refl)), range, bounds.0, bounds.1)
