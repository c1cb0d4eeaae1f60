-- ===== src/Random.antt =====
-- src/random: fillRandom of the platforms over what fills or makes random bytes there, and random32.
-- A `none` stands for a write behind a buffer.
pub mod Ranges
mod Runs
use iotex_arduino.Base.{ℕ, zero, suc, ◌+◌, ◌*◌, ◌%◌, List, [], ◌∷◌, Option, none, some, ◌>>=◌}
use iotex_arduino.Base.{replicate}
use iotex_arduino.Json.{copy_string}
use iotex_arduino.Contract.WordLaws.{little_endian}

-- The class Random: the buffer after fillRandom for `size` bytes at its start.
pub record RandomGenerator : Type 1 where
  pub State : Type 0
  pub fill_random : State → List ℕ → ℕ → Option (State × List ℕ)

-- `random(small, big)` of the library of a board, and `random(big)` for a `small` of 0.
pub record NumberSource : Type 1 where
  pub Seed : Type 0
  pub random : Seed → ℕ → ℕ → Seed × ℕ

-- What esp_fill_random of the ESP32, or a `read` of the file /dev/random, puts into a buffer of a
-- size. The file may not open, and a read may be short.
pub record ByteSource : Type 1 where
  pub Seed : Type 0
  pub fill : Seed → ℕ → Seed × List ℕ

module _ (source : NumberSource) where
  -- The numbers of the loop, converted to `uint8_t`.
  unfoldable pub draw : ℕ → ℕ → ℕ → source.Seed → source.Seed × List ℕ
  draw small big zero seed = (seed, [])
  draw small big (suc size) seed =
      let r = source.random seed small big in
      let rest = draw small big size r.0 in (rest.0, r.1 % 256 ∷ rest.1)

  unfoldable pub fill_range : ℕ → ℕ → source.Seed → List ℕ → ℕ → Option (source.Seed × List ℕ)
  fill_range small big seed buffer size =
      let drawn = draw small big size seed in
      do filled ← copy_string buffer drawn.1; some (drawn.0, filled)

  abbrev pub esp8266_random : RandomGenerator
  esp8266_random = record { State = source.Seed; fill_random = fill_range 1 255 }

  abbrev pub nano33_random : RandomGenerator
  nano33_random = record { State = source.Seed; fill_random = fill_range 0 255 }

module _ (source : ByteSource) where
  unfoldable pub fill_bytes : source.Seed → List ℕ → ℕ → Option (source.Seed × List ℕ)
  fill_bytes seed buffer size =
      let r = source.fill seed size in do filled ← copy_string buffer r.1; some (r.0, filled)

  abbrev pub esp32_random : RandomGenerator
  esp32_random = record { State = source.Seed; fill_random = fill_bytes }

  -- The results of `open` and `read` are dropped.
  abbrev pub os_random : RandomGenerator
  os_random = record { State = source.Seed; fill_random = fill_bytes }

-- The memory of the boards has the low byte first.
unfoldable pub random32 : (g : RandomGenerator) → g.State → Option (g.State × ℕ)
random32 g s = do
  filled ← g.fill_random s (replicate 4 0) 4
  some (filled.0, little_endian filled.1)
