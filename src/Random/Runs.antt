-- ===== src/Random/Runs.antt =====
-- The generators of a board with a counter for its numbers.
use iotex_arduino.Base.{ℕ, ◌+◌, ◌-◌, ◌≤◌, ◌≡◌, arith, List, some}
use iotex_arduino.Base.{if◌then◌else◌, ltb}
use iotex_arduino.Contract.WordLaws.{little_endian}
use iotex_arduino.Random.{NumberSource, random32, esp8266_random}
use iotex_arduino.Random.Ranges.{IsNumberSource, InRange, random32_lem}

-- Numbers that follow each other from the seed, and the last one for a seed that is too large.
abbrev counter : NumberSource
counter = record {
  Seed = ℕ;
  random = λ seed small big. (seed + 1, if ltb (small + seed) big then small + seed else big - 1);
}

counter-IsNumberSource : IsNumberSource counter
counter-IsNumberSource = record {
  low_lem = λ seed small big h. ground (arith, h);
  high_lem = λ seed small big h. ground (arith, h);
}

random32_lem_example :
    (seed' : ℕ) × (bytes : List ℕ) × (random32 (esp8266_random counter) 7
      ≡ some (seed', little_endian bytes))
    × InRange 1 255 bytes
    × (0x01010101 ≤ little_endian bytes)
    × (little_endian bytes ≤ 0xfefefefe)
random32_lem_example = random32_lem counter counter-IsNumberSource 7
