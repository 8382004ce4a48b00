-- ===== src/Random/Counter.antt =====
-- A generator that counts, which meets what math/rand documents.
use guidance_for_building_a.Common.{ℕ, ◌+◌, ◌%◌, false, arith}
use guidance_for_building_a.Random.{Random, IsBounded}

abbrev pub counter : Random
counter = record {
  Rng = ℕ;
  new_rng = 0;
  intn = λ g n. (g % n, g + 1);
  float64_below = λ g. (false, g + 1);
}

pub counter-IsBounded : IsBounded counter
counter-IsBounded = record { intn_lt = λ g n h. omega arith }
