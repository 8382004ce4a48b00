-- ===== src/Random.antt =====
-- The pseudo-random generator of Go's math/rand, as the bidder uses it.
pub mod Counter
use guidance_for_building_a.Common.{ℕ, ◌<◌, Bool}

pub record Random : Type 1 where
  pub Rng : Type 0
  -- `rand.New(rand.NewSource(time.Now().Unix()))`
  pub new_rng : Rng
  -- `Intn`
  pub intn : Rng → ℕ → ℕ × Rng
  -- `Float64() < fraction`, for the configured fraction
  pub float64_below : Rng → Bool × Rng

-- `Intn(n)` is documented to lie in [0, n), for n > 0.
pub record IsBounded (r : Random) : Type 0 where
  pub intn_lt : (g : r.Rng) (n : ℕ) → 0 < n → (r.intn g n).0 < n
