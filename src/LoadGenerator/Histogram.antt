-- ===== src/LoadGenerator/Histogram.antt =====
-- `Histogram` of tools/load-generator/code/load_generator/histogram.go. Durations are the bit
-- patterns of an int64. `none` is a panic.
pub mod Totals
use guidance_for_building_a.Common.{
  ℕ, zero, suc, ◌+◌, ◌≡◌, refl, ap, ◌∙◌, List, [], ◌∷◌, Bool, true, false, not, ◌&&◌, Option, none,
  some, ◌==◌, ==_iff, ==_self, if◌then◌else◌, ◌>>=◌, length, get_elem?, set, replicate, sum,
  length-replicate, Bool-cases, inl, inr, arith,
}
use guidance_for_building_a.Common.Int64.{lt64, add64}

pub record Histogram : Type 0 where
  pub buckets : List ℕ
  pub counts : List ℕ
  pub total : ℕ

-- `if len(h.Counts) != len(h.Buckets) { h.Counts = make([]uint64, len(h.Buckets)) }`
unfoldable pub sized_counts : Histogram → List ℕ
sized_counts h =
    if length h.counts == length h.buckets then h.counts else replicate (length h.buckets) 0

-- The index at which the loop of `Add` stops.
unfoldable pub bucket_of : List ℕ → ℕ → ℕ
bucket_of [] latency = 0
bucket_of (b ∷ []) latency = 0
bucket_of (b ∷ c ∷ bs) latency =
    let rest = suc (bucket_of (c ∷ bs) latency) in
    if not (lt64 latency b) && lt64 latency c then 0 else rest

-- `h.Counts[i]++`
unfoldable pub count_at : List ℕ → ℕ → Option (List ℕ)
count_at counts i = do n ← get_elem? counts i; some (set counts i (add64 n 1))

-- `Add`
unfoldable pub add : Histogram → ℕ → Option Histogram
add h latency = do
  counts ← count_at (sized_counts h) (bucket_of h.buckets latency)
  some (record h { counts = counts; total = add64 h.total 1 })

-- The loop of `Merge`: the counts, and whether the buckets agree as far as the loop comes.
unfoldable pub merge_counts : List ℕ → List ℕ → List ℕ → List ℕ → List ℕ × Bool
merge_counts (b ∷ bs) (c ∷ cs) (n ∷ ns) (m ∷ ms) =
    let (rest, agree) = merge_counts bs cs ns ms in
    if b == c then (add64 n m ∷ rest, agree) else (n ∷ ns, false)
merge_counts bs cs ns ms = (ns, true)

-- `Merge`; `true` if there was no error.
unfoldable pub merge : Histogram → Histogram → Histogram × Bool
merge h other =
    let counts = sized_counts h in
    let (merged, agree) = merge_counts h.buckets other.buckets counts (sized_counts other) in
    if length h.buckets == length other.buckets
    then (if agree
        then (record h { counts = merged; total = other.total }, true)
        else (record h { counts = merged }, false))
    else (record h { counts = counts }, false)
