-- ===== src/LoadGenerator/Histogram/Totals.antt =====
-- The counts of a histogram and its total.
use guidance_for_building_a.Common.{
  ℕ, zero, suc, ◌+◌, ◌%◌, ◌<◌, ◌≡◌, refl, ap, sym, ◌∙◌, List, [], ◌∷◌, true, some, ◌==◌, ==_self,
  ==_iff, length, get_elem?, get_elem?-some, length-set, length-replicate, set, sum, Bool-cases,
  inl, inr, arith,
}
use guidance_for_building_a.Common.Int64.{add64, u64_mod}
use guidance_for_building_a.LoadGenerator.Histogram.{
  Histogram, sized_counts, bucket_of, count_at, add, merge_counts, merge,
}

-- A count for each bucket, and the total of the counts as a word.
pub record IsTallied (h : Histogram) : Type 0 where
  pub sized : length h.counts ≡ length h.buckets
  pub tallied : sum h.counts % u64_mod ≡ h.total

sized_counts_lem : (h : Histogram) → IsTallied h → sized_counts h ≡ h.counts
unfolding sized_counts
sized_counts_lem h t =
    let e : (length h.counts == length h.buckets) ≡ true =
      (==_iff (length h.counts) (length h.buckets)).1 t.sized in
    rw e refl

bucket_of-lt :
    (buckets : List ℕ) (latency : ℕ)
    → 0 < length buckets
    → bucket_of buckets latency < length buckets
unfolding bucket_of
bucket_of-lt [] latency h = elim h [ ]
bucket_of-lt (b ∷ []) latency h = omega arith
bucket_of-lt (b ∷ c ∷ bs) latency h = ground (arith, bucket_of-lt (c ∷ bs) latency (omega arith))

length-sized_counts : (h : Histogram) → length (sized_counts h) ≡ length h.buckets
unfolding sized_counts
length-sized_counts h = elim (Bool-cases (length h.counts == length h.buckets)) [
  | inl e ↦ rw e ((==_iff (length h.counts) (length h.buckets)).0 e)
  | inr e ↦ rw e (length-replicate (length h.buckets) 0)
]

-- With a bucket at least, `Add` does not panic, and it keeps the buckets.
pub add_buckets :
    (h : Histogram) (latency : ℕ)
    → 0 < length h.buckets
    → (h' : Histogram) × (add h latency ≡ some h') × (h'.buckets ≡ h.buckets)
unfolding add count_at
add_buckets h latency some_bucket =
    let i = bucket_of h.buckets latency in
    let (n, found) =
      get_elem?-some (sized_counts h) i
        (omega (arith, length-sized_counts h, bucket_of-lt h.buckets latency some_bucket)) in
    (
      record h { counts = set (sized_counts h) i (add64 n 1); total = add64 h.total 1 },
      rw found refl,
      refl,
    )

sum-set :
    (ns : List ℕ) (i v : ℕ) {n : ℕ} → get_elem? ns i ≡ some n → sum (set ns i v) + n ≡ sum ns + v
sum-set [] i v e = cc e
sum-set (n ∷ ns) zero v {n = m} e = let same : n ≡ m = cc e in omega arith
sum-set (n ∷ ns) (suc i) v e = omega (arith, sum-set ns i v e)

-- With a bucket at least, `Add` does not panic and counts one more.
pub add-IsTallied :
    (h : Histogram) (latency : ℕ)
    → IsTallied h
    → 0 < length h.buckets
    → (h' : Histogram) × (add h latency ≡ some h') × IsTallied h' × (h'.total ≡ add64 h.total 1)
unfolding add count_at add64
add-IsTallied h latency t some_bucket =
    let i = bucket_of h.buckets latency in
    let (n, found) =
      get_elem?-some h.counts i
        (omega (arith, t.sized, bucket_of-lt h.buckets latency some_bucket)) in
    (
      record h { counts = set h.counts i (add64 n 1); total = add64 h.total 1 },
      rw (sized_counts_lem h t, found) refl,
      record {
        sized = length-set h.counts i (add64 n 1) ∙ t.sized;
        tallied = omega (arith, sum-set h.counts i (add64 n 1) found, t.tallied);
      },
      refl,
    )

merge_counts_self :
    (bs ns ms : List ℕ)
    → length ns ≡ length bs
    → length ms ≡ length bs
    → ((merge_counts bs bs ns ms).1 ≡ true)
      × (sum (merge_counts bs bs ns ms).0 % u64_mod ≡ (sum ns + sum ms) % u64_mod)
      × (length (merge_counts bs bs ns ms).0 ≡ length bs)
unfolding merge_counts add64
merge_counts_self [] [] [] hn hm = (refl, refl, refl)
merge_counts_self [] [] (m ∷ ms) hn hm = absurd (omega arith)
merge_counts_self [] (n ∷ ns) ms hn hm = absurd (omega arith)
merge_counts_self (b ∷ bs) [] ms hn hm = absurd (omega arith)
merge_counts_self (b ∷ bs) (n ∷ ns) [] hn hm = absurd (omega arith)
merge_counts_self (b ∷ bs) (n ∷ ns) (m ∷ ms) hn hm =
    let ih = merge_counts_self bs ns ms (omega arith) (omega arith) in
    rw (==_self b) (ih.0, omega (arith, ih.1), ap suc ih.2)

-- Two histograms over the same buckets, each with the total of its counts, merge without an error and
-- modulo 2 ^ 64 the counts then sum to both totals together; but the total is that of the other one alone.
pub merge-total :
    (h other : Histogram)
    → IsTallied h
    → IsTallied other
    → h.buckets ≡ other.buckets
    → ((merge h other).1 ≡ true)
      × (sum (merge h other).0.counts % u64_mod ≡ add64 h.total other.total)
      × ((merge h other).0.total ≡ other.total)
unfolding merge add64
merge-total h other t u e =
    let lens : (length h.buckets == length other.buckets) ≡ true =
      (==_iff (length h.buckets) (length other.buckets)).1 (ap length e) in
    let all =
      merge_counts_self h.buckets h.counts other.counts t.sized (u.sized ∙ ap length (sym e)) in
    let agree : (merge_counts h.buckets h.buckets h.counts other.counts).1 ≡ true = all.0 in
    rw (lens, sized_counts_lem h t, sized_counts_lem other u, ← e)
      (rw agree (refl, omega (arith, all.1, t.tallied, u.tallied), refl))

-- Histograms over the same buckets merge, and keep them.
pub merge_buckets :
    (h other : Histogram)
    → h.buckets ≡ other.buckets
    → ((merge h other).1 ≡ true) × ((merge h other).0.buckets ≡ h.buckets)
unfolding merge
merge_buckets h other e =
    let lens : (length h.buckets == length other.buckets) ≡ true =
      (==_iff (length h.buckets) (length other.buckets)).1 (ap length e) in
    let same =
      merge_counts_self h.buckets (sized_counts h) (sized_counts other) (length-sized_counts h)
        (length-sized_counts other ∙ ap length (sym e)) in
    let agree : (merge_counts h.buckets other.buckets (sized_counts h) (sized_counts other)).1
        ≡ true =
      ap (λ b. (merge_counts h.buckets b (sized_counts h) (sized_counts other)).1) (sym e)
      ∙ same.0 in
    rw (lens, agree) (refl, refl)
