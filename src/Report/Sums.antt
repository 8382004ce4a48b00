-- ===== src/Report/Sums.antt =====
-- Histograms that pass the check of `ensureHistogramCompatibility`, and their sum.
use guidance_for_building_a.Common.{
  ℕ, zero, suc, ◌+◌, ◌<◌, ◌≡◌, refl, ap, sym, ◌∙◌, List, [], ◌∷◌, true, Option, none, some, ◌==◌,
  ◌>>=◌, ==_iff, All, length, length-replicate, replicate, sum, Bool-cases, inl, inr, arith,
}
use guidance_for_building_a.Common.Int64.{u64_mod, add64}
use guidance_for_building_a.LoadGenerator.Histogram.{Histogram}
use guidance_for_building_a.Report.{
  Metrics, each_equal, compatible_with, ensure_histogram_compatibility, add_counts, add_total,
  add_histograms, aggregate_histograms,
}

-- An input with a histogram that has a count for each bucket.
pub record IsCounted (m : Metrics) : Type 0 where
  pub histogram : Histogram
  pub present : m.histogram ≡ some histogram
  pub sized : length histogram.counts ≡ length histogram.buckets

pub record HasBuckets (buckets : List ℕ) (m : Metrics) : Type 0 where
  pub counted : IsCounted m
  pub same : counted.histogram.buckets ≡ buckets

abbrev pub counts_in : Option Histogram → List ℕ
counts_in none = []
counts_in (some h) = h.counts

abbrev pub counts_of : Metrics → List ℕ
counts_of m = counts_in m.histogram

-- The count of bucket `i`, 0 if there is none.
abbrev pub at : ℕ → List ℕ → ℕ
at i [] = 0
at zero (n ∷ ns) = n
at (suc i) (n ∷ ns) = at i ns

-- The counts of bucket `i` in all inputs.
abbrev pub column : ℕ → List Metrics → ℕ
column i [] = 0
column i (m ∷ ms) = at i (counts_of m) + column i ms

abbrev pub all_counts : List Metrics → ℕ
all_counts [] = 0
all_counts (m ∷ ms) = sum (counts_of m) + all_counts ms

-- What the aggregated histogram is to be.
pub record IsSum (bs : List ℕ) (inputs : List Metrics) (h : Histogram) : Type 0 where
  pub buckets : h.buckets ≡ bs
  pub sized : length h.counts ≡ length bs
  pub counts : (i : ℕ) → at i h.counts ≡ column i inputs
  pub total : h.total ≡ all_counts inputs
  pub tallied : h.total ≡ sum h.counts

each_equal-true : (bs cs : List ℕ) → length bs ≡ length cs → each_equal bs cs ≡ true → bs ≡ cs
unfolding each_equal
each_equal-true [] [] len e = refl
each_equal-true [] (c ∷ cs) len e = absurd (omega arith)
each_equal-true (b ∷ bs) [] len e = absurd (omega arith)
each_equal-true (b ∷ bs) (c ∷ cs) len e = elim (Bool-cases (b == c)) [
  | inl same ↦
      let rest = each_equal-true bs cs (omega arith) (rw (each_equal, same) at e) in
      cc ((==_iff b c).0 same, rest)
  | inr other ↦ let wrong = rw (each_equal, other) at e in cc wrong
]

compatible-HasBuckets :
    (f : Histogram) (ms : List Metrics)
    → All IsCounted ms
    → compatible_with (some f) ms ≡ some true
    → All (HasBuckets f.buckets) ms
unfolding compatible_with
compatible-HasBuckets f [] c e = tt
compatible-HasBuckets f (m ∷ ms) (c, cs) e =
    let step = rw (compatible_with, c.present) at e in
    elim (Bool-cases (length f.buckets == length c.histogram.buckets)) [
      | inr longer ↦ let wrong = rw longer at step in cc wrong
      | inl len ↦ elim (Bool-cases (each_equal f.buckets c.histogram.buckets)) [
        | inr other ↦ let wrong = rw (len, other) at step in cc wrong
        | inl same ↦ (
          record {
            counted = c;
            same = sym (each_equal-true f.buckets c.histogram.buckets ((==_iff _ _).0 len) same);
          },
          compatible-HasBuckets f ms cs (rw (len, same) at step),
        )
      ]
    ]

at_sum :
    (c v n : ℕ) (cs vs ns : List ℕ)
    → n ≡ c + v
    → ((i : ℕ) → at i ns ≡ at i cs + at i vs)
    → (i : ℕ) → at i (n ∷ ns) ≡ at i (c ∷ cs) + at i (v ∷ vs)
at_sum c v n cs vs ns e h zero = e
at_sum c v n cs vs ns e h (suc i) = h i

add_counts_lem :
    (cs vs : List ℕ)
    → length vs ≡ length cs
    → sum cs + sum vs < u64_mod
    → (ns : List ℕ) × (add_counts cs vs ≡ some ns)
      × (length ns ≡ length cs)
      × ((i : ℕ) → at i ns ≡ at i cs + at i vs)
      × (sum ns ≡ sum cs + sum vs)
unfolding add_counts add64
add_counts_lem [] [] len small = ([], refl, refl, λ i. omega arith, refl)
add_counts_lem [] (v ∷ vs) len small = absurd (omega arith)
add_counts_lem (c ∷ cs) [] len small = absurd (omega arith)
add_counts_lem (c ∷ cs) (v ∷ vs) len small =
    let (ns, e, l, each, all) = add_counts_lem cs vs (omega arith) (omega arith) in
    (
      add64 c v ∷ ns,
      rw e refl,
      ap suc l,
      at_sum c v (add64 c v) cs vs ns (omega arith) each,
      omega (arith, all),
    )

add_total_lem :
    (total : ℕ) (vs : List ℕ) → total + sum vs < u64_mod → add_total total vs ≡ total + sum vs
unfolding add_total add64
add_total_lem total [] small = omega arith
add_total_lem total (v ∷ vs) small = omega (arith, add_total_lem (add64 total v) vs (omega arith))

add_histograms_step :
    (h : Histogram) (m : Metrics) (ms : List Metrics) {input : Histogram} {ns : List ℕ}
    → m.histogram ≡ some input
    → add_counts h.counts input.counts ≡ some ns
    → add_histograms h (m ∷ ms)
      ≡ add_histograms (record h { counts = ns; total = add_total h.total input.counts }) ms
unfolding add_histograms
add_histograms_step h m ms {input} present e =
    ap
      (λ o. o >>= (λ (i : Histogram). add_counts h.counts i.counts >>= (λ counts.
        add_histograms (record h { counts = counts; total = add_total h.total i.counts }) ms)))
      present
    ∙ ap
        (λ o. o >>= (λ counts.
          add_histograms (record h { counts = counts; total = add_total h.total input.counts }) ms))
        e

add_histograms_lem :
    (h : Histogram) (ms : List Metrics)
    → All (HasBuckets h.buckets) ms
    → length h.counts ≡ length h.buckets
    → h.total ≡ sum h.counts
    → h.total + all_counts ms < u64_mod
    → (h' : Histogram) × (add_histograms h ms ≡ some h')
      × (h'.buckets ≡ h.buckets)
      × (length h'.counts ≡ length h.buckets)
      × ((i : ℕ) → at i h'.counts ≡ at i h.counts + column i ms)
      × (h'.total ≡ h.total + all_counts ms)
      × (h'.total ≡ sum h'.counts)
unfolding add_histograms
add_histograms_lem h [] b sized tallied small =
    (h, refl, refl, sized, λ i. omega arith, omega arith, tallied)
add_histograms_lem h (m ∷ ms) (b, bs) sized tallied small =
    let input = b.counted.histogram in
    let is_counts : counts_of m ≡ input.counts = ap counts_in b.counted.present in
    let known : sum (counts_of m) ≡ sum input.counts = ap sum is_counts in
    let (ns, e, l, each, all) =
      add_counts_lem h.counts input.counts (b.counted.sized ∙ ap length b.same ∙ sym sized)
        (omega (arith, known, tallied, small)) in
    let total = add_total_lem h.total input.counts (omega (arith, known, small)) in
    let h1 : Histogram = record h { counts = ns; total = add_total h.total input.counts } in
    let (h', e', same, sized', counts', total', tallied') =
      add_histograms_lem h1 ms bs (l ∙ sized) (omega (arith, total, all, tallied))
        (omega (arith, total, known, small)) in
    (
      h',
      add_histograms_step h m ms b.counted.present e ∙ e',
      same,
      sized',
      λ i.
          let own : at i (counts_of m) ≡ at i input.counts = ap (at i) is_counts in
          omega (arith, counts' i, each i, own),
      omega (arith, total', total, known),
      tallied',
    )

zero_counts : (n : ℕ) → (0 ≡ sum (replicate n 0)) × ((i : ℕ) → at i (replicate n 0) ≡ 0)
zero_counts zero = (refl, λ i. refl)
zero_counts (suc n) = let (s, z) = zero_counts n in (omega (arith, s), zeros n z)
  where
    zeros : (k : ℕ) → ((i : ℕ) → at i (replicate k 0) ≡ 0) → (i : ℕ) → at i (0 ∷ replicate k 0) ≡ 0
    zeros k z zero = refl
    zeros k z (suc i) = z i

-- The sum of the histograms of inputs that pass the check.
pub aggregate_histograms-IsSum :
    (first : Metrics) (rest : List Metrics)
    → (c : IsCounted first) → All IsCounted rest
    → ensure_histogram_compatibility (first ∷ rest) ≡ some true
    → all_counts (first ∷ rest) < u64_mod
    → (h : Histogram) × (aggregate_histograms (first ∷ rest) ≡ some h)
      × IsSum c.histogram.buckets (first ∷ rest) h
unfolding aggregate_histograms ensure_histogram_compatibility
aggregate_histograms-IsSum first rest c cs fit small =
    let bs = c.histogram.buckets in
    let same : All (HasBuckets bs) rest =
      compatible-HasBuckets c.histogram rest cs
        (rw (ensure_histogram_compatibility, c.present) at fit) in
    let empty : Histogram = record { buckets = bs; counts = replicate (length bs) 0; total = 0 } in
    let (none_counted, zeros) = zero_counts (length bs) in
    let (h, e, b, sized, counts, total, tallied) =
      add_histograms_lem empty (first ∷ rest) (record { counted = c; same = refl }, same)
        (length-replicate (length bs) 0) none_counted (omega (arith, small)) in
    (
      h,
      ap
            (λ o. o >>= (λ (f : Histogram).
              add_histograms
                (record { buckets = f.buckets; counts = replicate (length f.buckets) 0; total = 0 })
                (first ∷ rest)))
            c.present
          ∙ e,
      record {
        buckets = b;
        sized = sized;
        counts = λ i. omega (arith, counts i, zeros i);
        total = omega (arith, total);
        tallied = tallied;
      },
    )
