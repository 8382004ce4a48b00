-- ===== src/Database/Budgets/RoundTrip.antt =====
-- What is compressed is read again, by each of the readers.
use guidance_for_building_a.Common.{
  ℕ, zero, suc, ◌*◌, ◌%◌, ◌≤◌, ◌<◌, ◌≡◌, refl, ap, ◌∙◌, List, [], ◌∷◌, ◌++◌, Option, none, some,
  All, length, copy, copy-take, take-append, drop-append, length-append, append_assoc, drop, ◌==◌,
  ==_iff, true, arith, Option-cases, inl, inr,
}
use guidance_for_building_a.Common.Int64.{IsInt64}
use guidance_for_building_a.Id.{ItemId, len, zero_id}
use guidance_for_building_a.Api.{Budget, budget_byte_size, Error}
use guidance_for_building_a.Database.Bytes.{
  put_uint64, uint64, uint64-put_uint64, length-put_uint64,
}
use guidance_for_building_a.Database.Consumer.{Consumer, feed}
use guidance_for_building_a.Database.Budgets.{
  binary, each_budget, unmarshall_budgets, unmarshall_budget_attributes_v1,
  unmarshall_budget_attributes_v2, each_record, read_batch, compress_all, decompress_all, ItemBatch,
  item_batch_compress, item_batch_decompress,
}

-- An identifier of 16 bytes and an int64.
pub record IsBudget (b : Budget) : Type 0 where
  pub id_length : length b.campaign_id ≡ len
  pub word : IsInt64 b.available

length-compress_all :
    (bs : List Budget) → All IsBudget bs → length (compress_all bs) ≡ budget_byte_size * length bs
unfolding compress_all
length-compress_all [] h = refl
length-compress_all (b ∷ bs) h = omega (
  arith,
  length-append b.campaign_id (put_uint64 b.available ++ compress_all bs),
  length-append (put_uint64 b.available) (compress_all bs),
  length-put_uint64 b.available,
  h.0.id_length,
  length-compress_all bs h.1,
)

-- The first budget, and the bytes behind it.
module _ (b : Budget) (rest : List ℕ) (h : IsBudget b) where
  front : List ℕ
  front = b.campaign_id ++ (put_uint64 b.available ++ rest)

  copy-front : (dst : ItemId) → length dst ≡ len → copy dst front ≡ b.campaign_id
  unfolding front
  copy-front dst e =
      copy-take dst _
        (omega (arith, length-append b.campaign_id (put_uint64 b.available ++ rest), h.id_length))
      ∙ take-append b.campaign_id (put_uint64 b.available ++ rest) (length dst)
          (omega (arith, h.id_length))

  uint64-front : uint64 (drop len front) ≡ some b.available
  unfolding front
  uint64-front =
      rw (drop-append b.campaign_id (put_uint64 b.available ++ rest) len h.id_length)
        (uint64-put_uint64 b.available rest h.word)

  drop-front : drop budget_byte_size front ≡ rest
  unfolding front
  drop-front = rw (← append_assoc b.campaign_id (put_uint64 b.available) rest) (
      drop-append (b.campaign_id ++ put_uint64 b.available) rest budget_byte_size (
        omega (
          arith,
          length-append b.campaign_id (put_uint64 b.available),
          length-put_uint64 b.available,
          h.id_length,
        )))

module _ {S : Type 0} (consume : Consumer S Budget) where
  -- What is left once the consumer has a budget.
  abbrev after_budget : ℕ → ItemId → ℕ → List ℕ → S → Option (S × Option Error)
  after_budget fuel i a rest s =
      let (s', e) = consume s (record { campaign_id = i; available = a }) in
      elim e [ none ↦ each_budget consume fuel i rest s' | some err ↦ some (s', some err) ]

  abbrev after_record : ℕ → ItemId → ℕ → List ℕ → S → Option (S × Option Error)
  after_record fuel i a rest s =
      let (s', e) = consume s (record { campaign_id = i; available = a }) in
      elim e [ none ↦ each_record consume fuel rest s' | some err ↦ some (s', some err) ]

  -- One round on the bytes of a budget.
  each_budget-suc :
      (fuel : ℕ) (dst : ItemId) (bytes : List ℕ) (s : S) (i : ItemId) (a : ℕ) (rest : List ℕ)
      → 0 < length bytes
      → copy dst bytes ≡ i
      → uint64 (drop len bytes) ≡ some a
      → drop budget_byte_size bytes ≡ rest
      → each_budget consume (suc fuel) dst bytes s ≡ after_budget fuel i a rest s
  unfolding each_budget
  each_budget-suc fuel dst [] s i a rest some_left same_id word next = absurd (omega arith)
  each_budget-suc fuel dst (x ∷ xs) s i a rest some_left same_id word next =
      let bytes : List ℕ = x ∷ xs in
      let base : each_budget consume (suc fuel) dst bytes s
          ≡ after_budget fuel (copy dst bytes) a (drop budget_byte_size bytes) s =
        rw word refl in
      base
      ∙ ap (λ k. after_budget fuel k a (drop budget_byte_size bytes) s) same_id
      ∙ ap (λ k. after_budget fuel i a k s) next

  each_record-suc :
      (fuel : ℕ) (bytes : List ℕ) (s : S) (i : ItemId) (a : ℕ) (rest : List ℕ)
      → 0 < length bytes
      → copy zero_id bytes ≡ i
      → uint64 (drop len bytes) ≡ some a
      → drop budget_byte_size bytes ≡ rest
      → each_record consume (suc fuel) bytes s ≡ after_record fuel i a rest s
  unfolding each_record
  each_record-suc fuel [] s i a rest some_left same_id word next = absurd (omega arith)
  each_record-suc fuel (x ∷ xs) s i a rest some_left same_id word next =
      let bytes : List ℕ = x ∷ xs in
      let base : each_record consume (suc fuel) bytes s
          ≡ after_record fuel (copy zero_id bytes) a (drop budget_byte_size bytes) s =
        rw word refl in
      base
      ∙ ap (λ k. after_record fuel k a (drop budget_byte_size bytes) s) same_id
      ∙ ap (λ k. after_record fuel i a k s) next

  each_budget-compress_all :
      (fuel : ℕ) (dst : ItemId) (bs : List Budget) (s : S)
      → length dst ≡ len
      → All IsBudget bs
      → length (compress_all bs) ≤ fuel
      → each_budget consume fuel dst (compress_all bs) s ≡ some (feed consume s bs)
  unfolding compress_all feed front
  each_budget-compress_all zero dst [] s e h enough = unfold each_budget in refl
  each_budget-compress_all (suc fuel) dst [] s e h enough = unfold each_budget in refl
  each_budget-compress_all zero dst (b ∷ bs) s e h enough =
      absurd (omega (arith, enough, length-compress_all (b ∷ bs) h))
  each_budget-compress_all (suc fuel) dst (b ∷ bs) s e h enough =
      let size = length-compress_all (b ∷ bs) h in
      let size' = length-compress_all bs h.1 in
      each_budget-suc fuel dst (compress_all (b ∷ bs)) s b.campaign_id b.available (compress_all bs)
        (omega (arith, size)) (copy-front b (compress_all bs) h.0 dst e)
        (uint64-front b (compress_all bs) h.0) (drop-front b (compress_all bs) h.0)
      ∙ (elim (Option-cases (consume s b).1) [
        | inl go_on ↦
            rw (after_budget, go_on, feed)
              (each_budget-compress_all fuel b.campaign_id bs (consume s b).0 h.0.id_length h.1
                (omega (arith, enough, size, size')))
        | inr (err, stop) ↦ rw (after_budget, stop, feed) refl
      ])

  each_record-compress_all :
      (fuel : ℕ) (bs : List Budget) (s : S)
      → All IsBudget bs
      → length (compress_all bs) ≤ fuel
      → each_record consume fuel (compress_all bs) s ≡ some (feed consume s bs)
  unfolding compress_all feed front
  each_record-compress_all zero [] s h enough = unfold each_record in refl
  each_record-compress_all (suc fuel) [] s h enough = unfold each_record in refl
  each_record-compress_all zero (b ∷ bs) s h enough =
      absurd (omega (arith, enough, length-compress_all (b ∷ bs) h))
  each_record-compress_all (suc fuel) (b ∷ bs) s h enough =
      let size = length-compress_all (b ∷ bs) h in
      let size' = length-compress_all bs h.1 in
      each_record-suc fuel (compress_all (b ∷ bs)) s b.campaign_id b.available (compress_all bs)
        (omega (arith, size)) (copy-front b (compress_all bs) h.0 zero_id refl)
        (uint64-front b (compress_all bs) h.0) (drop-front b (compress_all bs) h.0)
      ∙ (elim (Option-cases (consume s b).1) [
        | inl go_on ↦
            rw (after_record, go_on, feed)
              (each_record-compress_all fuel bs (consume s b).0 h.1
                (omega (arith, enough, size, size')))
        | inr (err, stop) ↦ rw (after_record, stop, feed) refl
      ])

  -- Budgets with identifiers of 16 bytes and int64 amounts, compressed, reach the consumer one by
  -- one and in order, up to the first that it refuses, by the readers of both SDKs of DynamoDB and
  -- by the one of Aerospike; none panics.
  pub readers-compress_all :
      (bs : List Budget) (s : S)
      → All IsBudget bs
      → (unmarshall_budget_attributes_v1 consume (some (binary (compress_all bs))) s
          ≡ some (feed consume s bs))
        × (unmarshall_budget_attributes_v2 consume (some (binary (compress_all bs))) s
            ≡ some (feed consume s bs))
        × (read_batch consume (compress_all bs) s ≡ some (feed consume s bs))
  unfolding unmarshall_budget_attributes_v1 unmarshall_budget_attributes_v2 unmarshall_budgets
      read_batch
  readers-compress_all bs s h =
      let whole : (length (compress_all bs) % budget_byte_size == 0) ≡ true =
        (==_iff (length (compress_all bs) % budget_byte_size) 0).1
          (omega (arith, length-compress_all bs h)) in
      let all =
        each_budget-compress_all (length (compress_all bs)) zero_id bs s refl h (omega arith) in
      (
        rw whole all,
        rw whole all,
        each_record-compress_all (length (compress_all bs)) bs s h (omega arith),
      )

decompress_all-compress_all :
    (bs : List Budget) → All IsBudget bs → decompress_all (length bs) (compress_all bs) ≡ some bs
unfolding decompress_all compress_all front
decompress_all-compress_all [] hs = refl
decompress_all-compress_all (b ∷ bs) hs =
    let rest = compress_all bs in
    rw
      (
        uint64-front b rest hs.0,
        drop-front b rest hs.0,
        decompress_all-compress_all bs hs.1,
        copy-front b rest hs.0 zero_id refl,
      )
      refl

-- A batch of budgets with identifiers of 16 bytes and int64 amounts is the same after compressing
-- and decompressing it.
pub item_batch_decompress-item_batch_compress :
    (bb : ItemBatch)
    → All IsBudget bb.batch
    → item_batch_decompress (item_batch_compress bb) ≡ some bb
unfolding item_batch_decompress item_batch_compress
item_batch_decompress-item_batch_compress bb h = whole bb.id bb.batch h
  where
    whole :
        (id : ℕ) (bs : List Budget)
        → All IsBudget bs
        → item_batch_decompress (item_batch_compress (record { id = id; batch = bs }))
          ≡ some (record { id = id; batch = bs })
    whole id [] hs = refl
    whole id (b ∷ bs) hs = rw (decompress_all-compress_all (b ∷ bs) hs) (ground arith)
