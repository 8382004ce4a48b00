-- ===== src/Cache/Campaigns/Index.antt =====
-- The index of the campaign cache leads to the campaigns.
use guidance_for_building_a.Common.{
  ℕ, ◌≡◌, ◌≢◌, refl, sym, subst, false, ◌&&◌, List, [], ◌∷◌, ◌++◌, true, none, some, length,
  get_elem?, get_elem?_lt, All, All-append, Bool-cases, Option-cases, All-get_elem?, inl, inr,
  arith, if◌then◌else◌, get_elem?-append_lt, get_elem?_snoc,
}
use guidance_for_building_a.Id.{ItemId, lookup, insert, lookup-insert, same, same_iff, same_self}
use guidance_for_building_a.Api.{Campaign, Validation, is_valid, Scan, ok}
use guidance_for_building_a.Cache.Campaigns.{
  CampaignCache, get, get_index, size, empty, consume, consume_all, new_campaign,
}

-- An identifier is indexed by a campaign that has it, and every campaign is valid.
pub record IsIndexed (v : Validation) (c : CampaignCache) : Type 0 where
  pub found :
      (i : ItemId) (n : ℕ)
      → get_index c i ≡ some n
      → (k : Campaign) × (get c n ≡ some k) × (k.id ≡ i)
  pub valid : All (λ k. is_valid v k ≡ true) c.campaigns

module _ (v : Validation) where
  pub empty-IsIndexed : IsIndexed v empty
  unfolding get_index lookup
  empty-IsIndexed = record { found = λ i n h. cc; valid = tt }

  pub consume-IsIndexed :
      (c : CampaignCache) (x : Campaign) → IsIndexed v c → IsIndexed v (consume v c x)
  unfolding consume get_index get
  consume-IsIndexed c x h = elim (Bool-cases (is_valid v x)) [
    | inl good ↦
        rw (good, consume)
          (record {
            found = λ i n. added i n good;
            valid = All-append _ c.campaigns (x ∷ []) h.valid (good, tt);
          })
    | inr bad ↦ rw (bad, consume) h
  ]
    where
      added :
          (i : ItemId) (n : ℕ)
          → is_valid v x ≡ true
          → lookup i (insert x.id (length c.campaigns) c.id_to_index) ≡ some n
          → (k : Campaign) × (get_elem? (c.campaigns ++ x ∷ []) n ≡ some k) × (k.id ≡ i)
      added i n good e = elim (Bool-cases (same x.id i)) [
        | inl eq ↦
            let e' = rw (lookup-insert, eq) at e in
            let last : length c.campaigns ≡ n = cc e' in
            (x, rw (← last) (get_elem?_snoc c.campaigns x), (same_iff x.id i).0 eq)
        | inr ne ↦
            let (k, at, has) = h.found i n (rw (lookup-insert, ne) at e) in
            (
              k,
              rw (get_elem?-append_lt c.campaigns (x ∷ []) n (get_elem?_lt c.campaigns n k at)) at,
              has,
            )
      ]

  pub consume_all-IsIndexed :
      (c : CampaignCache) (xs : List Campaign) → IsIndexed v c → IsIndexed v (consume_all v c xs)
  unfolding consume_all
  consume_all-IsIndexed c [] h = h
  consume_all-IsIndexed c (x ∷ xs) h =
      consume_all-IsIndexed (consume v c x) xs (consume-IsIndexed c x h)

  get_index-consume :
      (c : CampaignCache) (x : Campaign) (i : ItemId)
      → get_index (consume v c x) i
        ≡ (if is_valid v x && same x.id i then some (size c) else get_index c i)
  unfolding get_index consume size
  get_index-consume c x i = ground (arith, lookup-insert x.id i (length c.campaigns) c.id_to_index)

  get_index_kept :
      (c : CampaignCache) (xs : List Campaign) (i : ItemId)
      → get_index c i ≢ none
      → get_index (consume_all v c xs) i ≢ none
  unfolding consume_all
  get_index_kept c [] i h = h
  get_index_kept c (x ∷ xs) i h =
      get_index_kept (consume v c x) xs i (ground (arith, get_index-consume c x i))

  consume_all_finds :
      (c : CampaignCache) (pre : List Campaign) (x : Campaign) (post : List Campaign)
      → is_valid v x ≡ true
      → get_index (consume_all v c (pre ++ x ∷ post)) x.id ≢ none
  unfolding consume_all
  consume_all_finds c [] x post h =
      get_index_kept (consume v c x) post x.id
        (ground (arith, get_index-consume c x x.id, same_self x.id))
  consume_all_finds c (p ∷ pre) x post h = consume_all_finds (consume v c p) pre x post h

  pub new_campaign-IsIndexed :
      (repository : Scan Campaign) (c : CampaignCache)
      → new_campaign v repository ≡ ok c
      → IsIndexed v c
  unfolding new_campaign
  new_campaign-IsIndexed repository c h =
      let e : consume_all v empty repository.items ≡ c = ground arith in
      rw (← e) (consume_all-IsIndexed empty repository.items empty-IsIndexed)

  -- Every cached campaign is indexed.
  Indexed : CampaignCache → Type 0
  Indexed c = All (λ k. get_index c k.id ≢ none) c.campaigns

  still_indexed :
      (c : CampaignCache) (x : Campaign) (xs : List Campaign)
      → All (λ k. get_index c k.id ≢ none) xs
      → All (λ k. get_index (consume v c x) k.id ≢ none) xs
  still_indexed c x [] h = tt
  still_indexed c x (k ∷ ks) h =
      (λ e. h.0 (ground (arith, get_index-consume c x k.id, e)), still_indexed c x ks h.1)

  consume-Indexed : (c : CampaignCache) (x : Campaign) → Indexed c → Indexed (consume v c x)
  unfolding Indexed
  consume-Indexed c x h = elim (Bool-cases (is_valid v x)) [
    | inr bad ↦
        let same_cache : consume v c x ≡ c = unfold consume in rw bad refl in
        subst (λ d. All (λ k. get_index d k.id ≢ none) d.campaigns) (sym same_cache) h
    | inl good ↦
        let added : (consume v c x).campaigns ≡ c.campaigns ++ x ∷ [] =
          unfold consume in rw good refl in
        let found : get_index (consume v c x) x.id ≢ none =
          λ e. ground (arith, get_index-consume c x x.id, same_self x.id, good, e) in
        subst (λ l. All (λ k. get_index (consume v c x) k.id ≢ none) l) (sym added)
          (All-append (λ k. get_index (consume v c x) k.id ≢ none) c.campaigns (x ∷ [])
            (still_indexed c x c.campaigns h) (found, tt))
  ]

  consume_all-Indexed :
      (c : CampaignCache) (xs : List Campaign) → Indexed c → Indexed (consume_all v c xs)
  unfolding consume_all
  consume_all-Indexed c [] h = h
  consume_all-Indexed c (x ∷ xs) h = consume_all-Indexed (consume v c x) xs (consume-Indexed c x h)

  -- What the index does not have is no cached campaign's.
  pub get_index-none :
      (repository : Scan Campaign) (c : CampaignCache) (i : ItemId)
      → new_campaign v repository ≡ ok c
      → get_index c i ≡ none
      → All (λ k. same k.id i ≡ false) c.campaigns
  unfolding new_campaign Indexed
  get_index-none repository c i h gone =
      let e : consume_all v empty repository.items ≡ c = ground arith in
      let all : Indexed c = subst Indexed e (consume_all-Indexed empty repository.items tt) in
      apart c.campaigns all
    where
      apart :
          (ks : List Campaign)
          → All (λ k. get_index c k.id ≢ none) ks
          → All (λ k. same k.id i ≡ false) ks
      apart [] a = tt
      apart (k ∷ ks) a = (
        elim (Bool-cases (same k.id i)) [
          | inr ne ↦ ne
          | inl eq ↦ absurd (a.0 (rw ((same_iff k.id i).0 eq) gone))
        ],
        apart ks a.1,
      )

  -- If the campaign cache was made from the scan without an error, every valid campaign among the
  -- items is found by its identifier: the index leads to a cached campaign, a valid one, with that
  -- identifier.
  pub new_campaign_finds :
      (repository : Scan Campaign) (c : CampaignCache) (pre : List Campaign) (x : Campaign)
      (post : List Campaign)
      → new_campaign v repository ≡ ok c
      → repository.items ≡ pre ++ x ∷ post
      → is_valid v x ≡ true
      → (n : ℕ) × (k : Campaign) × (get_index c x.id ≡ some n)
        × (get c n ≡ some k)
        × (k.id ≡ x.id)
        × (is_valid v k ≡ true)
  unfolding new_campaign
  new_campaign_finds repository c pre x post h items good =
      let idx = new_campaign-IsIndexed repository c h in
      let e : consume_all v empty repository.items ≡ c = ground arith in
      let there = rw e at (rw (← items) at (consume_all_finds empty pre x post good)) in
      elim (Option-cases (get_index c x.id)) [
        | inl gone ↦ absurd (there gone)
        | inr (n, at) ↦
            let (k, got, same_id) = idx.found x.id n at in
            (n, k, at, got, same_id, All-get_elem? _ c.campaigns n idx.valid (unfold get in got))
      ]
