-- ===== src/Database/Scans.antt =====
-- The scans of Aerospike: aerospike/{audience,budget,campaign}.go of apps/bidder/code/database, over
-- what the channel of `ScanAll` delivers, or `Get` returns for the keys. `none` is a panic.
use guidance_for_building_a.Common.{
  ℕ, ◌≡◌, refl, List, [], ◌∷◌, ◌++◌, Option, none, some, map, copy, ◌>>=◌, All, Option-cases, inl,
  inr, ap, sym, ◌∙◌,
}
use guidance_for_building_a.Id.{zero_id}
use guidance_for_building_a.Id.Hex.{encode_to_string}
use guidance_for_building_a.Api.{Error, Audience, Budget, Campaign}
use guidance_for_building_a.Database.Consumer.{Consumer, feed}
use guidance_for_building_a.Database.Budgets.{read_batch, compress_all}
use guidance_for_building_a.Database.Budgets.RoundTrip.{IsBudget, readers-compress_all}

-- `*aerospike.Result`: an error or a record.
pub data Received (A : Type 0) : Type 0 where
  failed : Error → Received A
  received : A → Received A

pub record AudienceRecord : Type 0 where
  pub key : Option (List ℕ)
  pub campaign_ids : Option (List (List ℕ))

pub record CampaignRecord : Type 0 where
  pub key : Option (List ℕ)
  pub bid_price : Option ℕ

-- The audience of a record; a record without a key or without campaigns is left out.
unfoldable pub audience_of : AudienceRecord → Option Audience
audience_of r = do
  key ← r.key
  ids ← r.campaign_ids
  some (record { audience_id = copy zero_id key; campaign_ids = map (λ i. copy zero_id i) ids })

-- The campaign of a record; `none` is a panic.
unfoldable pub campaign_of_record : CampaignRecord → Option Campaign
campaign_of_record r = do
  key ← r.key
  bid_price ← r.bid_price
  some (record { hex_id = encode_to_string key; id = copy zero_id key; max_cpm = bid_price })

abbrev pub compressed : List (List Budget) → List (Received (Option (List ℕ)))
compressed [] = []
compressed (bs ∷ batches) = received (some (compress_all bs)) ∷ compressed batches

abbrev pub all_budgets : List (List Budget) → List Budget
all_budgets [] = []
all_budgets (bs ∷ batches) = bs ++ all_budgets batches

module _ {S : Type 0} where
  -- `AudienceRepository.Scan`
  unfoldable pub scan_audiences :
      Consumer S Audience → S → List (Received AudienceRecord) → S × Option Error
  scan_audiences consume s [] = (s, none)
  scan_audiences consume s (failed e ∷ rest) = (s, some e)
  scan_audiences consume s (received r ∷ rest) = elim (audience_of r) [
    | none ↦ scan_audiences consume s rest
    | some a ↦
        let (s', e) = consume s a in
        elim e [ none ↦ scan_audiences consume s' rest | some err ↦ (s', some err) ]
  ]

  -- `CampaignRepository.Scan`
  unfoldable pub scan_campaigns :
      Consumer S Campaign → S → List (Received CampaignRecord) → Option (S × Option Error)
  scan_campaigns consume s [] = some (s, none)
  scan_campaigns consume s (failed e ∷ rest) = some (s, some e)
  scan_campaigns consume s (received r ∷ rest) = do
    c ← campaign_of_record r
    let (s', e) = consume s c
    elim e [ none ↦ scan_campaigns consume s' rest | some err ↦ some (s', some err) ]

  -- `BudgetRepository.scan` and the loop of `getAll`; the type assertion panics on a record without
  -- the bin.
  unfoldable pub scan_budgets :
      Consumer S Budget → S → List (Received (Option (List ℕ))) → Option (S × Option Error)
  scan_budgets consume s [] = some (s, none)
  scan_budgets consume s (failed e ∷ rest) = some (s, some e)
  scan_budgets consume s (received batch_bin ∷ rest) = do
    bin ← batch_bin
    (s', e) ← read_batch consume bin s
    elim e [ none ↦ scan_budgets consume s' rest | some err ↦ some (s', some err) ]

  feed-cons_none :
      {A : Type 0} (consume : Consumer S A) (s : S) (x : A) (xs : List A)
      → (consume s x).1 ≡ none
      → feed consume s (x ∷ xs) ≡ feed consume (consume s x).0 xs
  unfolding feed
  feed-cons_none consume s x xs e = rw (feed, e) refl

  feed-cons_some :
      {A : Type 0} (consume : Consumer S A) (s : S) (x : A) (xs : List A) (err : Error)
      → (consume s x).1 ≡ some err
      → feed consume s (x ∷ xs) ≡ ((consume s x).0, some err)
  unfolding feed
  feed-cons_some consume s x xs err e = rw (feed, e) refl

  -- What follows a part of a scan that ended without an error.
  abbrev go_on : S × Option Error → (S → S × Option Error) → S × Option Error
  go_on (s, none) k = k s
  go_on (s, some err) k = (s, some err)

  feed-append :
      {A : Type 0} (consume : Consumer S A) (s : S) (xs ys : List A)
      → feed consume s (xs ++ ys) ≡ go_on (feed consume s xs) (λ s'. feed consume s' ys)
  feed-append consume s [] ys = unfold feed in refl
  feed-append consume s (x ∷ xs) ys = elim (Option-cases (consume s x).1) [
    | inl e ↦
        feed-cons_none consume s x (xs ++ ys) e
        ∙ feed-append consume (consume s x).0 xs ys
        ∙ ap (λ p. go_on p (λ s'. feed consume s' ys)) (sym (feed-cons_none consume s x xs e))
    | inr (err, e) ↦
        feed-cons_some consume s x (xs ++ ys) err e
        ∙ ap (λ p. go_on p (λ s'. feed consume s' ys)) (sym (feed-cons_some consume s x xs err e))
  ]

  -- A scan of Aerospike that delivers compressed batches, in which identifiers have 16 bytes and
  -- amounts are int64, hands the budgets of all batches to the consumer in order, up to the first
  -- that it refuses, and does not panic.
  pub scan_budgets-compressed :
      (consume : Consumer S Budget) (batches : List (List Budget)) (s : S)
      → All (λ bs. All IsBudget bs) batches
      → scan_budgets consume s (compressed batches) ≡ some (feed consume s (all_budgets batches))
  unfolding scan_budgets
  scan_budgets-compressed consume [] s h = unfold feed in refl
  scan_budgets-compressed consume (bs ∷ batches) s h =
      let read = (readers-compress_all consume bs s h.0).2 in
      elim (Option-cases (feed consume s bs).1) [
        | inl e ↦
            rw (read, feed-append consume s bs (all_budgets batches), go_on, e)
              (scan_budgets-compressed consume batches (feed consume s bs).0 h.1)
        | inr (err, e) ↦ rw (read, feed-append consume s bs (all_budgets batches), go_on, e) refl
      ]
