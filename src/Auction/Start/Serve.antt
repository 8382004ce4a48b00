-- ===== src/Auction/Start/Serve.antt =====
-- Auctions one after the other: none panics, and no budget is overdrawn.
use guidance_for_building_a.Common.{
  ℕ, ◌+◌, ◌<◌, ◌≡◌, subst, refl, List, [], ◌∷◌, true, Bool, not, ◌||◌, Option, some, All, length,
  get_elem?, Bool-cases, inl, inr, arith, ◌==◌, ==_iff, ◌>>=◌,
}
use guidance_for_building_a.Common.Int64.{u64_mod, is_nonneg, sub64}
use guidance_for_building_a.Random.{Random, IsBounded}
use guidance_for_building_a.Id.{ItemId}
use guidance_for_building_a.Api.{Error}
use guidance_for_building_a.Cache.Audiences.{AudienceCache}
use guidance_for_building_a.Cache.Campaigns.{CampaignCache}
use guidance_for_building_a.Cache.Budgets.{BudgetState}
use guidance_for_building_a.Cache.Budgets.State.{funds}
use guidance_for_building_a.Auction.Choose.Reserve.{affords, price}
use guidance_for_building_a.Auction.Choose.Winner.{IsWinner}
use guidance_for_building_a.Auction.Run.{Auction, Request, Item, Answer, run_auction}
use guidance_for_building_a.Auction.Run.Spec.{
  IsReady, Outcome, unknown, late, broken, untargeted, exhausted, sold,
}
use guidance_for_building_a.Auction.Run.Outcome.{run_auction_outcome}

-- If the budget of campaign `i` was not overdrawn before, it is not afterwards.
abbrev pub stays_solvent : ℕ → BudgetState → BudgetState → Bool
stays_solvent i b b' = not (is_nonneg (funds b i)) || is_nonneg (funds b' i)

-- A request has an item.
abbrev pub HasItem : Request → Type 0
HasItem request = (item : Item) × (get_elem? request.item 0 ≡ some item)

Outcome-stays_solvent :
    (campaigns : CampaignCache) (audience : AudienceCache) (b : BudgetState) (k : ℕ)
    (request : Request) (ids : List ItemId) {e : Option Error} {answer : Answer} {b' : BudgetState}
    {k' : ℕ}
    → Outcome campaigns audience b k request ids e answer b' k'
    → (i : ℕ) → stays_solvent i b b' ≡ true
unfolding IsWinner affords
Outcome-stays_solvent campaigns audience b k request ids unknown i = ground arith
Outcome-stays_solvent campaigns audience b k request ids late i = ground arith
Outcome-stays_solvent campaigns audience b k request ids (broken e n n') i = ground arith
Outcome-stays_solvent campaigns audience b k request ids (untargeted n) i = ground arith
Outcome-stays_solvent campaigns audience b k request ids (exhausted wins same) i =
    rw (same i) (ground arith)
Outcome-stays_solvent campaigns audience b k request ids (sold n item c first at wins charge) i =
    rw (charge i) (elim (Bool-cases (i == n)) [
      | inl here ↦
          let paid : is_nonneg (sub64 (funds b i) (price campaigns i)) ≡ true =
            rw ((==_iff i n).0 here) wins.1 in
          rw here (ground (arith, paid))
      | inr there ↦ rw there (ground arith)
    ])

module _ (r : Random) where
  -- Auctions one after the other.
  unfoldable pub serve : Auction r → List Request → Option (List Answer × Auction r)
  serve a [] = some ([], a)
  serve a (request ∷ requests) = do
    (answer, a') ← run_auction r a request
    (answers, a'') ← serve a' requests
    some (answer ∷ answers, a'')

module _ (r : Random) (bounded : IsBounded r) where
  -- From an auction that is ready after `n` runs, any sequence of requests that have items, fewer
  -- than 2 ^ 64 with the `n`, is answered one by one without a panic, and the auction is ready
  -- again. A budget that was not overdrawn before is not overdrawn afterwards.
  pub serve_all :
      (n : ℕ) (a : Auction r) (requests : List Request)
      → IsReady r n a
      → All HasItem requests
      → n + length requests < u64_mod
      → (answers : List Answer) × (a' : Auction r) × (serve r a requests ≡ some (answers, a'))
        × (length answers ≡ length requests)
        × IsReady r (n + length requests) a'
        × ((i : ℕ) → stays_solvent i a.budget a'.budget ≡ true)
  unfolding serve
  serve_all n a [] ready has small =
      let same : n ≡ n + 0 = omega arith in
      ([], a, refl, refl, subst (λ k. IsReady r k a) same ready, λ i. ground arith)
  serve_all n a (request ∷ requests) ready has small =
      let (item, first) = has.0 in
      let (ids, e, device', f, answer, a', g, out, ready') =
        run_auction_outcome r bounded n a request item ready (omega arith) first in
      let one =
        Outcome-stays_solvent a.campaign a.audience a.budget a.update_requests request ids out in
      let (answers, a'', g', len, ready'', others) =
        serve_all (n + 1) a' requests ready' has.1 (omega arith) in
      let same : n + 1 + length requests ≡ n + length (request ∷ requests) = omega arith in
      (
        answer ∷ answers,
        a'',
        rw (g, g') refl,
        omega (arith, len),
        subst (λ k. IsReady r k a'') same ready'',
        λ i. ground (arith, one i, others i),
      )
