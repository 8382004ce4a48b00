-- ===== src/Auction/Model.antt =====
-- apps/model/auction.go: the auction with a call to a model before it, whose prediction it only prints.
-- The rest of its `run` and what that calls are the text of apps/bidder/code/auction/auction.go.
use guidance_for_building_a.Common.{
  List, [], ◌∷◌, Bool, true, false, Option, none, some, ◌>>=◌, ◌≡◌, refl,
}
use guidance_for_building_a.Random.{Random}
use guidance_for_building_a.Auction.Run
use guidance_for_building_a.Auction.Run.{
  Auction, Request, PersistentData, Answer, get_data, check_timeout,
}

-- What the model answers: an error of the client, or its outputs, each of which is a map or not. A
-- body that is no JSON has none.
pub data Inference : Type 0 where
  refused : Inference
  replied : List Bool → Inference

module _ (r : Random) where
  -- `run`; `none` is a panic, also where the call fails or has no output.
  unfoldable pub run :
      Inference
      → Auction r
      → Request
      → PersistentData r
      → Option (Answer × Auction r × PersistentData r)
  run refused a request pd = none
  run (replied []) a request pd = none
  run (replied (false ∷ outputs)) a request pd = none
  run (replied (true ∷ outputs)) a request pd = Run.run r a request pd

  -- `Run`
  unfoldable pub run_auction : Inference → Auction r → Request → Option (Answer × Auction r)
  run_auction inference a request = do
    let (pd, pool') = get_data r a.pool
    (answer, a', pd') ← run inference (record a { pool = pool' }) request pd
    some (check_timeout answer, record a' { pool = pd' ∷ a'.pool })

  -- An auction is that of the bidder where the model has an output, and panics otherwise.
  run_auction_lem :
      (outputs : List Bool) (a : Auction r) (request : Request)
      → (run_auction (replied (true ∷ outputs)) a request ≡ Run.run_auction r a request)
        × (run_auction (replied []) a request ≡ none)
        × (run_auction refused a request ≡ none)
  unfolding run_auction run Run.run_auction
  run_auction_lem outputs a request = (refl, refl, refl)
