-- ===== src/Handler/Tests.antt =====
-- A body that is a request of the small shop, and one that is none.
use guidance_for_building_a.Common.{
  ℕ, ◌+◌, ◌≡◌, List, [], ◌∷◌, Option, none, some, replicate, arith,
}
use guidance_for_building_a.Random.Counter.{counter, counter-IsBounded}
use guidance_for_building_a.Auction.Shop.{shop, shop-IsReady}
use guidance_for_building_a.Auction.Run.Spec.{IsReady}
use guidance_for_building_a.Handler.Read.{Parsers, codes, read_request}
use guidance_for_building_a.Handler.Build.{Printers}
use guidance_for_building_a.Handler.Handle.{Config, Reply, Handler, handle_request, status}
use guidance_for_building_a.Handler.Safe.{Handled, handle_request-Handled}

-- Every body but the empty one is a request with one item, which has the body as its identifier.
abbrev parsers : Parsers
parsers = record {
  Value = List ℕ;
  parse_bytes = λ b. elim b [ [] ↦ none | x ∷ xs ↦ some (x ∷ xs) ];
  get = λ path v. some v;
  get_string_bytes = λ path v. v;
  get_array = λ key v. v ∷ [];
  uuid = λ b. some (replicate 16 9);
}

abbrev printers : Printers
printers = record {
  quote = λ b. b;
  path_escape = λ b. b;
  price = λ n. n ∷ [];
  Keys = ℕ;
  new_keys = 0;
  next_key = λ k. (replicate 27 k, k + 1);
}

abbrev config : Config
config = record { open_rtb_version = codes "2.5"; timeout_status = 204 }

abbrev handler : Handler counter parsers printers
handler = record { auction = shop; data_stream = some []; pool = [] }

handle_request-Handled_example :
    (reply : Reply) × (h' : Handler counter parsers printers) × (handle_request counter parsers
        printers
        (λ b. b)
        config
        handler
        (codes "3.0")
        (7 ∷ [])
      ≡ some (reply, h'))
    × Handled counter parsers printers
        (λ b. b)
        handler
        (7 ∷ [])
        reply
        h'
        (read_request parsers config.open_rtb_version (codes "3.0") (7 ∷ []))
    × IsReady counter 1 h'.auction
handle_request-Handled_example =
    handle_request-Handled counter counter-IsBounded parsers printers 0 (λ b. b) config handler
      (codes "3.0") (7 ∷ []) shop-IsReady (omega arith)

-- The status and the length of the input channel for a request, and for no body.
abbrev outcomes : List (Option (ℕ × Option (List (List ℕ))))
outcomes =
    elim (handle_request counter parsers printers (λ b. b) config handler (codes "3.0") (7 ∷ [])) [
      | none ↦ []
      | some (reply, h) ↦ some (status config reply, h.data_stream) ∷ []
    ]
