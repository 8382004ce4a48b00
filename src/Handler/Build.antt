-- ===== src/Handler/Build.antt =====
-- bidhandler/bidresponse.go of apps/bidder/code: the bytes of a bid response.
use guidance_for_building_a.Common.{ℕ, List, [], ◌∷◌, ◌++◌}
use guidance_for_building_a.Auction.Run.{Response, Version, open_rtb2, open_rtb3}
use guidance_for_building_a.Handler.Read.{codes}

-- `strconv.AppendQuote`, `url.PathEscape`, the price as `strconv.AppendFloat` writes it, and the KSUID
-- sequence.
pub record Printers : Type 1 where
  pub quote : List ℕ → List ℕ
  pub path_escape : List ℕ → List ℕ
  pub price : ℕ → List ℕ
  pub Keys : Type 0
  pub new_keys : Keys
  pub next_key : Keys → List ℕ × Keys

-- The parts are appended one after the other.
unfoldable pub append_all : List (List ℕ) → List ℕ
append_all [] = []
append_all (part ∷ parts) = part ++ append_all parts

module _ (p : Printers) where
  -- `buildResponse3`, with the KSUID that it takes.
  unfoldable pub build_response3 : Response → List ℕ → List ℕ
  build_response3 r key = append_all (
      codes
        "{\"openrtb\":{\"ver\":\"3.0\",\"domainspec\":\"adcom\",\"domainver\":\"1.0\",\"response\":{\"id\":"
      ∷ p.quote r.request.id
      ∷ codes ",\"seatbid\":[{\"seat\":"
      ∷ codes "\"XYZ\""
      ∷ codes ",\"bid\":[{\"id\":\""
      ∷ key
      ∷ codes "\",\"item\":\""
      ∷ r.item.id
      ∷ codes "\",\"price\":"
      ∷ p.price r.price
      ∷ codes ",\"cid\":"
      ∷ p.quote r.campaign.hex_id
      ∷ codes ",\"burl\":\""
      ∷ codes "https://t.ab.clearcode.cc/"
      ∷ p.path_escape r.request.id
      ∷ codes "/"
      ∷ p.path_escape r.campaign.hex_id
      ∷ codes "/${OPENRTB_PRICE}"
      ∷ codes "\",\"media\":"
      ∷ codes "{\"ad\":{\"id\":"
      ∷ p.quote r.campaign.hex_id
      ∷ codes ",\"adomain\":["
      ∷ codes "\"ford.com\""
      ∷ codes "],\"secure\":1,\"display\":{\"mime\":\"image/jpeg\",\"ctype\":1,\"w\":"
      ∷ codes "320"
      ∷ codes ",\"h\":"
      ∷ codes "50"
      ∷ codes ",\"curl\":\""
      ∷ codes "https://t.ab.clearcode.cc/"
      ∷ p.path_escape r.request.id
      ∷ codes "/"
      ∷ p.path_escape r.campaign.hex_id
      ∷ codes "\"}}}"
      ∷ codes "}]}]}}}"
      ∷ [])

  -- `buildResponse2`, with the KSUID that it takes.
  unfoldable pub build_response2 : Response → List ℕ → List ℕ
  build_response2 r key = append_all (
      codes "{\"id\":"
      ∷ p.quote r.request.id
      ∷ codes ",\"seatbid\":[{\"seat\":"
      ∷ codes "\"XYZ\""
      ∷ codes ",\"bid\":[{\"id\":\""
      ∷ key
      ∷ codes "\",\"price\":"
      ∷ p.price r.price
      ∷ codes ",\"impid\":\""
      ∷ r.item.id
      ∷ codes "\",\"cid\":"
      ∷ p.quote r.campaign.hex_id
      ∷ codes ",\"burl\":\""
      ∷ codes "https://t.ab.clearcode.cc/"
      ∷ p.path_escape r.request.id
      ∷ codes "/"
      ∷ p.path_escape r.campaign.hex_id
      ∷ codes "/${OPENRTB_PRICE}\","
      ∷ codes "\"crid\":"
      ∷ p.quote r.campaign.hex_id
      ∷ codes ",\"adomain\":[\"ford.com\"],"
      ∷ codes "\"ext\": {\"secire\":1,\"mime\":\"image/jpeg\",\"ctype\":1,\"curl\":\""
      ∷ codes "https://t.ab.clearcode.cc/"
      ∷ p.path_escape r.request.id
      ∷ codes "/"
      ∷ p.path_escape r.campaign.hex_id
      ∷ codes "\"},\"w\":320,\"h\":50}]}]}"
      ∷ [])

  -- `buildResponse`
  unfoldable pub build_response : Version → Response → List ℕ → List ℕ
  build_response open_rtb2 r key = build_response2 r key
  build_response open_rtb3 r key = build_response3 r key
