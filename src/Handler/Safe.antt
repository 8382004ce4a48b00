-- ===== src/Handler/Safe.antt =====
-- Every bid request is answered.
use guidance_for_building_a.Common.{
  ℕ, ◌+◌, ◌<◌, ◌≡◌, refl, List, [], ◌∷◌, Option, none, some, get_elem?, Option-cases, inl, inr,
}
use guidance_for_building_a.Common.Int64.{u64_mod}
use guidance_for_building_a.Api.{Error}
use guidance_for_building_a.Id.{ItemId}
use guidance_for_building_a.Random.{Random, IsBounded}
use guidance_for_building_a.Producer.Size.{Message}
use guidance_for_building_a.Cache.Devices
use guidance_for_building_a.Cache.Devices.{DeviceCache}
use guidance_for_building_a.Auction.Run.{
  Request, Item, Version, Response, Answer, bid, no_bid, timed_out, failed, open_rtb2, open_rtb3,
  run_auction,
}
use guidance_for_building_a.Auction.Run.Spec.{IsReady, Answers}
use guidance_for_building_a.Auction.Candidates.Unique.{IsTable-suc}
use guidance_for_building_a.Auction.Run.Outcome.{run_auction_outcome}
use guidance_for_building_a.Handler.Read.{
  Parsers, ReadError, Read, request, rejected, read_request, parse_bid_request2, parse_bid_request3,
  check_request, parse_device_id, items_of, parse_version, parse_version,
}
use guidance_for_building_a.Handler.Build.{Printers, build_response}
use guidance_for_building_a.Handler.Handle.{
  Config, Reply, bad_request, no_content, timeout_status, server_error, success, Handler, put_data,
  get_keys, write, handle_read, handle_request,
}

-- What a read gives: an error, or a request with an item.
pub data IsRead : Read → Type 0 where
  is_rejected : (e : ReadError) → IsRead (rejected e)
  is_request : (q : Request) (item : Item) → get_elem? q.item 0 ≡ some item → IsRead (request q)

check_request-IsRead :
    (p : Parsers) (version : Version) (id ifa : List ℕ) (values : List p.Value)
    → IsRead (check_request p version id ifa values)
unfolding check_request items_of
check_request-IsRead p version [] ifa values = is_rejected _
check_request-IsRead p version (i ∷ is) ifa values = elim (Option-cases (parse_device_id p ifa)) [
  | inl e ↦ rw (check_request, e) (is_rejected _)
  | inr (device_id, e) ↦ go values e
]
  where
    go :
        (values : List p.Value) {device_id : ItemId}
        → parse_device_id p ifa ≡ some device_id
        → IsRead (check_request p version (i ∷ is) ifa values)
    go [] e = rw (check_request, e) (is_rejected _)
    go (v ∷ vs) e = rw (check_request, e) (is_request _ _ refl)

parse_version-IsRead :
    (p : Parsers) (version : Option Version) (byte_request : List ℕ)
    → IsRead (parse_version p version byte_request)
unfolding parse_bid_request2 parse_bid_request3
parse_version-IsRead p none byte_request = is_rejected _
parse_version-IsRead p (some open_rtb2) byte_request =
    elim (Option-cases (p.parse_bytes byte_request)) [
      | inl e ↦ rw (parse_version, parse_bid_request2, e) (is_rejected _)
      | inr (v, e) ↦
          rw (parse_version, parse_bid_request2, e) (check_request-IsRead p open_rtb2 _ _ _)
    ]
parse_version-IsRead p (some open_rtb3) byte_request =
    elim (Option-cases (p.parse_bytes byte_request)) [
      | inl e ↦ rw (parse_version, parse_bid_request3, e) (is_rejected _)
      | inr (root, e) ↦ elim (Option-cases (p.get ("openrtb" ∷ "request" ∷ []) root)) [
        | inl e' ↦ rw (parse_version, parse_bid_request3, e, e') (is_rejected _)
        | inr (v, e') ↦
            rw (parse_version, parse_bid_request3, e, e') (check_request-IsRead p open_rtb3 _ _ _)
      ]
    ]

-- The reply to an answer, and the data of the stream after it.
pub data Written (pr : Printers) (compress : List ℕ → Message) (stream : Option (List Message))
    : Answer → Reply → Option (List Message) → Type 0 where
  responded :
      (response : Response) (key : List ℕ)
      → Written pr compress stream
          (bid response)
          (success (build_response pr response.request.open_rtb_version response key))
          (put_data compress stream
            (build_response pr response.request.open_rtb_version response key))
  silent : Written pr compress stream no_bid no_content stream
  late : Written pr compress stream timed_out timeout_status stream
  broken : (e : Error) → Written pr compress stream (failed e) (server_error e) stream

module _ (r : Random) (ps : Parsers) (pr : Printers) where
  -- How a request is handled, by what was read.
  pub data Handled (compress : List ℕ → Message) (h : Handler r ps pr) (body : List ℕ)
      (reply : Reply) (h' : Handler r ps pr) : Read → Type 0 where
    not_read :
        (e : ReadError)
        → reply ≡ bad_request e
        → h'.auction ≡ h.auction
        → h'.data_stream ≡ h.data_stream
        → Handled compress h body reply h' (rejected e)
    auctioned :
        (q : Request) (ids : List ItemId) (e : Option Error) (device' : DeviceCache r)
        (answer : Answer)
        → Devices.get r h.auction.device q.device_id [] ≡ some (ids, e, device')
        → run_auction r h.auction q ≡ some (answer, h'.auction)
        → Answers r h.auction q ids e answer h'.auction
        → Written pr compress (put_data compress h.data_stream body) answer reply h'.data_stream
        → Handled compress h body reply h' (request q)

module _ (r : Random) (bounded : IsBounded r) (ps : Parsers) (pr : Printers) where
  write_lem :
      (compress : List ℕ → Message) (h : Handler r ps pr) (keys : pr.Keys) (answer : Answer)
      → ((write r ps pr compress h keys answer).1.auction ≡ h.auction)
        × Written pr compress h.data_stream answer
            (write r ps pr compress h keys answer).0
            (write r ps pr compress h keys answer).1.data_stream
  unfolding write
  write_lem compress h keys (bid response) = (refl, responded response (pr.next_key keys).0)
  write_lem compress h keys no_bid = (refl, silent)
  write_lem compress h keys timed_out = (refl, late)
  write_lem compress h keys (failed e) = (refl, broken e)

  handle_read_lem :
      (n : ℕ) (compress : List ℕ → Message) (h : Handler r ps pr) (keys : pr.Keys) (body : List ℕ)
      (read : Read)
      → IsRead read
      → IsReady r n h.auction
      → n + 1 < u64_mod
      → (reply : Reply) × (h' : Handler r ps pr) × (handle_read r ps pr compress h keys body read
          ≡ some (reply, h'))
        × Handled r ps pr compress h body reply h' read
        × IsReady r (n + 1) h'.auction
  unfolding handle_read
  handle_read_lem n compress h keys body (rejected e) (is_rejected _) ready small = (
    bad_request e,
    record h { pool = keys ∷ h.pool },
    refl,
    not_read e refl refl refl,
    record {
      targets = ready.targets;
      budgets = ready.budgets;
      words = ready.words;
      tables = IsTable-suc n h.auction.campaign_lookup_pool ready.tables;
    },
  )
  handle_read_lem n compress h keys body (request q) (is_request _ item first) ready small =
      let stream = put_data compress h.data_stream body in
      let (ids, e, device', f, answer, a', g, out, ready') =
        run_auction_outcome r bounded n h.auction q item ready small first in
      let h1 : Handler r ps pr = record { auction = a'; data_stream = stream; pool = h.pool } in
      let (same, wrote) = write_lem compress h1 keys answer in
      let (reply, h') = write r ps pr compress h1 keys answer in
      (
        reply,
        h',
        rw g refl,
        auctioned q ids e device' answer f (rw same g) (rw same out) wrote,
        rw same ready',
      )

  -- If the auction is ready after `n` runs and `n + 1` is below 2 ^ 64, a bid request with any
  -- header and any body is handled without a panic, and the auction is ready again. What is no
  -- request, by the version of the header or the configured one, is answered with status 400 and
  -- changes neither the auction nor the stream. Any other is streamed and auctioned: its answer and
  -- the auction after it are those of `Run` on the request and the auction before, with the outcome
  -- that the audiences and the error of the query of its device determine, and the reply is that of
  -- the answer: the response, which is then streamed as well, no content, the configured status of
  -- timeouts, or a server error.
  pub handle_request-Handled :
      (n : ℕ) (compress : List ℕ → Message) (cfg : Config) (h : Handler r ps pr)
      (header body : List ℕ)
      → IsReady r n h.auction
      → n + 1 < u64_mod
      → (reply : Reply) × (h' : Handler r ps pr) × (handle_request r ps pr compress cfg h header
            body
          ≡ some (reply, h'))
        × Handled r ps pr compress h body reply h'
            (read_request ps cfg.open_rtb_version header body)
        × IsReady r (n + 1) h'.auction
  unfolding handle_request read_request
  handle_request-Handled n compress cfg h header body ready small =
      let (keys, pool') = get_keys r ps pr h.pool in
      let read = read_request ps cfg.open_rtb_version header body in
      let (reply, h', f, handled, ready') =
        handle_read_lem n compress (record h { pool = pool' }) keys body read
          (parse_version-IsRead ps _ body) ready small in
      (reply, h', f, again handled, ready')
    where
      again :
          {pool' : List pr.Keys} {reply : Reply} {h' : Handler r ps pr} {read : Read}
          → Handled r ps pr compress (record h { pool = pool' }) body reply h' read
          → Handled r ps pr compress h body reply h' read
      again (not_read e a b c) = not_read e a b c
      again (auctioned q ids e d answer f g a w) = auctioned q ids e d answer f g a w
