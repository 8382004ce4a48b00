-- ===== src/Handler/Handle.antt =====
-- bidhandler/{bidhandler,write_response,pool}.go of apps/bidder/code: a bid request is read, streamed and
-- auctioned, and the answer is written; and `PutRequest` and `PutResponse` of stream/stream.go. `none` is
-- a panic.
use guidance_for_building_a.Common.{ℕ, List, [], ◌∷◌, Option, none, some, ◌>>=◌}
use guidance_for_building_a.Api.{Error}
use guidance_for_building_a.Random.{Random}
use guidance_for_building_a.Producer.Size.{Message}
use guidance_for_building_a.Producer.Aggregate.{put, enqueued, record_size_exceeded}
use guidance_for_building_a.Auction.Run.{
  Auction, Answer, bid, no_bid, timed_out, failed, run_auction,
}
use guidance_for_building_a.Handler.Read.{Parsers, ReadError, Read, request, rejected, read_request}
use guidance_for_building_a.Handler.Build.{Printers, build_response}

pub record Config : Type 0 where
  pub open_rtb_version : List ℕ
  pub timeout_status : ℕ

-- What the context of fasthttp is left with: an error, a status, or a body with status 200.
pub data Reply : Type 0 where
  bad_request : ReadError → Reply
  no_content : Reply
  timeout_status : Reply
  server_error : Error → Reply
  success : List ℕ → Reply

unfoldable pub status : Config → Reply → ℕ
status cfg (bad_request e) = 400
status cfg no_content = 204
status cfg timeout_status = cfg.timeout_status
status cfg (server_error e) = 500
status cfg (success body) = 200

-- `PutRequest` and `PutResponse`: without a producer, or where it refuses the data, the input
-- channel stays as it is. (The error is logged only.)
unfoldable pub put_data :
    (List ℕ → Message) → Option (List Message) → List ℕ → Option (List Message)
put_data compress none bytes = none
put_data compress (some input_chan) bytes = elim (put compress input_chan bytes) [
  | enqueued input_chan' ↦ some input_chan'
  | record_size_exceeded ↦ some input_chan
]

module _ (r : Random) (ps : Parsers) (pr : Printers) where
  -- `Handler`, with its auction, the input channel of its stream and its pool.
  pub record Handler : Type 0 where
    pub auction : Auction r
    pub data_stream : Option (List Message)
    pub pool : List pr.Keys

  -- `pool.Get`, of the KSUID sequence
  unfoldable pub get_keys : List pr.Keys → pr.Keys × List pr.Keys
  get_keys [] = (pr.new_keys, [])
  get_keys (k ∷ pool) = (k, pool)

  -- `writeResponseError`, and the response where there is no error.
  unfoldable pub write : (List ℕ → Message) → Handler → pr.Keys → Answer → Reply × Handler
  write compress h keys (bid response) =
      let (key, keys') = pr.next_key keys in
      let body = build_response pr response.request.open_rtb_version response key in
      (
        success body,
        record h { data_stream = put_data compress h.data_stream body; pool = keys' ∷ h.pool },
      )
  write compress h keys no_bid = (no_content, record h { pool = keys ∷ h.pool })
  write compress h keys timed_out = (timeout_status, record h { pool = keys ∷ h.pool })
  write compress h keys (failed e) = (server_error e, record h { pool = keys ∷ h.pool })

  -- `HandleRequest` once the request is read.
  unfoldable pub handle_read :
      (List ℕ → Message) → Handler → pr.Keys → List ℕ → Read → Option (Reply × Handler)
  handle_read compress h keys body (rejected e) =
      some (bad_request e, record h { pool = keys ∷ h.pool })
  handle_read compress h keys body (request q) = do
    let h' = record h { data_stream = put_data compress h.data_stream body }
    (answer, auction') ← run_auction r h'.auction q
    some (write compress (record h' { auction = auction' }) keys answer)

  -- `HandleRequest`, of a header and a body
  unfoldable pub handle_request :
      (List ℕ → Message) → Config → Handler → List ℕ → List ℕ → Option (Reply × Handler)
  handle_request compress cfg h header body =
      let (keys, pool') = get_keys h.pool in
      handle_read compress (record h { pool = pool' }) keys body
        (read_request ps cfg.open_rtb_version header body)
