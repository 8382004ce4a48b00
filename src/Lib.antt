-- ===== src/Lib.antt =====
-- A real-time bidder on AWS: the auction that answers bid requests, the caches that it reads, the
-- handler around it, and the producer that streams requests and responses to Kinesis
-- (apps/bidder/code), with the generator of the databases' contents (tools/datagen), and what the
-- load generator (tools/load-generator) and the report aggregator (tools/report-aggregator) make
-- of their measurements.
--
-- The parts. A bid request goes through an auction (auction/auction.go), which asks the device
-- cache for the audiences of a device, the audience cache for the campaigns that target them, and
-- the campaign and budget caches (cache/) for prices and budgets. The caches are filled from the
-- database by scans, and the budgets are renewed by a loop with goroutines. Independently, the
-- producer (stream/producer/) compresses messages, batches them within the limits of a Kinesis
-- request, compiles a batch to records in the KPL format, and puts these with retries.
--
-- The files:
--
--   Common              names, tests, lists and int64 arithmetic that the other files share
--   Id, Id/Hex          id/id.go: identifiers, maps with identifiers for keys, hexadecimal text
--   Api                 database/api: Audience, Budget, Campaign, errors, IsValid, scans
--   Random              math/rand, as parameters
--   Cache/Campaigns     cache/campaign.go: GetIndex, Get, newCampaign
--   Cache/Audiences     cache/audience.go: Get, newAudience
--   Cache/Budgets       cache/budget.go: Reserve, Free, scanState; Update: start, stop, asyncUpdate
--   Cache/Devices       cache/device.go: Get, getStub
--   Auction/Candidates  getAudienceCampaigns of auction/auction.go, the lookup tables of pool.go
--   Auction/Choose      chooseCampaign; Reserve: its budgets, Rank and Winner: its choice
--   Auction/Run         Run, run, getDevice; Outcome: the answer on every branch
--   Auction/Concurrent  auctions at a time: Reserve and Free of several of them in any order; Threads: the
--                       steps of goroutines in chooseCampaign, Refines and Within: what they come to,
--                       Alone: chooseCampaign of Auction/Choose as such steps
--   Auction/Start       cache.New and auction.New; Ready, Serve: auctions from the start on
--   Producer/Size, Wire stream/producer/size.go, const.go and messages.proto
--   Producer/Batch      batch.go: tryAddMessage, reset
--   Producer/Compile    batch_compiler.go: compileBatch, compileMessages
--   Producer/Send       sendRequest and failures of flush.go
--   Producer/Flush      flush of flush.go, with the pools of pool.go
--   Producer/Aggregate  Put and aggregate of producer.go
--   Database/Bytes      encoding/binary, as the databases' formats use it
--   Database/Budgets    dynamodb/repositories/budget: unmarshalling, ItemBatchCompress and ItemBatchDecompress
--   Database/Devices    dynamodb/repositories/device/unmarshall_device.go
--   Database/LowLevel   dynamodb/low_level/get.go: getDevice, parseResponse
--   Database/DeviceRepository  Get of dynamodb/repositories/device/device.go and of aerospike/device.go
--   Database/Segments   scan.go, scan_dynamo.go and scan_dax.go of dynamodb: the workers of a scan
--   Database/Scans      the scans of database/aerospike
--   Handler/Read        bidhandler/read_request.go
--   Handler/Build       bidhandler/bidresponse.go
--   Handler/Handle      HandleRequest and the writing of responses; Safe: every request is answered
--   Datagen/Config      tools/datagen: Resolve of pkg/generator/shared.go
--   Datagen/Keys        the loop over keys of every generator
--   Datagen/Encryptor   encryptor.go, and the one of tools/load-generator/code/request_builder
--   Datagen/Audiences   AudiencesConcat and AudiencesSlice of audience.go
--   Datagen/Records     the generators of devices.go, campaign.go and audience.go; Stored: read back
--   Datagen/Budgets     budget.go: BudgetGenerator, budgetBatchCompress; Scanned: read by the bidder
--   Datagen/Index       reverseIndex of audience.go
--   Datagen/Buffer      dynamodb.go: PutBuffered, flushBuffer, flushBatchFromBuffer
--   LoadGenerator/Counts, Histogram, Metrics  tools/load-generator/code/load_generator: metrics.go, histogram.go
--   LoadGenerator/Attack  Attack and attack of attack.go: the results and errors of the workers
--   Report              tools/report-aggregator/aggregator.go: aggregateMetrics; Rank: the rank of a
--                       percentile in float64; Sums, Percentile, Whole
--   LoadGenerator/Requests  request_builder of the load generator: uuid and generateDeviceIFA
--   Auction/Model       apps/model/auction.go: Run and run behind the call of a model
--   Ksuid               ksuid/ksuid.go
--   Tests, Shop         the concrete inputs at which the theorems are applied
--
-- State is passed explicitly: a function takes the state and gives the next one. An int64 is its
-- bit pattern, a number below 2 ^ 64, and addition and subtraction wrap around. A panic of Go is
-- the result none, and a theorem that promises an answer promises that there is none. A map is an
-- association list without repeated keys. What comes from outside, such as the items of a scan,
-- the answers of Kinesis or the events that a select receives, is an argument. The update loop of
-- the budgets, the goroutines in chooseCampaign and the flushes of the data generator's buffer are
-- step relations, whose steps come in any order.
--
-- Fuel and bounds. The loop of compileBatch runs on fuel, one round for each message; this is
-- enough where every message fits in an entry, because each round then takes a message. The loop
-- over the audiences of a device has a round for each byte, which is more than it needs; the loops
-- of the data generator over keys have a round for each key, and end where the highest key is
-- below 2 ^ 64 - 1. Lookup tables number their runs with an int64; the theorems about auctions
-- take fewer than 2 ^ 64 runs. A float64 of the rank of a percentile is counted in a unit found by
-- at most 64 doublings, enough for all below 2 ^ 117, which the products of 64 and 53 bits are.
--
-- Parameters and not code: math/rand, the validation library, the JSON and UUID parsers, the
-- printers of strings, paths and prices, KSUID, protobuf marshalling, MD5, the zstd compressor,
-- the Kinesis client, AES, base64, the t-digest and the metrics of vegeta that the report
-- aggregator reads. Their documented behaviour is a named hypothesis where a theorem uses it. The
-- answers of Kinesis have the fields set that it documents, the code and message of a failed
-- record and the shard of a stored one, so that reading them through a pointer is no panic.
-- Logging, metrics, timers, the backoff between retries and the HTTP layer are not modelled. In
-- Auction/Run and Auction/Start auctions run one after the other; Auction/Concurrent has
-- chooseCampaign in steps and takes those of several auctions in any order.
pub mod Common
pub mod Producer
pub mod Id
pub mod Api
pub mod Random
pub mod Cache
pub mod Auction
pub mod Database
pub mod Handler
pub mod Datagen
pub mod LoadGenerator
pub mod Report
pub mod Ksuid
