-- ===== src/Producer.antt =====
-- The Kinesis producer: apps/bidder/code/stream/producer.
pub mod Size
pub mod Wire
pub mod Batch
pub mod Compile
pub mod Send
pub mod Flush
pub mod Aggregate
mod Tests
