-- ===== src/Auction.antt =====
-- The auction: apps/bidder/code/auction.
pub mod Indices
pub mod Candidates
pub mod Choose
pub mod Run
pub mod Model
pub mod Start
pub mod Concurrent
pub mod Shop
mod Tests
