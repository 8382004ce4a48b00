-- ===== src/Handler.antt =====
-- The HTTP handler of bid requests: apps/bidder/code/bidhandler.
pub mod Read
pub mod Build
pub mod Handle
pub mod Safe
mod Tests
