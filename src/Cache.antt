-- ===== src/Cache.antt =====
-- The caches of the database: apps/bidder/code/cache.
pub mod Campaigns
pub mod Audiences
pub mod Budgets
pub mod Devices
mod Tests
