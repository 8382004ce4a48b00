-- ===== src/LoadGenerator.antt =====
-- The load generator: tools/load-generator.
pub mod Counts
pub mod Histogram
pub mod Metrics
pub mod Attack
pub mod Requests
mod Tests
