-- ===== src/Database.antt =====
-- How items are read from the databases: apps/bidder/code/database/dynamodb and aerospike.
pub mod Bytes
pub mod Consumer
pub mod Budgets
pub mod Devices
pub mod LowLevel
pub mod DeviceRepository
pub mod Segments
pub mod Scans
mod Tests
