-- ===== src/Datagen.antt =====
-- The generator of the databases' contents: tools/datagen.
pub mod Config
pub mod Keys
pub mod Encryptor
pub mod Audiences
pub mod Records
pub mod Budgets
pub mod Index
pub mod Buffer
mod Tests
