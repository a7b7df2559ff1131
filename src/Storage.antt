-- ===== src/Storage.antt =====
-- The storage of one user: syncstorage/*.go over a SQLite database.
pub mod Checks
pub mod Data
pub mod Driver
pub mod Keys
pub mod Bso
pub mod Erase
pub mod Collections
pub mod Search
pub mod Batch
pub mod Info
pub mod Open
pub mod Usage
pub mod Operation
