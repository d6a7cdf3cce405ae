-- ===== src/Storage.antt =====
-- evm-ingestion/storage: the keys, the batches, the interface `Storage` and its two
-- implementations, and the compactor.
pub mod Keys
pub mod Batch
pub mod Interface
pub mod Pebble
pub mod VersionDb
pub mod Memory
pub mod Sorted
pub mod Compactor
pub mod Sample
pub mod Examples
