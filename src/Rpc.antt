-- ===== src/Rpc.antt =====
-- evm-ingestion/rpc: the controller of the request rate, the head tracker and the fetcher.
pub mod Controller
pub mod Heads
pub mod Fetcher
pub mod Types
pub mod Examples
