-- ===== src/Rpc/Fetcher.antt =====
-- evm-ingestion/rpc/fetcher.go: calls in batches with their retries, and the sliding window of
-- `StreamBlocks`.
pub mod Call
pub mod Calls
pub mod Chunks
pub mod Fetch
pub mod Single
pub mod Answers
pub mod Receipts
pub mod Traced
pub mod Assembly
pub mod Window
pub mod Flight
pub mod Steps
pub mod Order
pub mod Progress
