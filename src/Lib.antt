-- ===== src/Lib.antt =====
-- A verification library for l1-data-tools: the ingestion of the blocks of an EVM chain, their
-- storage and compaction, and the stream of blocks from the server to its clients.
--
-- The parts of the program, and how they interact. `evm-ingestion/main.go` reads blocks in order from
-- the fetcher (`evm-ingestion/rpc`) and saves each in a storage (`evm-ingestion/storage`), and tells
-- the server (`evm-ingestion/api`) the latest number. The compactor moves the oldest blocks, a hundred
-- at a time, into compressed batches of the same storage. The server sends each client
-- (`evm-ingestion-client`) single blocks or whole batches, and the client filters what it asked for.
-- The fetcher takes tokens from the controller, which adapts the number of parallel requests, and
-- the newest block number from the head tracker. `indexing-subnet-evm` does without a fetcher: a virtual
-- machine that saves each block in the same storage, over the database of the chain, as the block is
-- accepted.
--
-- Which file models what:
--   Storage/Keys          the keys of evm-ingestion/storage/pebble.go: blockKey, batchKey, parseBlockKey,
--                         parseBatchKey, with fmt.Sscanf and strconv.ParseUint as they are used there
--   Storage/Batch         evm-ingestion/storage/batch.go: BatchStart, BatchEnd, CompressBlocks,
--                         DecompressBlocks
--   Storage/Interface     evm-ingestion/storage/interface.go: Storage as a record of operations on a
--                         state, and the laws that its clients take as hypotheses
--   Storage/Pebble        evm-ingestion/storage/pebble.go: each method of PebbleStorage
--   Storage/VersionDb     evm-ingestion/storage/versiondb.go: each method of VersionDBStorage
--   Storage/Compactor     evm-ingestion/storage/compactor.go: compactOneBatch, compactAll, run
--   Storage/Memory, Storage/Sorted, Storage/Sample   instances of the parameters, for the examples
--   Api                   evm-ingestion/api/server.go: UpdateLatestBlock, the parameter of handleWS, and
--                         one round of streamBlocks
--   Client                evm-ingestion-client/client.go: readPack and Stream; Client/Feed puts a
--                         server and a client together, Client/Reconnect any number of connections
--   Client/Example        evm-ingestion-client/example/main.go: streamBlocks and main
--   Rpc/Controller        evm-ingestion/rpc/controller.go: NewController, Acquire, Release, RecordMetric,
--                         Execute, P95Latency, adjust
--   Rpc/Heads             evm-ingestion/rpc/heads.go: NewHeadTracker, Start, fetchBlockNumberRPC,
--                         runWebSocket, connectAndSubscribe
--   Rpc/Fetcher           evm-ingestion/rpc/fetcher.go: batchRpcCall, batchRpcCallDebug, chunksOf,
--                         StreamBlocks, fetchSingleBlock, fetchBlocksBatch, fetchReceiptsBatch,
--                         fetchTracesBatch
--   Ingestion             evm-ingestion/main.go: runIngestion, parseBlockNumber, formatDuration
--   Subnet/Types, Subnet/Marshal   indexing-subnet-evm/marshal.go: blocks, transactions and receipts
--   Subnet/Index          indexing-subnet-evm/indexer.go: indexBlock, updateStats
--   Subnet/Accept         indexing-subnet-evm/block.go and vm.go: Accept and Initialize. The database in
--                         memory and what is committed of it are two fields of the state
--   Subnet/Validate       indexing-subnet-evm/validate.go: validateAfterBootstrap, fetchBlockViaRPC
--   Settings              evm-ingestion/main.go: the settings from the environment, fetchChainID, and main
--                         up to the first block
--   Pipeline              evm-ingestion/main.go: the loop and the compactor on one storage, with each write
--                         of the compactor a step of its own, and the server and its clients on top
--   Rpc/Types             evm-ingestion/rpc/types.go: the structs of blocks, receipts and traces, and
--                         reading and writing them as documents
--   Hex                   strconv.ParseUint in base 16 and the verb %x
--   Common                tests, lists, byte strings and machine words that the parts share
--
-- Parameters: zstd (a codec whose decoder undoes its encoder), pebble (an ordered map) and
-- avalanchego's database, encoding/json, what the chain of subnet-evm answers, and the floating-
-- point steps of the controller. A method that can fail returns an option, `none` for an error, and
-- the theorems hold wherever errors strike. A uint64 is a natural number with its wrap-around
-- written out, and so is the int32 of the parallelism; where a theorem needs numbers away from 2^64 it says so.
--
-- Loops are structural: over a list of messages, blocks or rounds, or over a bound that the code gives
-- (21 attempts of a call, 100 blocks of a batch). The loop that fills the window has as many rounds as
-- there are numbers up to the head, and that of chunksOf as many as there are items, which are
-- enough since each round moves its position. The loop of compactAll takes its number of rounds, and
-- Storage/VersionDb/Ends is about the number that is enough. 16 digits are enough for a uint64.
--
-- The batches of a fetch are goroutines, which write to different places; here they run in their order.
--
-- In the types of evm-ingestion/rpc/types.go a key is matched regardless of the case of its ASCII letters.
-- The attempts of a call decode their answers into one slice, as encoding/json does: what an element of
-- an answer does not say stays as it was.
--
-- A round of the server reads one state of the storage. The steps of the compactor (Pipeline) read the
-- hundred blocks at once, and do without the test of the number of blocks, which makes them more.
--
-- Not modelled: the period of the timers, metrics, logging, the files and ports, and the text of JSON.
-- Of the virtual machine: Shutdown, the methods that only wrap what they return, and the
-- reflection on its fields.
pub mod Common
pub mod Hex
pub mod Storage
pub mod Api
pub mod Client
pub mod Rpc
pub mod Ingestion
pub mod Pipeline
pub mod Settings
pub mod Subnet
