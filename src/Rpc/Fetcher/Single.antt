-- ===== src/Rpc/Fetcher/Single.antt =====
-- evm-ingestion/rpc/fetcher.go: `fetchBlocksBatch`, `fetchReceiptsBatch`, `fetchTracesBatch` and
-- `fetchSingleBlock`.
use l1_data_tools.Common.{
  ℕ, zero, suc, ◌+◌, Bool, true, false, not, List, [], ◌∷◌, Option, none, some, ◌>>=◌, Bytes,
  get_elem?, add64, ◌==◌, ◌||◌, if◌then◌else◌,
}
use l1_data_tools.Common.Int.{ℤ, pos, negsuc}
use l1_data_tools.Rpc.Fetcher.Call.{Response, max_retries, batch_rpc_call, batch_rpc_call_debug}
use l1_data_tools.Rpc.Fetcher.Chunks.{chunks_of}
use l1_data_tools.Rpc.Fetcher.Fetch.{
  TraceResult, Json, TxInfo, Network, batch_size, each_batch, num_blocks, block_request,
  block_trace_request, requests_from, receipt_requests, trace_requests, hash_of, put, set_at,
  replicate, is_precompile_error,
}

module _ (j : Json) where
  -- `blocks[resp.ID] = block`.
  abbrev pub write_at : List j.Block → ℤ → j.Block → Option (List j.Block)
  write_at blocks (pos i) block = set_at blocks i block
  write_at blocks (negsuc i) block = none

  unfoldable pub store_block : Response → List j.Block → Option (List j.Block)
  store_block resp blocks = do block ← j.read_block resp.result; write_at blocks resp.id block

  abbrev pub Receipts : Type 0
  Receipts = Bytes → Option j.Receipt

  unfoldable pub store_receipt : List TxInfo → Response → Receipts → Option Receipts
  store_receipt txs resp receipts = do
    receipt ← j.read_receipt resp.result
    some (put (hash_of txs resp.id) receipt receipts)

  abbrev pub Traces : Type 0
  Traces = Bytes → Option (TraceResult j.CallTrace)

  -- Traces by the number of their block.
  abbrev pub BlockTraces : Type 0
  BlockTraces = List (ℕ × List (TraceResult j.CallTrace))

  unfoldable pub store_block_traces : ℕ → Response → BlockTraces → Option BlockTraces
  store_block_traces from resp found = elim resp.error [
    | some message ↦ none
    | none ↦ elim resp.id [
      | pos i ↦ (do traces ← j.read_traces resp.result; some ((add64 from i, traces) ∷ found))
      | negsuc i ↦ none
    ]
  ]

  unfoldable pub store_trace : List TxInfo → Response → Traces → Option Traces
  store_trace txs resp traces = elim resp.error [
    | some message ↦
        (if is_precompile_error message
          then some (
              put (hash_of txs resp.id) (record { tx_hash = hash_of txs resp.id; result = none })
                traces)
          else none)
    | none ↦ (do
      trace ← j.read_trace resp.result
      some (
          put (hash_of txs resp.id) (record { tx_hash = hash_of txs resp.id; result = some trace })
            traces))
  ]

  abbrev has_retryable_error : List Response → Bool
  has_retryable_error [] = false
  has_retryable_error (resp ∷ responses) =
      (elim resp.error [ some message ↦ not (is_precompile_error message) | none ↦ false ])
      || has_retryable_error responses

  -- The attempts of a whole call, `left` of them to go, without the sleep before each; `last` is what the
  -- one before ended with.
  unfoldable pub trace_attempts :
      (ℕ → Option (List Response)) → ℕ → ℕ → Option (List Response) → Option (List Response)
  trace_attempts call zero attempt last = last
  trace_attempts call (suc left) attempt last = elim (call attempt) [
    | none ↦ trace_attempts call left (suc attempt) none
    | some responses ↦ elim (has_retryable_error responses) [
      | true ↦ trace_attempts call left (suc attempt) (some responses)
      | false ↦ some responses
    ]
  ]

  abbrev pub lookup : ℕ → BlockTraces → Option (List (TraceResult j.CallTrace))
  lookup n [] = none
  lookup n ((m, traces) ∷ found) = let rest = lookup n found in if n == m then some traces else rest

  -- The loop that takes each transaction's trace out of its block's.
  unfoldable pub pick_traces : BlockTraces → List TxInfo → Traces → Option Traces
  pick_traces found [] traces = some traces
  pick_traces found (tx ∷ txs) traces = do
    of_block ← lookup tx.block_num found
    trace ← get_elem? of_block tx.tx_idx
    pick_traces found txs (put tx.hash trace traces)

  -- The loop that assembles the receipts; a missing one is an error.
  unfoldable pub assemble_receipts : Receipts → List Bytes → Option (List j.Receipt)
  assemble_receipts receipts [] = some []
  assemble_receipts receipts (hash ∷ hashes) = do
    receipt ← receipts hash
    rest ← assemble_receipts receipts hashes
    some (receipt ∷ rest)

  -- A missing trace is one without a result.
  abbrev trace_or_empty : Bytes → Option (TraceResult j.CallTrace) → TraceResult j.CallTrace
  trace_or_empty hash none = record { tx_hash = hash; result = none }
  trace_or_empty hash (some trace) = trace

  unfoldable pub assemble_traces : Traces → List Bytes → List (TraceResult j.CallTrace)
  assemble_traces traces [] = []
  assemble_traces traces (hash ∷ hashes) =
      trace_or_empty hash (traces hash) ∷ assemble_traces traces hashes

  abbrev pub no_traces : Traces
  no_traces hash = none

  abbrev no_receipts : Receipts
  no_receipts hash = none

  -- The infos of a block's transactions, from the index `i` on.
  unfoldable pub tx_infos : ℕ → ℕ → List Bytes → List TxInfo
  tx_infos block_num i [] = []
  tx_infos block_num i (hash ∷ hashes) =
      record { hash = hash; block_num = block_num; block_idx = 0; tx_idx = i }
      ∷ tx_infos block_num (i + 1) hashes

  -- The loop over a negative number makes no round.
  abbrev or_zero : Option ℕ → ℕ
  or_zero none = 0
  or_zero (some n) = n

  -- `NormalizedBlock`.
  pub record NormalizedBlock : Type 0 where
    pub block : j.Block
    pub receipts : List j.Receipt
    pub traces : List (TraceResult j.CallTrace)

  module _ (net : Network) (debug_batch_size : ℕ) where
    unfoldable pub fetch_blocks_batch : ℕ → ℕ → Option (List j.Block)
    unfolding store_block
    fetch_blocks_batch from to = do
      count ← num_blocks from to
      batches ← chunks_of (requests_from (block_request from) 0 count) batch_size
      each_batch store_block (λ idx requests. (batch_rpc_call requests (net.blocks idx)).responses)
          0 batches (replicate count j.zero_block)

    unfoldable pub fetch_receipts_batch : List TxInfo → Option Receipts
    unfolding store_receipt
    fetch_receipts_batch txs = do
      batches ← chunks_of (receipt_requests txs 0) batch_size
      each_batch (store_receipt txs)
          (λ idx requests. (batch_rpc_call requests (net.receipts idx)).responses) 0 batches
          no_receipts

    -- The traces by block; `none`: some batch did not succeed.
    unfoldable pub fetch_block_traces : ℕ → ℕ → Option BlockTraces
    unfolding store_block_traces
    fetch_block_traces from to = do
      batches ←
          chunks_of (requests_from (block_trace_request from) 0 (or_zero (num_blocks from to)))
            debug_batch_size
      each_batch (store_block_traces from)
          (λ idx requests. (batch_rpc_call_debug requests (net.block_traces idx)).responses) 0
          batches []

    -- The fallback.
    unfoldable pub fetch_tx_traces : List TxInfo → Option Traces
    unfolding store_trace trace_attempts
    fetch_tx_traces txs = do
      batches ← chunks_of (trace_requests txs 0) debug_batch_size
      each_batch (store_trace txs)
          (λ idx requests.
            trace_attempts
              (λ attempt. (batch_rpc_call_debug requests (net.tx_traces idx attempt)).responses)
              (suc max_retries) 0 none)
          0 batches no_traces

    unfoldable pub fetch_traces_batch : ℕ → ℕ → List TxInfo → Option Traces
    unfolding fetch_block_traces fetch_tx_traces pick_traces
    fetch_traces_batch from to txs = elim (fetch_block_traces from to) [
      | some found ↦ pick_traces found txs no_traces
      | none ↦ fetch_tx_traces txs
    ]

    -- The receipts and the traces are asked for only if there are transactions.
    unfoldable pub receipts_of : List TxInfo → Option Receipts
    unfolding fetch_receipts_batch
    receipts_of [] = some no_receipts
    receipts_of (tx ∷ txs) = fetch_receipts_batch (tx ∷ txs)

    unfoldable pub traces_of : ℕ → List TxInfo → Option Traces
    unfolding fetch_traces_batch
    traces_of block_num [] = some no_traces
    traces_of block_num (tx ∷ txs) = fetch_traces_batch block_num block_num (tx ∷ txs)

    unfoldable pub first : List j.Block → Option j.Block
    first [] = none
    first (block ∷ blocks) = some block

    unfoldable pub fetch_single_block : ℕ → Option NormalizedBlock
    unfolding fetch_blocks_batch receipts_of traces_of assemble_receipts assemble_traces tx_infos
        first
    fetch_single_block block_num = do
      blocks ← fetch_blocks_batch block_num block_num
      block ← first blocks
      receipts ← receipts_of (tx_infos block_num 0 (j.tx_hashes block))
      traces ← traces_of block_num (tx_infos block_num 0 (j.tx_hashes block))
      assembled ← assemble_receipts receipts (j.tx_hashes block)
      some (record {
        block = block;
        receipts = assembled;
        traces = assemble_traces traces (j.tx_hashes block);
      })
