-- ===== src/Rpc/Fetcher/Fetch.antt =====
-- evm-ingestion/rpc/fetcher.go: the requests for blocks, receipts and traces, and the loops over their batches.
-- The batches of one kind run as goroutines in the code, and write to different indexes or under different
-- hashes; here they run in their order. The first error is the error of all, as there.
use l1_data_tools.Common.{
  ℕ, zero, suc, ◌+◌, ◌^◌, Bool, true, List, [], ◌∷◌, Option, none, some, ◌>>=◌, Bytes, codes,
  bytes_eq, get_elem?, add64, sub64, ltb, if◌then◌else◌,
}
use l1_data_tools.Common.Int.{ℤ, pos, negsuc}
use l1_data_tools.Hex.{print_hex}
use l1_data_tools.Rpc.Heads.{contains}
use l1_data_tools.Rpc.Fetcher.Call.{Param, text, flag, tracer, Request, Response, Reply}

-- `TraceResultOptional`, over the type of the traces.
pub record TraceResult (CallTrace : Type 0) : Type 0 where
  pub tx_hash : Bytes
  pub result : Option CallTrace

-- The types of the answers, and how `StrictUnmarshal` reads them. Of a block the code itself reads the
-- hashes of its transactions.
pub record Json : Type 1 where
  pub Block : Type 0
  pub Receipt : Type 0
  pub CallTrace : Type 0
  pub zero_block : Block
  pub tx_hashes : Block → List Bytes
  pub read_block : Bytes → Option Block
  pub read_receipt : Bytes → Option Receipt
  pub read_trace : Bytes → Option CallTrace
  pub read_traces : Bytes → Option (List (TraceResult CallTrace))

-- `txInfo`.
pub record TxInfo : Type 0 where
  pub hash : Bytes
  pub block_num : ℕ
  pub block_idx : ℕ
  pub tx_idx : ℕ

-- How the attempts of each call end: by the number of the batch and of the attempt; for the traces of
-- transactions there are attempts of the whole call besides. A call that `Execute` does not start is
-- one that cannot be sent.
pub record Network : Type 0 where
  pub blocks : ℕ → ℕ → Reply
  pub receipts : ℕ → ℕ → Reply
  pub block_traces : ℕ → ℕ → Reply
  pub tx_traces : ℕ → ℕ → ℕ → Reply

-- consts.FetcherBatchSize.
abbrev pub batch_size : ℕ
batch_size = 50

module _ {S : Type 0} (step : Response → S → Option S) where
  -- The loop over the responses of a batch; `none` is an error.
  unfoldable pub each_response : List Response → S → Option S
  each_response [] s = some s
  each_response (response ∷ responses) s = do next ← step response s; each_response responses next

  unfoldable pub each_batch :
      (ℕ → List Request → Option (List Response)) → ℕ → List (List Request) → S → Option S
  unfolding each_response
  each_batch call idx [] s = some s
  each_batch call idx (requests ∷ batches) s = do
    responses ← call idx requests
    next ← each_response responses s
    each_batch call (suc idx) batches next

-- `int(to - from + 1)`, where a slice of that length can be made.
unfoldable pub num_blocks : ℕ → ℕ → Option ℕ
num_blocks from to =
    if ltb (add64 (sub64 to from) 1) (2 ^ 63) then some (add64 (sub64 to from) 1) else none

abbrev pub block_number : ℕ → ℕ → Param
block_number from i = text (print_hex (add64 from i))

abbrev pub block_request : ℕ → ℕ → Request
block_request from i = record {
  id = i;
  method = codes "eth_getBlockByNumber";
  params = block_number from i ∷ flag true ∷ [];
}

abbrev pub block_trace_request : ℕ → ℕ → Request
block_trace_request from i = record {
  id = i;
  method = codes "debug_traceBlockByNumber";
  params = block_number from i ∷ tracer (codes "callTracer") ∷ [];
}

-- A request for each index, `count` of them from `i` on.
unfoldable pub requests_from : (ℕ → Request) → ℕ → ℕ → List Request
requests_from request i zero = []
requests_from request i (suc count) = request i ∷ requests_from request (i + 1) count

unfoldable pub receipt_requests : List TxInfo → ℕ → List Request
receipt_requests [] i = []
receipt_requests (tx ∷ txs) i =
    record { id = i; method = codes "eth_getTransactionReceipt"; params = text tx.hash ∷ [] }
    ∷ receipt_requests txs (i + 1)

unfoldable pub trace_requests : List TxInfo → ℕ → List Request
trace_requests [] i = []
trace_requests (tx ∷ txs) i =
    record {
      id = i;
      method = codes "debug_traceTransaction";
      params = text tx.hash ∷ tracer (codes "callTracer") ∷ [];
    }
    ∷ trace_requests txs (i + 1)

-- `txHashToIdx[resp.ID]`; a missing key gives the empty text.
unfoldable pub hash_of : List TxInfo → ℤ → Bytes
hash_of txs (negsuc i) = []
hash_of txs (pos i) = elim (get_elem? txs i) [ none ↦ [] | some tx ↦ tx.hash ]

abbrev pub put {ℓ} : {A : Type ℓ} → Bytes → A → (Bytes → Option A) → Bytes → Option A
put k v m j = if bytes_eq k j then some v else m j

-- `xs[i] = x`; `none` is the panic.
unfoldable pub set_at {ℓ} : {A : Type ℓ} → List A → ℕ → A → Option (List A)
set_at [] i x = none
set_at (y ∷ ys) zero x = some (x ∷ ys)
set_at (y ∷ ys) (suc i) x = do rest ← set_at ys i x; some (y ∷ rest)

unfoldable pub replicate {ℓ} : {A : Type ℓ} → ℕ → A → List A
replicate zero x = []
replicate (suc n) x = x ∷ replicate n x

unfoldable pub is_precompile_error : Bytes → Bool
is_precompile_error msg = contains (codes "incorrect number of top-level calls") msg
