-- ===== src/Rpc/Examples/Fetched.antt =====
-- The theorems on `fetchSingleBlock` of evm-ingestion/rpc/fetcher.go at concrete inputs: a block with
-- one transaction, and the traces of two.
use l1_data_tools.Common.{
  ℕ, ◌↔◌, ◌≡◌, ◌≤◌, refl, ap, List, [], ◌∷◌, none, some, arith, Bytes, codes, compare_bytes, length,
  All, subst,
}
use l1_data_tools.Common.Int.{pos}
use l1_data_tools.Rpc.Fetcher.Call.{
  Param, text, Request, Element, absent, read, merge_all, Reply, answered, batch_rpc_call,
  batch_rpc_call_debug, attempts, settle, judge, judge_debug, sort_responses, insert_response,
  validate, validate_debug,
}
use l1_data_tools.Rpc.Fetcher.Chunks.{chunks_of, chunks_from}
use l1_data_tools.Rpc.Fetcher.Fetch.{
  TraceResult, Json, Network, block_request, receipt_requests, requests_from, each_response,
  each_batch, num_blocks, hash_of, set_at, replicate,
}
use l1_data_tools.Rpc.Fetcher.Single.{
  Traces, BlockTraces, no_traces, NormalizedBlock, tx_infos, store_block, store_receipt,
  store_block_traces, pick_traces, assemble_receipts, assemble_traces, receipts_of, traces_of,
  fetch_blocks_batch, fetch_receipts_batch, fetch_block_traces, fetch_traces_batch, first,
  fetch_single_block,
}
use l1_data_tools.Rpc.Fetcher.Answers.{Honest, Tells}
use l1_data_tools.Rpc.Fetcher.Receipts.{Receive}
use l1_data_tools.Rpc.Fetcher.Traced.{Distinct, assemble_traces-pick_traces}
use l1_data_tools.Rpc.Fetcher.Assembly.{block_for, fetch_single_block-Receive}

-- A block is the list of its transactions' hashes, the rest is raw text.
abbrev plain : Json
plain = record {
  Block = List Bytes;
  Receipt = Bytes;
  CallTrace = Bytes;
  zero_block = [];
  tx_hashes = λ block. block;
  read_block = λ t. some (codes "t" ∷ []);
  read_receipt = λ t. some t;
  read_trace = λ t. some t;
  read_traces = λ t. some (record { tx_hash = codes "t"; result = some t } ∷ []);
}

abbrev braces : Bytes → List Param → Bytes
braces method params = codes "{}"

abbrev message : Element
message = record { id = some (pos 0); error = absent; result = some (codes "{}") }

abbrev answers : ℕ → ℕ → Reply
answers batch attempt = answered (message ∷ [])

abbrev network : Network
network = record {
  blocks = answers;
  receipts = answers;
  block_traces = answers;
  tx_traces = λ batch round. answers batch;
}

abbrev seven : NormalizedBlock plain
seven = record {
  block = codes "t" ∷ [];
  receipts = codes "{}" ∷ [];
  traces = record { tx_hash = codes "t"; result = some (codes "{}") } ∷ [];
}

fetched : fetch_single_block plain network 1 7 ≡ some seven
unfolding fetch_single_block fetch_blocks_batch receipts_of fetch_receipts_batch traces_of
    fetch_traces_batch fetch_block_traces first tx_infos assemble_receipts assemble_traces
    pick_traces store_block store_receipt store_block_traces num_blocks requests_from
    receipt_requests chunks_of chunks_from each_batch each_response batch_rpc_call
    batch_rpc_call_debug attempts settle judge judge_debug read merge_all sort_responses
    insert_response validate validate_debug hash_of set_at replicate compare_bytes
fetched = refl

answered_inj : (xs ys : List Element) → answered xs ≡ answered ys → xs ≡ ys
answered_inj xs ys e = ap (λ r. elim r [ answered ms ↦ ms | _ ↦ [] ]) e

one-Honest : (q : Request) (i : ℕ) → Honest braces (q ∷ []) (answers i)
one-Honest q i attempt messages e =
    subst (All (Tells braces (q ∷ []))) (answered_inj (message ∷ []) messages e)
      (Tells.tells (pos 0) (codes "{}") refl refl ((λ same. refl), tt), tt)

receipt-Honest :
    (i : ℕ) → Honest braces (receipt_requests (tx_infos plain 7 0 seven.block) 0) (answers i)
unfolding receipt_requests tx_infos
receipt-Honest i =
    one-Honest
      (record {
        id = 0;
        method = codes "eth_getTransactionReceipt";
        params = text (codes "t") ∷ [];
      })
      i

fetch_single_block-Receive_example :
    (block_for plain braces 7 ≡ some seven.block)
    × Receive plain braces seven.block seven.receipts
    × (length seven.traces ≡ length seven.block)
fetch_single_block-Receive_example =
    fetch_single_block-Receive plain braces network 1 7 seven (omega arith)
      (one-Honest (block_request 7 0)) receipt-Honest fetched

abbrev two_traces : List (TraceResult Bytes)
two_traces =
    record { tx_hash = codes "t"; result = some (codes "1") }
    ∷ record { tx_hash = codes "u"; result = none }
    ∷ []

abbrev answered_traces : BlockTraces plain
answered_traces = (7, two_traces) ∷ []

two_hashes : Distinct (codes "t" ∷ codes "u" ∷ [])
unfolding compare_bytes
two_hashes = ((refl, tt), (tt, tt))

assemble_traces-pick_traces_example :
    ((2 ≤ 2) ↔ (
      (picked : Traces plain) × (pick_traces plain answered_traces
          (tx_infos plain 7 0 (codes "t" ∷ codes "u" ∷ []))
          (no_traces plain)
        ≡ some picked)))
    × ((picked : Traces plain)
        → pick_traces plain answered_traces
            (tx_infos plain 7 0 (codes "t" ∷ codes "u" ∷ []))
            (no_traces plain)
          ≡ some picked
        → assemble_traces plain picked (codes "t" ∷ codes "u" ∷ []) ≡ two_traces)
assemble_traces-pick_traces_example =
    assemble_traces-pick_traces plain 7 answered_traces two_traces refl (codes "t" ∷ codes "u" ∷ [])
      two_hashes
