-- ===== src/Rpc/Fetcher/Calls/Retries.antt =====
-- On `batchRpcCall` of evm-ingestion/rpc/fetcher.go: failed attempts, and the time asleep.
use l1_data_tools.Common.{ℕ, zero, suc, ◌+◌, ◌≤◌, ◌<◌, ◌≢◌, List, [], ◌∷◌, arith, length, All}
use l1_data_tools.Rpc.Fetcher.Call.{
  Request, Element, Slice, no_slice, leave, leave_debug, Reply, failed, garbled, mistyped, answered,
  Verdict, retry, fail, success, judge, judge_debug, delay, settle, attempts, batch_rpc_call,
  batch_rpc_call_debug, Outcome,
}
use l1_data_tools.Rpc.Fetcher.Calls.Clean.{Quiet}

-- An attempt that is tried again, and reports no error in an element: no answer, one that is not decoded
-- as a whole, or one of another length.
pub data Transient (requests : List Request) : Reply → Type 0 where
  unanswered : Transient requests failed
  undecoded : Transient requests garbled
  misread : (ms : List Element) → All Quiet ms → Transient requests (mistyped ms)
  short :
      (ms : List Element)
      → All Quiet ms
      → length ms ≢ length requests
      → Transient requests (answered ms)

abbrev pub Ascending : List Request → Type 0
Ascending [] = Unit
Ascending (q ∷ requests) = All (λ (r : Request). q.id < r.id) requests × Ascending requests

-- The sleeps before `left` attempts.
total : ℕ → ℕ → ℕ
total zero attempt = 0
total (suc left) attempt = delay attempt + total left (suc attempt)

attempts-slept :
    (verdict : Reply → Slice → Verdict) (after : Reply → Slice → Slice) (network : ℕ → Reply)
    (left attempt : ℕ) (s : Slice)
    → (attempts verdict after network left attempt s).slept ≤ total left attempt
unfolding attempts total settle
attempts-slept verdict after network zero attempt s = omega arith
attempts-slept verdict after network (suc left) attempt s =
    go (verdict (network attempt) s) _
      (attempts-slept verdict after network left (suc attempt) (after (network attempt) s))
  where
    go :
        (v : Verdict) (later : Outcome)
        → later.slept ≤ total left (suc attempt)
        → (settle (delay attempt) v later).slept ≤ delay attempt + total left (suc attempt)
    go retry later h = omega (arith, h)
    go fail later h = omega arith
    go (success rs) later h = omega arith

-- Neither call sleeps for more than 165.5 seconds in all.
pub batch_rpc_call-slept :
    (requests : List Request) (network : ℕ → Reply)
    → ((batch_rpc_call requests network).slept ≤ 165500)
      × ((batch_rpc_call_debug requests network).slept ≤ 165500)
unfolding batch_rpc_call batch_rpc_call_debug total delay
batch_rpc_call-slept [] network = (omega arith, omega arith)
batch_rpc_call-slept (q ∷ requests) network = (
  attempts-slept (judge (q ∷ requests)) (leave (q ∷ requests)) network 21 0 no_slice,
  attempts-slept (judge_debug (q ∷ requests)) leave_debug network 21 0 no_slice,
)
