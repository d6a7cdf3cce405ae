-- ===== src/Rpc/Fetcher/Call.antt =====
-- evm-ingestion/rpc/fetcher.go: `batchRpcCall` and `batchRpcCallDebug`.
use l1_data_tools.Common.{
  ℕ, zero, suc, ◌+◌, ◌*◌, ◌^◌, Bool, true, false, not, List, [], ◌∷◌, Option, none, some, Bytes,
  length, ltb, drop, ◌++◌, ◌==◌, min, if◌then◌else◌,
}
use l1_data_tools.Common.Int.{ℤ, pos, negsuc}

-- The values among the parameters of a request: a text, a flag, or the map that names the tracer.
pub data Param : Type 0 where
  text : Bytes → Param
  flag : Bool → Param
  tracer : Bytes → Param

-- `JSONRPCRequest` but for the version.
pub record Request : Type 0 where
  pub id : ℕ
  pub method : Bytes
  pub params : List Param

-- The fields of `JSONRPCResponse` that the calls read: the id, the message of the error, and the raw
-- result.
pub record Response : Type 0 where
  pub id : ℤ
  pub error : Option Bytes
  pub result : Bytes

-- The key "error" of an element of an answer: it is not there, it is null, or it is an object, with its
-- message where it has one.
pub data ErrorField : Type 0 where
  absent : ErrorField
  cleared : ErrorField
  reported : Option Bytes → ErrorField

-- What an element of an answer says, as far as it is of the type of its field.
pub record Element : Type 0 where
  pub id : Option ℤ
  pub error : ErrorField
  pub result : Option Bytes

-- What one attempt ends with: the request cannot be made, no answer comes, the answer is no JSON or no
-- array, it has a value of another type than its field, or it is decoded. null counts as the empty array.
pub data Reply : Type 0 where
  unsent : Reply
  failed : Reply
  garbled : Reply
  mistyped : List Element → Reply
  answered : List Element → Reply

-- The slice `responses`, which all attempts decode into: its elements, and those beyond its length that
-- its array has kept.
pub record Slice : Type 0 where
  pub responses : List Response
  pub spare : List Response

abbrev pub no_slice : Slice
no_slice = record { responses = []; spare = [] }

abbrev pub no_response : Response
no_response = record { id = pos 0; error = none; result = [] }

abbrev pub or_else {ℓ} : {A : Type ℓ} → Option A → A → A
or_else none old = old
or_else (some new) old = new

abbrev pub read_error : ErrorField → Option Bytes → Option Bytes
read_error absent old = old
read_error cleared old = none
read_error (reported (some message)) old = some message
read_error (reported none) none = some []
read_error (reported none) (some message) = some message

-- An element is decoded into the response that is there: what it does not say stays.
abbrev pub merge : Element → Response → Response
merge m r = record {
  id = or_else m.id r.id;
  error = read_error m.error r.error;
  result = or_else m.result r.result;
}

unfoldable pub merge_all : List Element → List Response → List Response
merge_all [] old = []
merge_all (m ∷ ms) [] = merge m no_response ∷ merge_all ms []
merge_all (m ∷ ms) (r ∷ old) = merge m r ∷ merge_all ms old

-- `decoder.Decode(&responses)` of an array. For an empty one a new slice is made.
unfoldable pub read : List Element → Slice → Slice
unfolding merge_all
read [] s = no_slice
read (m ∷ ms) s = record {
  responses = merge_all (m ∷ ms) (s.responses ++ s.spare);
  spare = drop (length (m ∷ ms)) (s.responses ++ s.spare);
}

pub data Verdict : Type 0 where
  retry : Verdict
  fail : Verdict
  success : List Response → Verdict

abbrev pub id_lt : ℤ → ℤ → Bool
id_lt (pos m) (pos n) = ltb m n
id_lt (pos m) (negsuc n) = false
id_lt (negsuc m) (pos n) = true
id_lt (negsuc m) (negsuc n) = ltb n m

abbrev pub id_is : ℤ → ℕ → Bool
id_is (pos m) n = m == n
id_is (negsuc m) n = false

-- `sort.Slice` by the id; equal ids keep their order.
unfoldable pub insert_response : Response → List Response → List Response
insert_response r [] = r ∷ []
insert_response r (s ∷ rest) =
    let later = insert_response r rest in if id_lt s.id r.id then s ∷ later else r ∷ s ∷ rest

unfoldable pub sort_responses : List Response → List Response
unfolding insert_response
sort_responses [] = []
sort_responses (r ∷ rs) = insert_response r (sort_responses rs)

-- The loop that validates the sorted responses, one after another: a wrong id asks for a retry; an
-- error or an empty result ends the call. `all` is the slice.
unfoldable pub validate : List Response → List Request → List Response → Verdict
validate all (q ∷ requests) (r ∷ responses) =
    let rest = validate all requests responses in
    if not (id_is r.id q.id)
    then retry
    else elim r.error [ some message ↦ fail | none ↦ (if length r.result == 0 then fail else rest) ]
validate all requests responses = success all

unfoldable pub validate_debug : List Response → List Request → List Response → Verdict
validate_debug all (q ∷ requests) (r ∷ responses) =
    let rest = validate_debug all requests responses in
    if not (id_is r.id q.id) then retry else rest
validate_debug all requests responses = success all

-- How an attempt ends, given the slice as the earlier attempts have left it.
unfoldable pub judge : List Request → Reply → Slice → Verdict
unfolding read
judge requests unsent s = fail
judge requests failed s = retry
judge requests garbled s = retry
judge requests (mistyped messages) s = retry
judge requests (answered messages) s =
    let responses = (read messages s).responses in
    if length responses == length requests
    then validate (sort_responses responses) requests (sort_responses responses)
    else retry

unfoldable pub judge_debug : List Request → Reply → Slice → Verdict
unfolding read
judge_debug requests unsent s = fail
judge_debug requests failed s = retry
judge_debug requests garbled s = retry
judge_debug requests (mistyped messages) s = retry
judge_debug requests (answered messages) s =
    let sorted = sort_responses (read messages s).responses in
    if length sorted == length requests then validate_debug sorted requests sorted else retry

unfoldable pub sorted_slice : Slice → Slice
sorted_slice s = record s { responses = sort_responses s.responses }

-- The slice that an attempt leaves to the next: only an answer of the right length is sorted.
unfoldable pub leave : List Request → Reply → Slice → Slice
unfolding read sorted_slice
leave requests (mistyped messages) s = read messages s
leave requests (answered messages) s =
    if length (read messages s).responses == length requests
    then sorted_slice (read messages s)
    else read messages s
leave requests reply s = s

unfoldable pub leave_debug : Reply → Slice → Slice
unfolding read sorted_slice
leave_debug (mistyped messages) s = read messages s
leave_debug (answered messages) s = sorted_slice (read messages s)
leave_debug reply s = s

-- consts.FetcherMaxRetries; times are in milliseconds, with consts.FetcherRetryDelay the first.
abbrev pub max_retries : ℕ
max_retries = 20

abbrev pub max_delay : ℕ
max_delay = 10000

-- The sleep before an attempt.
unfoldable pub delay : ℕ → ℕ
delay zero = 0
delay (suc attempt) = min (500 * 2 ^ attempt) max_delay

-- What a call returns, `none` for an error, and how long it slept.
pub record Outcome : Type 0 where
  pub responses : Option (List Response)
  pub slept : ℕ

unfoldable pub settle : ℕ → Verdict → Outcome → Outcome
settle wait retry later = record { responses = later.responses; slept = wait + later.slept }
settle wait fail later = record { responses = none; slept = wait }
settle wait (success rs) later = record { responses = some rs; slept = wait }

module _ (verdict : Reply → Slice → Verdict) (after : Reply → Slice → Slice)
    (network : ℕ → Reply) where
  -- The loop from the number `attempt` on, with `left` attempts to go.
  unfoldable pub attempts : ℕ → ℕ → Slice → Outcome
  attempts zero attempt s = record { responses = none; slept = 0 }
  attempts (suc left) attempt s =
      settle (delay attempt) (verdict (network attempt) s)
        (attempts left (suc attempt) (after (network attempt) s))

-- `network` says how each attempt ends. No request holds a value that `json.Marshal` refuses.
unfoldable pub batch_rpc_call : List Request → (ℕ → Reply) → Outcome
batch_rpc_call [] network = record { responses = some []; slept = 0 }
batch_rpc_call (q ∷ requests) network =
    attempts (judge (q ∷ requests)) (leave (q ∷ requests)) network (suc max_retries) 0 no_slice

unfoldable pub batch_rpc_call_debug : List Request → (ℕ → Reply) → Outcome
batch_rpc_call_debug [] network = record { responses = some []; slept = 0 }
batch_rpc_call_debug (q ∷ requests) network =
    attempts (judge_debug (q ∷ requests)) leave_debug network (suc max_retries) 0 no_slice
