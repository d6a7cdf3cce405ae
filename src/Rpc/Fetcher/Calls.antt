-- ===== src/Rpc/Fetcher/Calls.antt =====
-- On `batchRpcCall` of evm-ingestion/rpc/fetcher.go: what it returns.
pub mod Shuffle
pub mod Clean
pub mod Retries
pub mod Stale
use l1_data_tools.Common.{
  ℕ, zero, suc, ◌+◌, ◌≤◌, ◌<◌, ◌≡◌, ◌≢◌, ◌⊎◌, inl, inr, refl, sym, ap, ◌∙◌, Bool, true, false, not,
  List, [], ◌∷◌, Option, none, some, arith, Bytes, length, ltb, ◌==◌, if◌then◌else◌, Bool-cases,
  Option-cases, subst, All, ◌++◌,
}
use mathlib.Core.Option.{some_inj}
use l1_data_tools.Common.Int.{ℤ, pos, negsuc}
use l1_data_tools.Rpc.Fetcher.Call.{
  Request, Response, Element, merge, merge_all, read, Slice, no_slice, no_response, leave, Reply,
  unsent, failed, garbled, mistyped, answered, Verdict, retry, fail, success, id_lt, id_is,
  sort_responses, validate, judge, max_retries, max_delay, delay, settle, attempts, batch_rpc_call,
  judge_debug, batch_rpc_call_debug, Outcome,
}
use l1_data_tools.Rpc.Fetcher.Calls.Shuffle.{
  Shuffled, Increasing, After, sort_responses-Shuffled, length-Shuffled, sort_responses-length,
}

-- `Matches requests responses`: the responses answer the requests in order, each with its id, no
-- error and a result.
pub data Matches : List Request → List Response → Type 0 where
  nil : Matches [] []
  cons :
      {q : Request} {r : Response} {requests : List Request} {responses : List Response}
      → r.id ≡ pos q.id
      → r.error ≡ none
      → 0 < length r.result
      → Matches requests responses
      → Matches (q ∷ requests) (r ∷ responses)

same_id : (i : ℤ) (n : ℕ) → not (id_is i n) ≡ false → i ≡ pos n
same_id (pos m) n h = ap pos (ground arith)
same_id (negsuc m) n h = cc

-- One step of the loop that goes on.
validate_step :
    (all : List Response) (q : Request) (requests : List Request) (r : Response)
    (responses : List Response)
    → r.id ≡ pos q.id
    → r.error ≡ none
    → 0 < length r.result
    → validate all (q ∷ requests) (r ∷ responses) ≡ validate all requests responses
unfolding validate
validate_step all q requests r responses same fine full =
    let here : not (id_is r.id q.id) ≡ false = rw same (ground arith) in
    let filled : (length r.result == 0) ≡ false = ground arith in rw (here, fine, filled) refl

validate-success :
    (all : List Response) (requests : List Request) (responses : List Response) (rs : List Response)
    → length responses ≡ length requests
    → validate all requests responses ≡ success rs
    → Matches requests responses
unfolding validate
validate-success all [] [] rs h e = nil
validate-success all [] (r ∷ responses) rs h e = absurd (omega (arith, h))
validate-success all (q ∷ requests) [] rs h e = absurd (omega (arith, h))
validate-success all (q ∷ requests) (r ∷ responses) rs h e =
    elim (Bool-cases (not (id_is r.id q.id))) [
      | inl wrong ↦
          let stopped : validate all (q ∷ requests) (r ∷ responses) ≡ retry = rw wrong refl in
          absurd (cc)
      | inr right ↦ elim (Option-cases r.error) [
        | inr (message, reported) ↦
            let stopped : validate all (q ∷ requests) (r ∷ responses) ≡ fail =
              rw (right, reported) refl in
            absurd (cc)
        | inl fine ↦ elim (Bool-cases (length r.result == 0)) [
          | inl empty ↦
              let stopped : validate all (q ∷ requests) (r ∷ responses) ≡ fail =
                rw (right, fine, empty) refl in
              absurd (cc)
          | inr full ↦
              let same = same_id r.id q.id right in
              let filled : 0 < length r.result = ground arith in
              cons same fine filled (
                validate-success all requests responses rs (omega (arith, h))
                  (sym (validate_step all q requests r responses same fine filled) ∙ e))
        ]
      ]
    ]

-- What is validated is what is returned.
pub validate_all :
    (all : List Response) (requests : List Request) (responses : List Response)
    → Matches requests responses
    → validate all requests responses ≡ success all
unfolding validate
validate_all all [] [] nil = refl
validate_all all [] (r ∷ responses) matches = elim matches [ ]
validate_all all (q ∷ requests) [] matches = elim matches [ ]
validate_all all (q ∷ requests) (r ∷ responses) (cons same fine full rest) =
    validate_step all q requests r responses same fine full
    ∙ validate_all all requests responses rest

success_inj : (xs ys : List Response) → success xs ≡ success ys → xs ≡ ys
success_inj xs ys e = ap (λ v. elim v [ success rs ↦ rs | _ ↦ [] ]) e

-- The slice that the attempts before the number `attempt` have left.
unfoldable pub slice_before : List Request → (ℕ → Reply) → ℕ → Slice
slice_before requests network zero = no_slice
slice_before requests network (suc attempt) =
    leave requests (network attempt) (slice_before requests network attempt)

-- Where the returned responses come from: an attempt, whose answer is decoded into what the attempts
-- before have left, and sorted.
pub record Answered (requests : List Request) (network : ℕ → Reply) (rs : List Response)
    : Type 0 where
  pub attempt : ℕ
  pub messages : List Element
  pub in_time : attempt ≤ max_retries
  pub answer_eq : network attempt ≡ answered messages
  pub sorted_eq :
      sort_responses (read messages (slice_before requests network attempt)).responses ≡ rs

judge-success :
    (requests : List Request) (reply : Reply) (s : Slice) (rs : List Response)
    → judge requests reply s ≡ success rs
    → Matches requests rs
      × (messages : List Element) × (reply ≡ answered messages)
      × (sort_responses (read messages s).responses ≡ rs)
unfolding judge
judge-success requests unsent s rs e = cc
judge-success requests failed s rs e = cc
judge-success requests garbled s rs e = cc
judge-success requests (mistyped messages) s rs e = cc
judge-success requests (answered messages) s rs e =
    let received = (read messages s).responses in
    elim (Bool-cases (length received == length requests)) [
      | inr differ ↦
          let again : judge requests (answered messages) s ≡ retry = rw differ refl in absurd (cc)
      | inl agree ↦
          let sorted = sort_responses received in
          let checked : judge requests (answered messages) s ≡ validate sorted requests sorted =
            rw agree refl in
          let matches =
            validate-success sorted requests sorted rs
              (sort_responses-length received ∙ ground arith) (sym checked ∙ e) in
          let same =
            success_inj sorted rs
              (sym (validate_all sorted requests sorted matches) ∙ sym checked ∙ e) in
          (subst (Matches requests) same matches, messages, refl, same)
    ]

module _ (requests : List Request) (network : ℕ → Reply) where
  settle-success :
      (attempt : ℕ) (v : Verdict) (later : Outcome) (rs : List Response)
      → attempt ≤ max_retries
      → judge requests (network attempt) (slice_before requests network attempt) ≡ v
      → (settle (delay attempt) v later).responses ≡ some rs
      → (later.responses ≡ some rs → Matches requests rs × Answered requests network rs)
      → Matches requests rs × Answered requests network rs
  unfolding settle
  settle-success attempt retry later rs h at e next = next e
  settle-success attempt fail later rs h at e next = cc
  settle-success attempt (success found) later rs h at e next =
      let (matches, messages, answer, sorted) =
        judge-success requests (network attempt) (slice_before requests network attempt) rs
          (at ∙ ap success ((some_inj.0) e)) in
      (
        matches,
        record {
          attempt = attempt;
          messages = messages;
          in_time = h;
          answer_eq = answer;
          sorted_eq = sorted;
        },
      )

  attempts-success :
      (left attempt : ℕ) (rs : List Response)
      → attempt + left ≤ suc max_retries
      → (attempts
          (judge requests)
          (leave requests)
          network
          left
          attempt
          (slice_before requests network attempt)).responses
        ≡ some rs
      → Matches requests rs × Answered requests network rs
  unfolding attempts slice_before
  attempts-success zero attempt rs h e = cc
  attempts-success (suc left) attempt rs h e =
      settle-success attempt
        (judge requests (network attempt) (slice_before requests network attempt))
        (attempts (judge requests) (leave requests) network left (suc attempt)
          (slice_before requests network (suc attempt)))
        rs (omega (arith, h)) refl e (attempts-success left (suc attempt) rs (omega (arith, h)))

-- A call for at least one request that returns responses returns, in the order of the requests, one
-- for each with its id, a result and no error; they are what the answer to one of the 21 attempts,
-- decoded into the slice that the attempts before it have left, makes of that slice, sorted.
pub batch_rpc_call-Matches :
    (q : Request) (requests : List Request) (network : ℕ → Reply) (rs : List Response)
    → (batch_rpc_call (q ∷ requests) network).responses ≡ some rs
    → Matches (q ∷ requests) rs × Answered (q ∷ requests) network rs
unfolding batch_rpc_call slice_before
batch_rpc_call-Matches q requests network rs e =
    attempts-success (q ∷ requests) network (suc max_retries) 0 rs (omega arith) e

-- What holds of whatever an element of an answer is decoded into, holds of what is returned.
pub merge_all-All :
    (P : Element → Type 0) (Q : Response → Type 0)
    → ((m : Element) (r : Response) → P m → Q (merge m r))
    → (messages : List Element) (old : List Response) → All P messages
    → All Q (merge_all messages old)
unfolding merge_all
merge_all-All P Q step [] old h = tt
merge_all-All P Q step (m ∷ ms) [] (p, h) = (step m no_response p, merge_all-All P Q step ms [] h)
merge_all-All P Q step (m ∷ ms) (r ∷ old) (p, h) = (step m r p, merge_all-All P Q step ms old h)

pub read-All :
    (P : Element → Type 0) (Q : Response → Type 0)
    → ((m : Element) (r : Response) → P m → Q (merge m r))
    → (messages : List Element) (s : Slice) → All P messages
    → All Q (read messages s).responses
unfolding read
read-All P Q step [] s h = tt
read-All P Q step (m ∷ ms) s h = merge_all-All P Q step (m ∷ ms) (s.responses ++ s.spare) h
