-- ===== src/Rpc/Fetcher/Answers.antt =====
-- On evm-ingestion/rpc/fetcher.go: what a call gets from a node that answers each request in one way, or with an error,
-- and what the loops over batches and responses make of it.
use l1_data_tools.Common.{
  ℕ, suc, ◌≡◌, refl, sym, ap, ◌∙◌, List, [], ◌∷◌, ◌++◌, Option, some, none, ◌≢◌, Bytes, >>=-eq-some,
  subst, All, All-map,
}
use mathlib.Core.Option.{some_inj}
use l1_data_tools.Common.Int.{ℤ, pos}
use l1_data_tools.Rpc.Fetcher.Call.{
  Param, Request, Response, Element, reported, read_error, or_else, merge, Reply, answered,
  batch_rpc_call,
}
use l1_data_tools.Rpc.Fetcher.Calls.{Matches, nil, cons, batch_rpc_call-Matches, read-All}
use l1_data_tools.Rpc.Fetcher.Calls.Shuffle.{sort_responses-All}
use l1_data_tools.Rpc.Fetcher.Chunks.{flatten}
use l1_data_tools.Rpc.Fetcher.Fetch.{each_response, each_batch}

module _ (answer : Bytes → List Param → Bytes) where
  -- A response that has the id of a request has the node's result for its method and its parameters.
  abbrev IsAnswer : List Request → Response → Type 0
  IsAnswer requests r = All (λ q. r.id ≡ pos q.id → r.result ≡ answer q.method q.params) requests

  -- A response without an error is an answer.
  abbrev IsSound : List Request → Response → Type 0
  IsSound requests r = r.error ≡ none → IsAnswer requests r

  -- An element of an answer reports an error, or it has an id and a result, and the result is the node's
  -- for the request of that id.
  pub data Tells (requests : List Request) (m : Element) : Type 0 where
    complains : (message : Option Bytes) → m.error ≡ reported message → Tells requests m
    tells :
        (id : ℤ) (result : Bytes)
        → m.id ≡ some id
        → m.result ≡ some result
        → All (λ q. id ≡ pos q.id → result ≡ answer q.method q.params) requests
        → Tells requests m

  -- Each decoded answer to the requests holds answers of the node.
  abbrev pub Honest : List Request → (ℕ → Reply) → Type 0
  Honest requests network =
      (attempt : ℕ) (messages : List Element)
      → network attempt ≡ answered messages
      → All (Tells requests) messages

  -- The responses have the results of the requests, in order.
  pub data Answers : List Request → List Response → Type 0 where
    none_left : Answers [] []
    one :
        {q : Request} {r : Response} {requests : List Request} {responses : List Response}
        → r.id ≡ pos q.id
        → r.result ≡ answer q.method q.params
        → Answers requests responses
        → Answers (q ∷ requests) (r ∷ responses)

  Matches-Answers :
      (requests : List Request) (rs : List Response)
      → Matches requests rs
      → All (IsSound requests) rs
      → Answers requests rs
  Matches-Answers [] [] nil h = none_left
  Matches-Answers [] (r ∷ rs) matches h = elim matches [ ]
  Matches-Answers (q ∷ requests) [] matches h = elim matches [ ]
  Matches-Answers (q ∷ requests) (r ∷ rs) (cons same fine full rest) (here, h) =
      one same ((here fine).0 same)
        (Matches-Answers requests rs rest (All-map _ rs (λ x p e. (p e).1) h))

  complains_loud : (message old : Option Bytes) → read_error (reported message) old ≢ none
  complains_loud none none e = cc
  complains_loud none (some m) e = cc
  complains_loud (some m) old e = cc

  -- Such an element leaves nothing of what was there but an error.
  merge-IsSound :
      (requests : List Request) (m : Element) (r : Response)
      → Tells requests m
      → IsSound requests (merge m r)
  merge-IsSound requests m r (complains message e) fine =
      absurd (complains_loud message r.error (sym (ap (λ k. read_error k r.error) e) ∙ fine))
  merge-IsSound requests m r (tells id result e e' is_answer) fine =
      All-map _ requests
        (λ q h same. ap (λ o. or_else o r.result) e' ∙ h (sym (ap (λ o. or_else o r.id) e) ∙ same))
        is_answer

  batch_rpc_call-Answers :
      (requests : List Request) (network : ℕ → Reply) (rs : List Response)
      → Honest requests network
      → (batch_rpc_call requests network).responses ≡ some rs
      → Answers requests rs
  unfolding batch_rpc_call
  batch_rpc_call-Answers [] network rs honest e =
      let same : [] ≡ rs = some_inj.0 e in subst (Answers []) same none_left
  batch_rpc_call-Answers (q ∷ requests) network rs honest e =
      let (matches, from) = batch_rpc_call-Matches q requests network rs e in
      Matches-Answers (q ∷ requests) rs matches (
        subst (All (IsSound (q ∷ requests))) from.sorted_eq (
          sort_responses-All (IsSound (q ∷ requests)) _ (
            read-All (Tells (q ∷ requests)) (IsSound (q ∷ requests)) (merge-IsSound (q ∷ requests))
              from.messages _ (honest from.attempt from.messages from.answer_eq))))

  Answers-append :
      (qs requests : List Request) (rs responses : List Response)
      → Answers qs rs
      → Answers requests responses
      → Answers (qs ++ requests) (rs ++ responses)
  Answers-append [] requests [] responses none_left h = h
  Answers-append [] requests (r ∷ rs) responses a h = elim a [ ]
  Answers-append (q ∷ qs) requests [] responses a h = elim a [ ]
  Answers-append (q ∷ qs) requests (r ∷ rs) responses (one same result rest) h =
      one same result (Answers-append qs requests rs responses rest h)

  all_left : (P : Request → Type 0) (xs ys : List Request) → All P (xs ++ ys) → All P xs
  all_left P [] ys h = tt
  all_left P (x ∷ xs) ys (p, h) = (p, all_left P xs ys h)

  all_right : (P : Request → Type 0) (xs ys : List Request) → All P (xs ++ ys) → All P ys
  all_right P [] ys h = h
  all_right P (x ∷ xs) ys (p, h) = all_right P xs ys h

  Tells-left : (xs ys : List Request) (m : Element) → Tells (xs ++ ys) m → Tells xs m
  Tells-left xs ys m (complains message e) = complains message e
  Tells-left xs ys m (tells id result e e' h) = tells id result e e' (all_left _ xs ys h)

  Tells-right : (xs ys : List Request) (m : Element) → Tells (xs ++ ys) m → Tells ys m
  Tells-right xs ys m (complains message e) = complains message e
  Tells-right xs ys m (tells id result e e' h) = tells id result e e' (all_right _ xs ys h)

  Honest-left :
      (xs ys : List Request) (network : ℕ → Reply) → Honest (xs ++ ys) network → Honest xs network
  Honest-left xs ys network h attempt received e =
      All-map _ received (λ m. Tells-left xs ys m) (h attempt received e)

  Honest-right :
      (xs ys : List Request) (network : ℕ → Reply) → Honest (xs ++ ys) network → Honest ys network
  Honest-right xs ys network h attempt received e =
      All-map _ received (λ m. Tells-right xs ys m) (h attempt received e)

  module _ {S : Type 0} (step : Response → S → Option S) where
    each_response-append :
        (rs responses : List Response) (s t : S)
        → each_response step rs s ≡ some t
        → each_response step (rs ++ responses) s ≡ each_response step responses t
    unfolding each_response
    each_response-append [] responses s t e = ap (each_response step responses) (some_inj.0 e)
    each_response-append (r ∷ rs) responses s t e =
        let (next, now, e') = >>=-eq-some (step r s) _ e in
        (rw now refl) ∙ each_response-append rs responses next t e'

    -- The batches of honest calls, one after the other, are one loop over the answers to all requests.
    pub each_batch-Answers :
        (networks : ℕ → ℕ → Reply) (idx : ℕ) (batches : List (List Request)) (s t : S)
        → ((i : ℕ) → Honest (flatten batches) (networks i))
        → each_batch step
            (λ i requests. (batch_rpc_call requests (networks i)).responses)
            idx
            batches
            s
          ≡ some t
        → (rs : List Response) × Answers (flatten batches) rs × (each_response step rs s ≡ some t)
    unfolding each_batch each_response
    each_batch-Answers networks idx [] s t honest e = ([], none_left, e)
    each_batch-Answers networks idx (requests ∷ batches) s t honest e =
        let (responses, called, e') =
          >>=-eq-some (batch_rpc_call requests (networks idx)).responses _ e in
        let (next, stored, e'') = >>=-eq-some (each_response step responses s) _ e' in
        let (rs, answers, rest) =
          each_batch-Answers networks (suc idx) batches next t
            (λ i. Honest-right requests (flatten batches) (networks i) (honest i)) e'' in
        (
          responses ++ rs,
          Answers-append requests (flatten batches) responses rs
              (batch_rpc_call-Answers requests (networks idx) responses
                (Honest-left requests (flatten batches) (networks idx) (honest idx)) called)
              answers,
          each_response-append responses rs s next stored ∙ rest,
        )
