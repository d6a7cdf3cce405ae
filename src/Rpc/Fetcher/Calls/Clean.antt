-- ===== src/Rpc/Fetcher/Calls/Clean.antt =====
-- On `batchRpcCall` of evm-ingestion/rpc/fetcher.go: what an answer without errors makes of a slice
-- without errors.
use l1_data_tools.Common.{
  ℕ, zero, suc, ◌≡◌, refl, ap, ap₂, ◌∙◌, List, [], ◌∷◌, ◌++◌, some, none, drop, sym, length, All,
}
use l1_data_tools.Rpc.Fetcher.Call.{
  Response, absent, cleared, Element, Slice, no_response, or_else, read_error, merge, merge_all,
  read,
}

-- An element that reports no error.
pub data Quiet (m : Element) : Type 0 where
  no_key : m.error ≡ absent → Quiet m
  null_key : m.error ≡ cleared → Quiet m

pub length-merge_all :
    (ms : List Element) (old : List Response) → length (merge_all ms old) ≡ length ms
unfolding merge_all
length-merge_all [] old = refl
length-merge_all (m ∷ ms) [] = ap suc (length-merge_all ms [])
length-merge_all (m ∷ ms) (r ∷ old) = ap suc (length-merge_all ms old)

pub length-read : (ms : List Element) (s : Slice) → length (read ms s).responses ≡ length ms
unfolding read
length-read [] s = refl
length-read (m ∷ ms) s = length-merge_all (m ∷ ms) (s.responses ++ s.spare)

-- No response of the slice, nor any beyond its length, has an error.
abbrev pub HasNoError : Response → Type 0
HasNoError r = r.error ≡ none

abbrev pub IsClean : Slice → Type 0
IsClean s = All HasNoError s.responses × All HasNoError s.spare

merge-HasNoError : (m : Element) (r : Response) → Quiet m → HasNoError r → HasNoError (merge m r)
merge-HasNoError m r (no_key e) h = ap (λ k. read_error k r.error) e ∙ h
merge-HasNoError m r (null_key e) h = ap (λ k. read_error k r.error) e

All-append :
    (xs ys : List Response) → All HasNoError xs → All HasNoError ys → All HasNoError (xs ++ ys)
All-append [] ys h k = k
All-append (x ∷ xs) ys (p, h) k = (p, All-append xs ys h k)

All-drop : (n : ℕ) (xs : List Response) → All HasNoError xs → All HasNoError (drop n xs)
All-drop zero xs h = h
All-drop (suc n) [] h = tt
All-drop (suc n) (x ∷ xs) (p, h) = All-drop n xs h

merge_all-HasNoError :
    (ms : List Element) (old : List Response)
    → All Quiet ms
    → All HasNoError old
    → All HasNoError (merge_all ms old)
unfolding merge_all
merge_all-HasNoError [] old q h = tt
merge_all-HasNoError (m ∷ ms) [] (q, qs) h =
    (merge-HasNoError m no_response q refl, merge_all-HasNoError ms [] qs tt)
merge_all-HasNoError (m ∷ ms) (r ∷ old) (q, qs) (p, h) =
    (merge-HasNoError m r q p, merge_all-HasNoError ms old qs h)

pub read-IsClean : (ms : List Element) (s : Slice) → All Quiet ms → IsClean s → IsClean (read ms s)
unfolding read
read-IsClean [] s q h = (tt, tt)
read-IsClean (m ∷ ms) s q (h, k) =
    let old = All-append s.responses s.spare h k in
    (
      merge_all-HasNoError (m ∷ ms) (s.responses ++ s.spare) q old,
      All-drop (length (m ∷ ms)) (s.responses ++ s.spare) old,
    )

-- The elements that say all of the responses, without an error.
pub data Says : List Element → List Response → Type 0 where
  nothing_said : Says [] []
  said :
      {m : Element} {r : Response} {ms : List Element} {rs : List Response}
      → m.id ≡ some r.id
      → m.result ≡ some r.result
      → Quiet m
      → r.error ≡ none
      → Says ms rs
      → Says (m ∷ ms) (r ∷ rs)

merge-said :
    (m : Element) (r old : Response)
    → m.id ≡ some r.id
    → m.result ≡ some r.result
    → Quiet m
    → r.error ≡ none
    → HasNoError old
    → merge m old ≡ r
merge-said m r old e e' q h k =
    let id : or_else m.id old.id ≡ r.id = ap (λ o. or_else o old.id) e in
    let result : or_else m.result old.result ≡ r.result = ap (λ o. or_else o old.result) e' in
    let error : read_error m.error old.error ≡ r.error = merge-HasNoError m old q k ∙ sym h in
    ap₂ (λ i x. record { id = i; error = read_error m.error old.error; result = x }) id result
    ∙ ap (λ x. record { id = r.id; error = x; result = r.result }) error

merge_all-Says :
    (ms : List Element) (rs old : List Response)
    → Says ms rs
    → All HasNoError old
    → merge_all ms old ≡ rs
unfolding merge_all
merge_all-Says [] [] old nothing_said h = refl
merge_all-Says [] (r ∷ rs) old says h = elim says [ ]
merge_all-Says (m ∷ ms) [] old says h = elim says [ ]
merge_all-Says (m ∷ ms) (r ∷ rs) [] (said e e' q k rest) h =
    ap₂ (λ x xs. x ∷ xs) (merge-said m r no_response e e' q k refl)
      (merge_all-Says ms rs [] rest tt)
merge_all-Says (m ∷ ms) (r ∷ rs) (x ∷ old) (said e e' q k rest) (p, h) =
    ap₂ (λ x xs. x ∷ xs) (merge-said m r x e e' q k p) (merge_all-Says ms rs old rest h)

-- Into a clean slice they are decoded as they are.
pub read-Says :
    (ms : List Element) (rs : List Response) (s : Slice)
    → Says ms rs
    → IsClean s
    → (read ms s).responses ≡ rs
unfolding read
read-Says [] [] s nothing_said h = refl
read-Says [] (r ∷ rs) s says h = elim says [ ]
read-Says (m ∷ ms) rs s says (h, k) =
    merge_all-Says (m ∷ ms) rs (s.responses ++ s.spare) says (All-append s.responses s.spare h k)
