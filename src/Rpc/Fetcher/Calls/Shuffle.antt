-- ===== src/Rpc/Fetcher/Calls/Shuffle.antt =====
-- On `batchRpcCall` of evm-ingestion/rpc/fetcher.go: responses in another order, and their sorting.
use l1_data_tools.Common.{
  suc, ◌≡◌, refl, sym, ap, ◌∙◌, true, false, List, [], ◌∷◌, ◌++◌, arith, length, All, subst,
  Bool-cases, inl, inr,
}
use l1_data_tools.Common.Int.{ℤ, pos, negsuc}
use l1_data_tools.Rpc.Fetcher.Call.{Response, id_lt, insert_response, sort_responses}

-- `Shuffled xs ys`: `ys` holds what `xs` holds, in some order.
pub data Shuffled : List Response → List Response → Type 0 where
  nil : Shuffled [] []
  insert :
      {x : Response} {xs zs ys : List Response} (us vs : List Response)
      → Shuffled xs zs
      → zs ≡ us ++ vs
      → ys ≡ us ++ x ∷ vs
      → Shuffled (x ∷ xs) ys

abbrev pub After : Response → Response → Type 0
After r s = id_lt r.id s.id ≡ true

abbrev pub Increasing : List Response → Type 0
Increasing [] = Unit
Increasing (r ∷ rs) = All (After r) rs × Increasing rs

id_lt_asymm : (i j : ℤ) → id_lt i j ≡ true → id_lt j i ≡ false
id_lt_asymm (pos m) (pos n) h = ground arith
id_lt_asymm (pos m) (negsuc n) h = cc
id_lt_asymm (negsuc m) (pos n) h = refl
id_lt_asymm (negsuc m) (negsuc n) h = ground arith

module _ (P : Response → Type 0) where
  All-insert :
      (us vs : List Response) (x : Response) → P x → All P (us ++ vs) → All P (us ++ x ∷ vs)
  All-insert [] vs x p h = (p, h)
  All-insert (u ∷ us) vs x p (q, h) = (q, All-insert us vs x p h)

  All-Shuffled : (xs ys : List Response) → Shuffled xs ys → All P xs → All P ys
  All-Shuffled [] [] nil h = h
  All-Shuffled [] (y ∷ ys) shuffled h = elim shuffled [ ]
  All-Shuffled (x ∷ xs) ys (insert us vs shuffled split joined) (p, h) =
      subst (All P) (sym joined)
        (All-insert us vs x p (subst (All P) split (All-Shuffled xs _ shuffled h)))

length-insert :
    (us vs : List Response) (x : Response) → length (us ++ x ∷ vs) ≡ suc (length (us ++ vs))
length-insert [] vs x = refl
length-insert (u ∷ us) vs x = ap suc (length-insert us vs x)

pub length-Shuffled : (xs ys : List Response) → Shuffled xs ys → length ys ≡ length xs
length-Shuffled [] [] nil = refl
length-Shuffled [] (y ∷ ys) shuffled = elim shuffled [ ]
length-Shuffled (x ∷ xs) ys (insert us vs shuffled split joined) =
    ap length joined
    ∙ length-insert us vs x
    ∙ ap suc (ap length (sym split) ∙ length-Shuffled xs _ shuffled)

insert_first :
    (x : Response) (rs : List Response) → All (After x) rs → insert_response x rs ≡ x ∷ rs
unfolding insert_response
insert_first x [] h = refl
insert_first x (r ∷ rs) (after, h) = rw (id_lt_asymm x.id r.id after) refl

insert_response-All :
    (P : Response → Type 0) (x : Response) (rs : List Response)
    → P x
    → All P rs
    → All P (insert_response x rs)
unfolding insert_response
insert_response-All P x [] p h = (p, tt)
insert_response-All P x (r ∷ rs) p (q, h) = elim (Bool-cases (id_lt r.id x.id)) [
  | inl before ↦ rw before (q, insert_response-All P x rs p h)
  | inr not_before ↦ rw not_before (p, (q, h))
]

pub sort_responses-All :
    (P : Response → Type 0) (rs : List Response) → All P rs → All P (sort_responses rs)
unfolding sort_responses
sort_responses-All P [] h = tt
sort_responses-All P (r ∷ rs) (p, h) =
    insert_response-All P r (sort_responses rs) p (sort_responses-All P rs h)

-- The least response comes first, wherever it stood.
sort_least :
    (us vs : List Response) (x : Response)
    → All (After x) (us ++ vs)
    → sort_responses (us ++ x ∷ vs) ≡ x ∷ sort_responses (us ++ vs)
unfolding sort_responses
sort_least [] vs x h = insert_first x (sort_responses vs) (sort_responses-All (After x) vs h)
sort_least (u ∷ us) vs x (after, h) =
    ap (insert_response u) (sort_least us vs x h) ∙ (unfold insert_response in rw after refl)

pub sort_responses-Shuffled :
    (xs ys : List Response) → Shuffled xs ys → Increasing xs → sort_responses ys ≡ xs
sort_responses-Shuffled [] [] nil h = unfold sort_responses in refl
sort_responses-Shuffled [] (y ∷ ys) shuffled h = elim shuffled [ ]
sort_responses-Shuffled (x ∷ xs) ys (insert us vs shuffled split joined) (after, h) =
    ap sort_responses joined
    ∙ sort_least us vs x (subst (All (After x)) split (All-Shuffled (After x) xs _ shuffled after))
    ∙ ap (λ rs. x ∷ rs) (ap sort_responses (sym split) ∙ sort_responses-Shuffled xs _ shuffled h)

insert_response-length :
    (r : Response) (rs : List Response) → length (insert_response r rs) ≡ suc (length rs)
unfolding insert_response
insert_response-length r [] = refl
insert_response-length r (s ∷ rs) = elim (Bool-cases (id_lt s.id r.id)) [
  | inl before ↦ rw before (ap suc (insert_response-length r rs))
  | inr not_before ↦ rw not_before refl
]

pub sort_responses-length : (rs : List Response) → length (sort_responses rs) ≡ length rs
unfolding sort_responses
sort_responses-length [] = refl
sort_responses-length (r ∷ rs) =
    insert_response-length r (sort_responses rs) ∙ ap suc (sort_responses-length rs)
