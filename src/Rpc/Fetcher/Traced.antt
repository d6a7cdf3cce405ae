-- ===== src/Rpc/Fetcher/Traced.antt =====
-- On `fetchTracesBatch` and `fetchSingleBlock` of evm-ingestion/rpc/fetcher.go: where the traces of a
-- block go.
use l1_data_tools.Common.{
  ℕ, zero, suc, ◌+◌, ◌≤◌, ◌≡◌, refl, sym, ap, ◌∙◌, false, List, [], ◌∷◌, some, arith, Bytes,
  bytes_eq, bytes_eq_refl, length, get_elem?, get_elem?_total, ◌↔◌, take, drop, length-take, All,
  >>=-eq-some, min,
}
use mathlib.Core.Option.{some_inj}
use l1_data_tools.Rpc.Fetcher.Fetch.{Json, TraceResult, put}
use l1_data_tools.Rpc.Fetcher.Single.{
  Traces, BlockTraces, lookup, pick_traces, no_traces, tx_infos, assemble_traces,
}

-- No hash comes again.
abbrev pub Distinct : List Bytes → Type 0
Distinct [] = Unit
Distinct (hash ∷ hashes) = All (λ later. bytes_eq later hash ≡ false) hashes × Distinct hashes

drop_at {ℓ} :
    {A : Type ℓ}
    → (xs : List A) (i : ℕ) (x : A) → get_elem? xs i ≡ some x
    → drop i xs ≡ x ∷ drop (i + 1) xs
drop_at [] i x e = cc
drop_at (y ∷ ys) zero x e = ap (λ v. v ∷ ys) (some_inj.0 e)
drop_at (y ∷ ys) (suc i) x e =
    drop_at ys i x e ∙ ap (λ k. x ∷ drop k (y ∷ ys)) {x = suc (i + 1)} (omega arith)

module _ (j : Json) where
  pub length-assemble_traces :
      (traces : Traces j) (hashes : List Bytes)
      → length (assemble_traces j traces hashes) ≡ length hashes
  unfolding assemble_traces
  length-assemble_traces traces [] = refl
  length-assemble_traces traces (hash ∷ hashes) = ap suc (length-assemble_traces traces hashes)

module _ (j : Json) (n : ℕ) (found : BlockTraces j) where
  -- What is under a hash that the loop does not meet stays.
  pick_traces-other :
      (hashes : List Bytes) (i : ℕ) (traces picked : Traces j) (hash : Bytes)
      → All (λ later. bytes_eq later hash ≡ false) hashes
      → pick_traces j found (tx_infos j n i hashes) traces ≡ some picked
      → picked hash ≡ traces hash
  unfolding pick_traces tx_infos
  pick_traces-other [] i traces picked hash others e =
      ap (λ (m : Traces j). m hash) (sym (some_inj.0 e))
  pick_traces-other (first ∷ hashes) i traces picked hash (differ, others) e =
      let (of_block, _, e') = >>=-eq-some (lookup j n found) _ e in
      let (trace, _, e'') = >>=-eq-some (get_elem? of_block i) _ e' in
      pick_traces-other hashes (i + 1) (put first trace traces) picked hash others e''
      ∙ (rw differ refl)

  module _ (of_block : List (TraceResult j.CallTrace))
      (is_there : lookup j n found ≡ some of_block) where
    picked_from :
        (hashes : List Bytes) (i : ℕ) (traces picked : Traces j)
        → Distinct hashes
        → pick_traces j found (tx_infos j n i hashes) traces ≡ some picked
        → assemble_traces j picked hashes ≡ take (length hashes) (drop i of_block)
    unfolding pick_traces tx_infos assemble_traces
    picked_from [] i traces picked distinct e = refl
    picked_from (hash ∷ hashes) i traces picked (others, distinct) e =
        let (block_traces, looked, e') = >>=-eq-some (lookup j n found) _ e in
        let (trace, at, e'') = >>=-eq-some (get_elem? block_traces i) _ e' in
        let same : block_traces ≡ of_block = some_inj.0 (sym looked ∙ is_there) in
        let here : picked hash ≡ some trace =
          pick_traces-other hashes (i + 1) (put hash trace traces) picked hash others e''
          ∙ (rw (bytes_eq_refl hash) refl) in
        let split : drop i of_block ≡ trace ∷ drop (i + 1) of_block =
          drop_at of_block i trace (ap (λ l. get_elem? l i) (sym same) ∙ at) in
        let rest = picked_from hashes (i + 1) (put hash trace traces) picked distinct e'' in
        rw (here, split) (ap (λ l. trace ∷ l) rest)

    picks :
        (hashes : List Bytes) (i : ℕ) (traces : Traces j)
        → i + length hashes ≤ length of_block
        → (picked : Traces j) × (pick_traces j found (tx_infos j n i hashes) traces ≡ some picked)
    unfolding pick_traces tx_infos
    picks [] i traces h = (traces, refl)
    picks (hash ∷ hashes) i traces h =
        let (trace, at) = get_elem?_total of_block i (omega arith) in
        let (picked, e) = picks hashes (i + 1) (put hash trace traces) (omega arith) in
        (picked, rw (is_there, at) e)

    -- Where the hashes of a block's transactions differ from each other and the traces of the block were
    -- answered as a whole: the traces are picked without an error exactly if the answer has one for each
    -- transaction, and the assembled traces are then the first ones of the answer, in its order.
    pub assemble_traces-pick_traces :
        (hashes : List Bytes)
        → Distinct hashes
        → ((length hashes ≤ length of_block) ↔ (
            (picked : Traces j) × (pick_traces j found (tx_infos j n 0 hashes) (no_traces j)
              ≡ some picked)))
          × ((picked : Traces j)
              → pick_traces j found (tx_infos j n 0 hashes) (no_traces j) ≡ some picked
              → assemble_traces j picked hashes ≡ take (length hashes) of_block)
    assemble_traces-pick_traces hashes distinct = (
      (
        λ h. picks hashes 0 (no_traces j) (omega (arith, h)),
        λ (picked, e).
            let size : length hashes ≡ min (length hashes) (length of_block) =
              sym (length-assemble_traces j picked hashes)
              ∙ ap length (picked_from hashes 0 (no_traces j) picked distinct e)
              ∙ length-take (length hashes) of_block in
            omega (arith, size),
      ),
      λ picked e. picked_from hashes 0 (no_traces j) picked distinct e,
    )
