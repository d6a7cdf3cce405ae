-- ===== src/Rpc/Fetcher/Assembly.antt =====
-- On `fetchSingleBlock` of evm-ingestion/rpc/fetcher.go: what a fetched block is made of.
use l1_data_tools.Common.{
  ℕ, ◌<◌, ◌≡◌, refl, sym, ap, ◌∙◌, List, [], ◌∷◌, Option, some, ◌>>=◌, arith, Bytes, codes, length,
  add64, sub64, u64, >>=-eq-some, subst,
}
use mathlib.Core.Option.{some_inj}
use l1_data_tools.Common.Int.{pos}
use l1_data_tools.Rpc.Fetcher.Call.{Param, Request, Response}
use l1_data_tools.Rpc.Fetcher.Chunks.{flatten, chunks_of, chunks_of-flatten}
use l1_data_tools.Rpc.Fetcher.Fetch.{
  Json, Network, batch_size, each_response, num_blocks, block_request, requests_from,
  receipt_requests, set_at, replicate,
}
use l1_data_tools.Rpc.Fetcher.Single.{
  NormalizedBlock, write_at, traces_of, store_block, fetch_blocks_batch, receipts_of,
  assemble_receipts, tx_infos, first, fetch_single_block,
}
use l1_data_tools.Rpc.Fetcher.Answers.{Honest, Answers, one, each_batch-Answers}
use l1_data_tools.Rpc.Fetcher.Receipts.{
  Receive, IsRight, assemble_receipts-Receive, receipts_of-IsRight,
}
use l1_data_tools.Rpc.Fetcher.Traced.{length-assemble_traces}

module _ (j : Json) (answer : Bytes → List Param → Bytes) where
  -- The node's block of a number.
  abbrev pub block_for : ℕ → Option j.Block
  block_for n = j.read_block (answer (codes "eth_getBlockByNumber") (block_request n 0).params)

  one_answer :
      (q : Request) (r : Response) (rs : List Response)
      → Answers answer (q ∷ []) (r ∷ rs)
      → (r.id ≡ pos q.id) × (r.result ≡ answer q.method q.params) × (rs ≡ [])
  one_answer q r [] (one same result rest) = (same, result, refl)
  one_answer q r (x ∷ rs) (one same result rest) = elim rest [ ]

  module _ (net : Network) (debug_batch_size : ℕ) where
    one_block : (n : ℕ) → n < u64 → num_blocks n n ≡ some 1
    unfolding num_blocks
    one_block n h = let size : add64 (sub64 n n) 1 ≡ 1 = omega arith in rw size refl

    stored_block :
        (r : Response) (blocks : List j.Block)
        → r.id ≡ pos 0
        → (store_block j r (replicate 1 j.zero_block) >>= each_response (store_block j) [])
          ≡ some blocks
        → (block : j.Block) × (j.read_block r.result ≡ some block) × (blocks ≡ block ∷ [])
    unfolding store_block each_response replicate set_at
    stored_block r blocks same e =
        let (after, stored, e') = >>=-eq-some (store_block j r (j.zero_block ∷ [])) _ e in
        let (block, decoded, written) = >>=-eq-some (j.read_block r.result) _ stored in
        let there : some (block ∷ []) ≡ some after =
          ap (λ i. write_at j (j.zero_block ∷ []) i block) (sym same) ∙ written in
        (block, decoded, sym (some_inj.0 e') ∙ sym (some_inj.0 there))

    answered_block :
        (n : ℕ) (rs : List Response) (blocks : List j.Block)
        → Answers answer (block_request n 0 ∷ []) rs
        → each_response (store_block j) rs (replicate 1 j.zero_block) ≡ some blocks
        → (block : j.Block) × (block_for n ≡ some block) × (blocks ≡ block ∷ [])
    unfolding each_response
    answered_block n [] blocks answers e = elim answers [ ]
    answered_block n (r ∷ rs) blocks answers e =
        let (same, result, last) = one_answer (block_request n 0) r rs answers in
        let (block, decoded, only) = stored_block r blocks same (
          subst
            (λ l.
              (store_block j r (replicate 1 j.zero_block) >>= each_response (store_block j) l)
              ≡ some blocks)
            last e) in
        (block, ap j.read_block (sym result) ∙ decoded, only)

    one_request :
        (n count : ℕ) → count ≡ 1 → requests_from (block_request n) 0 count ≡ block_request n 0 ∷ []
    unfolding requests_from
    one_request n count e = ap (requests_from (block_request n) 0) e

    fetch_blocks_batch-one :
        (n : ℕ) (blocks : List j.Block)
        → n < u64
        → ((i : ℕ) → Honest answer (block_request n 0 ∷ []) (net.blocks i))
        → fetch_blocks_batch j net debug_batch_size n n ≡ some blocks
        → (block : j.Block) × (block_for n ≡ some block) × (blocks ≡ block ∷ [])
    unfolding fetch_blocks_batch
    fetch_blocks_batch-one n blocks h honest e =
        let (count, counted, e') = >>=-eq-some (num_blocks n n) _ e in
        let is_one : count ≡ 1 = some_inj.0 (sym counted ∙ one_block n h) in
        let (batches, chunks, e'') =
          >>=-eq-some (chunks_of (requests_from (block_request n) 0 count) batch_size) _ e' in
        let (others, same, whole, _) =
          chunks_of-flatten (requests_from (block_request n) 0 count) batch_size (omega arith) in
        let all : flatten batches ≡ block_request n 0 ∷ [] =
          ap flatten (some_inj.0 (sym chunks ∙ same)) ∙ whole ∙ one_request n count is_one in
        let (rs, answers, stored) =
          each_batch-Answers answer (store_block j) net.blocks 0 batches _ blocks
            (λ i. subst (λ l. Honest answer l (net.blocks i)) (sym all) (honest i)) e'' in
        answered_block n rs blocks (subst (λ l. Answers answer l rs) all answers) (
          subst (λ k. each_response (store_block j) rs (replicate k j.zero_block) ≡ some blocks)
            is_one stored)

    -- A block that is fetched, from a node that gives one answer, or an error, to each request for it and the
    -- receipts of its transactions, is the node's block of that number, with the receipts of its
    -- transactions in their order, and as many traces. The number is a uint64.
    pub fetch_single_block-Receive :
        (n : ℕ) (fetched : NormalizedBlock j)
        → n < u64
        → ((i : ℕ) → Honest answer (block_request n 0 ∷ []) (net.blocks i))
        → ((i : ℕ)
            → Honest answer
                (receipt_requests (tx_infos j n 0 (j.tx_hashes fetched.block)) 0)
                (net.receipts i))
        → fetch_single_block j net debug_batch_size n ≡ some fetched
        → (block_for n ≡ some fetched.block)
          × Receive j answer (j.tx_hashes fetched.block) fetched.receipts
          × (length fetched.traces ≡ length (j.tx_hashes fetched.block))
    unfolding fetch_single_block first
    fetch_single_block-Receive n fetched h blocks receipts e =
        let (all, got, e1) = >>=-eq-some (fetch_blocks_batch j net debug_batch_size n n) _ e in
        let (block, is_first, e2) = >>=-eq-some (first j net debug_batch_size all) _ e1 in
        let (by_hash, got_receipts, e3) =
          >>=-eq-some (receipts_of j net debug_batch_size (tx_infos j n 0 (j.tx_hashes block))) _
            e2 in
        let (traces, got_traces, e4) =
          >>=-eq-some (traces_of j net debug_batch_size n (tx_infos j n 0 (j.tx_hashes block))) _
            e3 in
        let (assembled, in_order, e5) =
          >>=-eq-some (assemble_receipts j by_hash (j.tx_hashes block)) _ e4 in
        let (node, is_node, only) = fetch_blocks_batch-one n all h blocks got in
        let same : fetched.block ≡ block =
          ap (λ (x : NormalizedBlock j). x.block) (sym (some_inj.0 e5)) in
        let first_is : node ≡ block =
          some_inj.0 (ap (first j net debug_batch_size) (sym only) ∙ is_first) in
        let right : IsRight j answer by_hash =
          receipts_of-IsRight j answer net debug_batch_size (tx_infos j n 0 (j.tx_hashes block))
            by_hash
            (subst
              (λ b.
                (i : ℕ)
                → Honest answer (receipt_requests (tx_infos j n 0 (j.tx_hashes b)) 0)
                    (net.receipts i))
              same receipts)
            got_receipts in
        subst
          (λ (x : NormalizedBlock j).
            (block_for n ≡ some x.block)
            × Receive j answer (j.tx_hashes x.block) x.receipts
            × (length x.traces ≡ length (j.tx_hashes x.block)))
          (some_inj.0 e5)
          (
            is_node ∙ ap some first_is,
            assemble_receipts-Receive j answer by_hash (j.tx_hashes block) assembled right in_order,
            length-assemble_traces j traces (j.tx_hashes block),
          )
