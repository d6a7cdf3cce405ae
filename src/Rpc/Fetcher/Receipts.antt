-- ===== src/Rpc/Fetcher/Receipts.antt =====
-- On `fetchReceiptsBatch` and `fetchSingleBlock` of evm-ingestion/rpc/fetcher.go: the receipts of a
-- block.
use l1_data_tools.Common.{
  ℕ, suc, ◌+◌, ◌≡◌, refl, sym, ap, ◌∙◌, inl, inr, List, [], ◌∷◌, Option, some, arith, Bytes, codes,
  bytes_eq, bytes_eq_eq, get_elem?, Bool-cases, >>=-eq-some, subst,
}
use mathlib.Core.Option.{some_inj}
use l1_data_tools.Common.Int.{pos}
use l1_data_tools.Rpc.Fetcher.Call.{Param, text, Response}
use l1_data_tools.Rpc.Fetcher.Chunks.{flatten, chunks_of, chunks_of-flatten}
use l1_data_tools.Rpc.Fetcher.Fetch.{
  Json, TxInfo, Network, batch_size, each_response, receipt_requests, hash_of, put,
}
use l1_data_tools.Rpc.Fetcher.Single.{
  Receipts, store_receipt, fetch_receipts_batch, receipts_of, assemble_receipts,
}
use l1_data_tools.Rpc.Fetcher.Answers.{Honest, Answers, one, each_batch-Answers}

module _ (j : Json) (answer : Bytes → List Param → Bytes) where
  -- The node's receipt for a transaction.
  abbrev pub receipt_for : Bytes → Option j.Receipt
  receipt_for hash = j.read_receipt (answer (codes "eth_getTransactionReceipt") (text hash ∷ []))

  abbrev pub IsRight : Receipts j → Type 0
  IsRight receipts =
      (hash : Bytes) (r : j.Receipt) → receipts hash ≡ some r → receipt_for hash ≡ some r

  put-IsRight :
      (hash : Bytes) (r : j.Receipt) (receipts : Receipts j)
      → receipt_for hash ≡ some r
      → IsRight receipts
      → IsRight (put hash r receipts)
  put-IsRight hash r receipts e h other s found = elim (Bool-cases (bytes_eq hash other)) [
    | inl same ↦
        let now : some r ≡ some s = sym (rw same refl) ∙ found in
        subst (λ x. receipt_for x ≡ some s) (bytes_eq_eq hash other same) (e ∙ now)
    | inr differ ↦ h other s (sym (rw differ refl) ∙ found)
  ]

  -- `all` are the infos, and `txs` those from the index `i` on.
  abbrev Suffix : List TxInfo → ℕ → List TxInfo → Type 0
  Suffix all i txs = (k : ℕ) → get_elem? all (i + k) ≡ get_elem? txs k

  hash_of-at :
      (all txs : List TxInfo) (tx : TxInfo) (i : ℕ)
      → Suffix all i (tx ∷ txs)
      → hash_of all (pos i) ≡ tx.hash
  unfolding hash_of
  hash_of-at all txs tx i h =
      let there : get_elem? all i ≡ some tx = ap (get_elem? all) (omega arith) ∙ h 0 in
      rw (there, hash_of) refl

  each_response-IsRight :
      (all txs : List TxInfo) (i : ℕ) (rs : List Response) (receipts receipts' : Receipts j)
      → Suffix all i txs
      → Answers answer (receipt_requests txs i) rs
      → each_response (store_receipt j all) rs receipts ≡ some receipts'
      → IsRight receipts
      → IsRight receipts'
  unfolding each_response store_receipt receipt_requests
  each_response-IsRight all [] i [] receipts receipts' part answers e h =
      subst IsRight (some_inj.0 e) h
  each_response-IsRight all [] i (r ∷ rs) receipts receipts' part answers e h = elim answers [ ]
  each_response-IsRight all (tx ∷ txs) i [] receipts receipts' part answers e h = elim answers [ ]
  each_response-IsRight all (tx ∷ txs) i (r ∷ rs) receipts receipts' part (one same result rest) e
        h =
      let (next, stored, e') = >>=-eq-some (store_receipt j all r receipts) _ e in
      let (receipt, decoded, put_) = >>=-eq-some (j.read_receipt r.result) _ stored in
      let hash : hash_of all r.id ≡ tx.hash =
        ap (hash_of all) same ∙ hash_of-at all txs tx i part in
      let right : receipt_for tx.hash ≡ some receipt = ap j.read_receipt (sym result) ∙ decoded in
      each_response-IsRight all txs (i + 1) rs next receipts'
        (λ k. ap (get_elem? all) (omega arith) ∙ part (suc k)) rest e'
        (subst IsRight (some_inj.0 put_) (
          put-IsRight (hash_of all r.id) receipt receipts
            (subst (λ x. receipt_for x ≡ some receipt) (sym hash) right) h))

  -- The receipts are those of the transactions, in order.
  pub data Receive : List Bytes → List j.Receipt → Type 0 where
    nothing : Receive [] []
    received :
        {hash : Bytes} {r : j.Receipt} {hashes : List Bytes} {receipts : List j.Receipt}
        → receipt_for hash ≡ some r
        → Receive hashes receipts
        → Receive (hash ∷ hashes) (r ∷ receipts)

  pub assemble_receipts-Receive :
      (receipts : Receipts j) (hashes : List Bytes) (assembled : List j.Receipt)
      → IsRight receipts
      → assemble_receipts j receipts hashes ≡ some assembled
      → Receive hashes assembled
  unfolding assemble_receipts
  assemble_receipts-Receive receipts [] assembled h e = subst (Receive []) (some_inj.0 e) nothing
  assemble_receipts-Receive receipts (hash ∷ hashes) assembled h e =
      let (r, found, e') = >>=-eq-some (receipts hash) _ e in
      let (rest, later, e'') = >>=-eq-some (assemble_receipts j receipts hashes) _ e' in
      subst (Receive (hash ∷ hashes)) (some_inj.0 e'')
        (received (h hash r found) (assemble_receipts-Receive receipts hashes rest h later))

  module _ (net : Network) (debug_batch_size : ℕ) where
    fetch_receipts_batch-IsRight :
        (txs : List TxInfo) (receipts : Receipts j)
        → ((i : ℕ) → Honest answer (receipt_requests txs 0) (net.receipts i))
        → fetch_receipts_batch j net debug_batch_size txs ≡ some receipts
        → IsRight receipts
    unfolding fetch_receipts_batch
    fetch_receipts_batch-IsRight txs receipts honest e =
        let (batches, chunks, e') =
          >>=-eq-some (chunks_of (receipt_requests txs 0) batch_size) _ e in
        let (others, same, whole, _) =
          chunks_of-flatten (receipt_requests txs 0) batch_size (omega arith) in
        let all : flatten batches ≡ receipt_requests txs 0 =
          ap flatten (some_inj.0 (sym chunks ∙ same)) ∙ whole in
        let (rs, answers, stored) =
          each_batch-Answers answer (store_receipt j txs) net.receipts 0 batches _ receipts
            (λ i. subst (λ l. Honest answer l (net.receipts i)) (sym all) (honest i)) e' in
        each_response-IsRight txs txs 0 rs _ receipts (λ k. ap (get_elem? txs) (omega arith))
          (subst (λ l. Answers answer l rs) all answers) stored (λ hash r found. cc found)

    pub receipts_of-IsRight :
        (txs : List TxInfo) (receipts : Receipts j)
        → ((i : ℕ) → Honest answer (receipt_requests txs 0) (net.receipts i))
        → receipts_of j net debug_batch_size txs ≡ some receipts
        → IsRight receipts
    unfolding receipts_of
    receipts_of-IsRight [] receipts honest e =
        subst IsRight (some_inj.0 e) (λ hash r found. cc found)
    receipts_of-IsRight (tx ∷ txs) receipts honest e =
        fetch_receipts_batch-IsRight (tx ∷ txs) receipts honest e
