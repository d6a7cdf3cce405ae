-- ===== src/Subnet/Marshal/Fields.antt =====
-- On indexing-subnet-evm/marshal.go and indexer.go: the lists of a block's transactions and receipts.
use l1_data_tools.Common.{
  ℕ, zero, suc, ◌+◌, ◌≡◌, refl, sym, ap, ◌∙◌, List, [], ◌∷◌, some, none, Option, arith, length,
  get_elem?, >>=-eq-some, Bytes, bytes_eq, codes, compare_bytes, false, if◌then◌else◌,
}
use mathlib.Core.Option.{some_inj}
use l1_data_tools.Subnet.Types.{
  TxType, legacy, access_list, dynamic_fee, blob, other, Transaction, Block, Receipt, Entries,
  Value, bytes, uint, RpcTransaction,
}
use l1_data_tools.Subnet.Marshal.{
  Signers, new_rpc_transaction, new_rpc_transaction_from_block_index, marshal_transactions,
  marshal_receipt, by_type,
}
use l1_data_tools.Subnet.Index.{Chain, marshal_receipts}

marshal_transactions-at :
    (g : Signers) (b : Block) (txs : List Transaction) (from i : ℕ) (tx : Transaction)
    → get_elem? txs i ≡ some tx
    → get_elem? (marshal_transactions g b txs from) i
      ≡ some (new_rpc_transaction_from_block_index g b (from + i))
unfolding marshal_transactions
marshal_transactions-at g b [] from i tx e = cc
marshal_transactions-at g b (t ∷ txs) from zero tx e =
    ap (λ k. some (new_rpc_transaction_from_block_index g b k)) (omega arith)
marshal_transactions-at g b (t ∷ txs) from (suc i) tx e =
    marshal_transactions-at g b txs (from + 1) i tx e
    ∙ ap (λ k. some (new_rpc_transaction_from_block_index g b k)) (omega arith)

marshal_receipts-at :
    (c : Chain) (b : Block) (receipts : List Receipt) (from i : ℕ) (rs : List Entries)
    (tx : Transaction) (r : Receipt)
    → marshal_receipts c b receipts from ≡ some rs
    → get_elem? b.transactions (from + i) ≡ some tx
    → get_elem? receipts i ≡ some r
    → get_elem? rs i
      ≡ some (marshal_receipt c.signers r b.header.hash b.header.number (from + i) tx)
unfolding marshal_receipts
marshal_receipts-at c b [] from i rs tx r e et er = cc
marshal_receipts-at c b (receipt ∷ receipts) from zero rs tx r e et er =
    let (t, at_from, e') = >>=-eq-some (get_elem? b.transactions from) _ e in
    let (rest, tail, e'') = >>=-eq-some (marshal_receipts c b receipts (from + 1)) _ e' in
    let same_tx : t ≡ tx =
      some_inj.0 (sym at_from ∙ ap (get_elem? b.transactions) (omega arith) ∙ et) in
    let same_r : receipt ≡ r = some_inj.0 er in
    let same_i : from ≡ from + 0 = omega arith in
    let first = marshal_receipt c.signers receipt b.header.hash b.header.number from t in
    ap (λ l. get_elem? l 0) (sym (some_inj.0 e''))
    ∙ ap (λ x. some (marshal_receipt c.signers x b.header.hash b.header.number from t)) same_r
    ∙ ap (λ x. some (marshal_receipt c.signers r b.header.hash b.header.number from x)) same_tx
    ∙ ap (λ x. some (marshal_receipt c.signers r b.header.hash b.header.number x tx)) same_i
marshal_receipts-at c b (receipt ∷ receipts) from (suc i) rs tx r e et er =
    let (t, at_from, e') = >>=-eq-some (get_elem? b.transactions from) _ e in
    let (rest, tail, e'') = >>=-eq-some (marshal_receipts c b receipts (from + 1)) _ e' in
    ap (λ l. get_elem? l (suc i)) (sym (some_inj.0 e''))
    ∙ marshal_receipts-at c b receipts (from + 1) i rest tx r tail
        (ap (get_elem? b.transactions) (omega arith) ∙ et) er
    ∙ ap (λ k. some (marshal_receipt c.signers r b.header.hash b.header.number k tx)) (omega arith)

length-marshal_receipts :
    (c : Chain) (b : Block) (receipts : List Receipt) (from : ℕ) (rs : List Entries)
    → marshal_receipts c b receipts from ≡ some rs
    → length rs ≡ length receipts
unfolding marshal_receipts
length-marshal_receipts c b [] from rs e = ap length (sym (some_inj.0 e))
length-marshal_receipts c b (receipt ∷ receipts) from rs e =
    let (t, _, e') = >>=-eq-some (get_elem? b.transactions from) _ e in
    let (rest, tail, e'') = >>=-eq-some (marshal_receipts c b receipts (from + 1)) _ e' in
    ap length (sym (some_inj.0 e''))
    ∙ ap suc (length-marshal_receipts c b receipts (from + 1) rest tail)

-- The value of a name in an object.
unfoldable pub entry : Bytes → Entries → Option Value
entry name [] = none
entry name ((key, value) ∷ rest) =
    let later = entry name rest in if bytes_eq key name then some value else later

-- The entry of a receipt names the transaction `tx`, at `i` of the block.
pub record Names (b : Block) (i : ℕ) (tx : Transaction) (r : Receipt) (es : Entries) : Type 0 where
  pub transaction_hash : entry (codes "transactionHash") es ≡ some (bytes tx.hash)
  pub transaction_index : entry (codes "transactionIndex") es ≡ some (uint i)
  pub block_hash : entry (codes "blockHash") es ≡ some (bytes b.header.hash)
  pub block_number : entry (codes "blockNumber") es ≡ some (uint b.header.number)
  pub status : entry (codes "status") es ≡ some (uint r.status)
  pub gas_used : entry (codes "gasUsed") es ≡ some (uint r.gas_used)

-- The entry of a transaction is of `tx`, mined at `i` of the block.
pub record Places (b : Block) (i : ℕ) (tx : Transaction) (rt : RpcTransaction) : Type 0 where
  pub hash : rt.hash ≡ tx.hash
  pub transaction_index : rt.transaction_index ≡ some i
  pub block_hash : rt.block_hash ≡ some b.header.hash
  pub block_number : rt.block_number ≡ some b.header.number

marshal_receipt-Names :
    (g : Signers) (b : Block) (i : ℕ) (tx : Transaction) (r : Receipt)
    → Names b i tx r (marshal_receipt g r b.header.hash b.header.number i tx)
unfolding marshal_receipt entry compare_bytes
marshal_receipt-Names g b i tx r = record {
  transaction_hash = refl;
  transaction_index = refl;
  block_hash = refl;
  block_number = refl;
  status = refl;
  gas_used = refl;
}

by_type-Places :
    (g : Signers) (b : Block) (i : ℕ) (type : TxType) (tx : Transaction) (fee : Option ℕ)
    (rt : RpcTransaction)
    → Places b i tx rt
    → Places b i tx (by_type g type tx fee rt)
unfolding by_type
by_type-Places g b i legacy tx fee rt h = h
by_type-Places g b i access_list tx fee rt h = record {
  hash = h.hash;
  transaction_index = h.transaction_index;
  block_hash = h.block_hash;
  block_number = h.block_number;
}
by_type-Places g b i dynamic_fee tx fee rt h = record {
  hash = h.hash;
  transaction_index = h.transaction_index;
  block_hash = h.block_hash;
  block_number = h.block_number;
}
by_type-Places g b i blob tx fee rt h = record {
  hash = h.hash;
  transaction_index = h.transaction_index;
  block_hash = h.block_hash;
  block_number = h.block_number;
}
by_type-Places g b i other tx fee rt h = h

new_rpc_transaction-Places :
    (g : Signers) (b : Block) (i : ℕ) (tx : Transaction)
    → bytes_eq b.header.hash g.zero_hash ≡ false
    → Places b i tx
        (new_rpc_transaction g tx b.header.hash b.header.number b.header.time i b.header.base_fee)
unfolding new_rpc_transaction
new_rpc_transaction-Places g b i tx mined =
    by_type-Places g b i tx.type tx b.header.base_fee _ (record {
      hash = refl;
      transaction_index = (rw mined refl);
      block_hash = (rw mined refl);
      block_number = (rw mined refl);
    })

-- Where the receipts of a block whose hash is not zero can be marshalled, there is an entry for each,
-- and the entries line up: under "transactionHash" and "transactionIndex" the receipt `i` has the hash
-- of transaction `i`, and `i`, and its own status and gas; and the list of the transactions has, at
-- `i`, an entry with the same hash, index and block.
pub marshal_receipts-marshal_transactions :
    (c : Chain) (b : Block) (receipts : List Receipt) (rs : List Entries) (i : ℕ) (tx : Transaction)
    (r : Receipt)
    → bytes_eq b.header.hash c.signers.zero_hash ≡ false
    → marshal_receipts c b receipts 0 ≡ some rs
    → get_elem? b.transactions i ≡ some tx
    → get_elem? receipts i ≡ some r
    → (length rs ≡ length receipts)
      × ((es : Entries) × (get_elem? rs i ≡ some es) × Names b i tx r es)
      × ((rt : RpcTransaction) × (get_elem? (marshal_transactions c.signers b b.transactions 0) i
            ≡ some (some rt))
          × Places b i tx rt)
unfolding new_rpc_transaction_from_block_index
marshal_receipts-marshal_transactions c b receipts rs i tx r mined e et er =
    let from_zero : i ≡ 0 + i = omega arith in
    (
      length-marshal_receipts c b receipts 0 rs e,
      (
        marshal_receipt c.signers r b.header.hash b.header.number i tx,
        marshal_receipts-at c b receipts 0 i rs tx r e
              (ap (get_elem? b.transactions) (sym from_zero) ∙ et) er
            ∙ ap (λ k. some (marshal_receipt c.signers r b.header.hash b.header.number k tx))
                (sym from_zero),
        marshal_receipt-Names c.signers b i tx r,
      ),
      (
        new_rpc_transaction c.signers tx b.header.hash b.header.number b.header.time i
            b.header.base_fee,
        marshal_transactions-at c.signers b b.transactions 0 i tx et
            ∙ ap (λ k. some (new_rpc_transaction_from_block_index c.signers b k)) (sym from_zero)
            ∙ (rw (et, new_rpc_transaction_from_block_index) refl),
        new_rpc_transaction-Places c.signers b i tx mined,
      ),
    )
