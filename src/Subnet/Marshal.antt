-- ===== src/Subnet/Marshal.antt =====
-- indexing-subnet-evm/marshal.go: blocks, transactions and receipts in the format of the RPC.
pub mod Price
pub mod Fields
use l1_data_tools.Common.{
  ℕ, ◌+◌, ◌-◌, ◌%◌, not, Bool, true, false, List, [], ◌∷◌, ◌++◌, Option, none, some, Bytes, codes,
  bytes_eq, u64, length, get_elem?, map, ltb, leb, ◌==◌, if◌then◌else◌,
}
use l1_data_tools.Subnet.Types.{
  TxType, legacy, access_list, dynamic_fee, blob, other, Transaction, Header, Block, Receipt,
  RpcTransaction, Value, big, uint, bytes, null, hashes, transactions, plain_transactions, Entries,
}
use l1_data_tools.Common.Int.{ℤ, pos, negsuc}

-- `if p != nil { fields[name] = … }`.
abbrev pub if_set {ℓ} : {A : Type ℓ} → Bytes → (A → Value) → Option A → Entries
if_set name show none = []
if_set name show (some a) = (name, show a) ∷ []

unfoldable pub rpc_marshal_header : Header → Entries
rpc_marshal_header head =
    (codes "number", big head.number)
      ∷ (codes "hash", bytes head.hash)
      ∷ (codes "parentHash", bytes head.parent_hash)
      ∷ (codes "nonce", bytes head.nonce)
      ∷ (codes "mixHash", bytes head.mix_digest)
      ∷ (codes "sha3Uncles", bytes head.uncle_hash)
      ∷ (codes "logsBloom", bytes head.bloom)
      ∷ (codes "stateRoot", bytes head.root)
      ∷ (codes "miner", bytes head.coinbase)
      ∷ (codes "difficulty", big head.difficulty)
      ∷ (codes "extraData", bytes head.extra)
      ∷ (codes "gasLimit", uint head.gas_limit)
      ∷ (codes "gasUsed", uint head.gas_used)
      ∷ (codes "timestamp", uint head.time)
      ∷ (codes "transactionsRoot", bytes head.tx_hash)
      ∷ (codes "receiptsRoot", bytes head.receipt_hash)
      ∷ if_set (codes "baseFeePerGas") big head.base_fee
    ++ if_set (codes "blockGasCost") big head.block_gas_cost
    ++ if_set (codes "blobGasUsed") uint head.blob_gas_used
    ++ if_set (codes "excessBlobGas") uint head.excess_blob_gas
    ++ if_set (codes "withdrawalsRoot") bytes head.withdrawals_hash
    ++ if_set (codes "parentBeaconBlockRoot") bytes head.parent_beacon_root

-- `fee - baseFee` may be negative.
abbrev pub sub_big : ℕ → ℕ → ℤ
sub_big fee ℕ.zero = pos fee
sub_big ℕ.zero (ℕ.suc base) = negsuc base
sub_big (ℕ.suc fee) (ℕ.suc base) = sub_big fee base

abbrev pub exceeds : ℤ → ℕ → Bool
exceeds (pos n) tip = ltb tip n
exceeds (negsuc n) tip = false

-- `base + t` for a `t` that is at least `-base`.
abbrev pub add_big : ℕ → ℤ → ℕ
add_big base (pos t) = base + t
add_big base (negsuc t) = base - ℕ.suc t

unfoldable pub effective_gas_price : Transaction → Option ℕ → ℕ
effective_gas_price tx none = tx.gas_price
effective_gas_price tx (some base_fee) =
    let effective_tip = sub_big tx.gas_fee_cap base_fee in
    add_big base_fee
      (if exceeds effective_tip tx.gas_tip_cap then pos tx.gas_tip_cap else effective_tip)

-- `types.MakeSigner` and `types.Sender` for the block's number and time, the zero address where the
-- sender is not recovered.
pub record Signers : Type 0 where
  pub sender : ℕ → ℕ → Transaction → Bytes
  pub zero_hash : Bytes
  pub zero_address : Bytes

-- `v.Sign()`, for a `v` that is not negative.
abbrev pub sign : ℕ → ℕ
sign n = if ltb 0 n then 1 else 0

module _ (g : Signers) where
  -- The fields that every type has, with those of a mined transaction.
  abbrev basic : Transaction → Bytes → ℕ → ℕ → ℕ → RpcTransaction
  basic tx block_hash block_number block_time index =
      let mined = not (bytes_eq block_hash g.zero_hash) in
      record {
        block_hash = (if mined then some block_hash else none);
        block_number = (if mined then some block_number else none);
        from = g.sender block_number block_time tx;
        gas = tx.gas;
        gas_price = tx.gas_price;
        gas_fee_cap = none;
        gas_tip_cap = none;
        hash = tx.hash;
        input = tx.input;
        nonce = tx.nonce;
        to = tx.to;
        transaction_index = (if mined then some index else none);
        value = tx.value;
        type_number = tx.type_number;
        accesses = none;
        chain_id = none;
        v = tx.v;
        r = tx.r;
        s = tx.s;
        y_parity = none;
        blob_versioned_hashes = [];
      }

  abbrev with_access_list : Transaction → RpcTransaction → RpcTransaction
  with_access_list tx result = record result {
    accesses = some tx.access_list;
    chain_id = some tx.chain_id;
    y_parity = some (sign tx.v);
  }

  abbrev with_fees : Transaction → Option ℕ → RpcTransaction → RpcTransaction
  with_fees tx base_fee result = record result {
    gas_fee_cap = some tx.gas_fee_cap;
    gas_tip_cap = some tx.gas_tip_cap;
    gas_price = effective_gas_price tx base_fee;
  }

  -- The `switch` on the type.
  unfoldable pub by_type : TxType → Transaction → Option ℕ → RpcTransaction → RpcTransaction
  by_type legacy tx base_fee result = result
  by_type access_list tx base_fee result = with_access_list tx result
  by_type dynamic_fee tx base_fee result = with_fees tx base_fee (with_access_list tx result)
  by_type blob tx base_fee result = record (with_fees tx base_fee (with_access_list tx result)) {
    blob_versioned_hashes = tx.blob_hashes;
  }
  by_type other tx base_fee result = result

  unfoldable pub new_rpc_transaction : Transaction → Bytes → ℕ → ℕ → ℕ → Option ℕ → RpcTransaction
  unfolding by_type
  new_rpc_transaction tx block_hash block_number block_time index base_fee =
      by_type tx.type tx base_fee (basic tx block_hash block_number block_time index)

  unfoldable pub new_rpc_transaction_from_block_index : Block → ℕ → Option RpcTransaction
  unfolding new_rpc_transaction
  new_rpc_transaction_from_block_index b index = elim (get_elem? b.transactions index) [
    | none ↦ none
    | some tx ↦
        some (
          new_rpc_transaction tx b.header.hash b.header.number b.header.time index
            b.header.base_fee)
  ]

  -- The loop over the transactions from the index `i` on.
  unfoldable pub marshal_transactions : Block → List Transaction → ℕ → List (Option RpcTransaction)
  marshal_transactions b [] i = []
  marshal_transactions b (tx ∷ txs) i =
      new_rpc_transaction_from_block_index b i ∷ marshal_transactions b txs (i + 1)

  unfoldable pub rpc_marshal_block : Block → Bool → Bool → Entries
  unfolding rpc_marshal_header
  rpc_marshal_block block incl_tx full_tx =
      rpc_marshal_header block.header
      ++ (codes "size", uint block.size)
        ∷ (if incl_tx
            then ((
              codes "transactions",
              (if full_tx
                  then transactions (marshal_transactions block block.transactions 0)
                  else plain_transactions block.transactions),
            )
                ∷ [])
            else [])
      ++ (codes "uncles", hashes block.uncle_hashes) ∷ []

  -- `getFrom` makes its signer for the time 0.
  unfoldable pub get_from : Transaction → ℕ → Bytes
  get_from tx block_number = g.sender block_number 0 tx

  abbrev pub address_or_null : Option Bytes → Value
  address_or_null none = null
  address_or_null (some a) = bytes a

  unfoldable pub marshal_receipt : Receipt → Bytes → ℕ → ℕ → Transaction → Entries
  unfolding get_from
  marshal_receipt receipt block_hash block_number index tx =
      (codes "blockHash", bytes block_hash)
      ∷ (codes "blockNumber", uint block_number)
      ∷ (codes "transactionHash", bytes tx.hash)
      ∷ (codes "transactionIndex", uint index)
      ∷ (codes "from", bytes (get_from tx block_number))
      ∷ (codes "to", address_or_null tx.to)
      ∷ (codes "gasUsed", uint receipt.gas_used)
      ∷ (codes "cumulativeGasUsed", uint receipt.cumulative_gas_used)
      ∷ (
        codes "contractAddress",
        (if bytes_eq receipt.contract_address g.zero_address
            then null
            else bytes receipt.contract_address),
      )
      ∷ (codes "logs", bytes receipt.logs)
      ∷ (codes "logsBloom", bytes receipt.bloom)
      ∷ (codes "type", uint receipt.type_number)
      ∷ (codes "status", uint receipt.status)
      ∷ if_set (codes "effectiveGasPrice") (λ price. uint (price % u64)) receipt.effective_gas_price
