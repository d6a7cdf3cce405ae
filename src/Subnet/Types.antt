-- ===== src/Subnet/Types.antt =====
-- indexing-subnet-evm/marshal.go: the types of libevm that it reads, and those that it makes. Hashes,
-- addresses and texts are byte strings; a pointer that may be nil is an option; a map from names to
-- values is the list of its entries, in the order of the writes.
use l1_data_tools.Common.{ℕ, List, Option, Bytes}

pub data TxType : Type 0 where
  legacy access_list dynamic_fee blob other : TxType

-- `types.Transaction`, as the code reads it. Amounts of gas and fees are not negative.
pub record Transaction : Type 0 where
  pub type : TxType
  pub type_number : ℕ
  pub gas : ℕ
  pub gas_price : ℕ
  pub gas_tip_cap : ℕ
  pub gas_fee_cap : ℕ
  pub hash : Bytes
  pub input : Bytes
  pub nonce : ℕ
  pub to : Option Bytes
  pub value : ℕ
  pub v : ℕ
  pub r : ℕ
  pub s : ℕ
  pub access_list : Bytes
  pub chain_id : ℕ
  pub blob_hashes : List Bytes

-- `types.Header`, with the extra of subnet-evm.
pub record Header : Type 0 where
  pub number : ℕ
  pub hash : Bytes
  pub parent_hash : Bytes
  pub nonce : Bytes
  pub mix_digest : Bytes
  pub uncle_hash : Bytes
  pub bloom : Bytes
  pub root : Bytes
  pub coinbase : Bytes
  pub difficulty : ℕ
  pub extra : Bytes
  pub gas_limit : ℕ
  pub gas_used : ℕ
  pub time : ℕ
  pub tx_hash : Bytes
  pub receipt_hash : Bytes
  pub base_fee : Option ℕ
  pub block_gas_cost : Option ℕ
  pub blob_gas_used : Option ℕ
  pub excess_blob_gas : Option ℕ
  pub withdrawals_hash : Option Bytes
  pub parent_beacon_root : Option Bytes

pub record Block : Type 0 where
  pub header : Header
  pub size : ℕ
  pub transactions : List Transaction
  pub uncle_hashes : List Bytes

pub record Receipt : Type 0 where
  pub gas_used : ℕ
  pub cumulative_gas_used : ℕ
  pub contract_address : Bytes
  pub logs : Bytes
  pub bloom : Bytes
  pub type_number : ℕ
  pub status : ℕ
  pub effective_gas_price : Option ℕ

-- `RPCTransaction`. The fields without an option are always there.
pub record RpcTransaction : Type 0 where
  pub block_hash : Option Bytes
  pub block_number : Option ℕ
  pub from : Bytes
  pub gas : ℕ
  pub gas_price : ℕ
  pub gas_fee_cap : Option ℕ
  pub gas_tip_cap : Option ℕ
  pub hash : Bytes
  pub input : Bytes
  pub nonce : ℕ
  pub to : Option Bytes
  pub transaction_index : Option ℕ
  pub value : ℕ
  pub type_number : ℕ
  pub accesses : Option Bytes
  pub chain_id : Option ℕ
  pub v : ℕ
  pub r : ℕ
  pub s : ℕ
  pub y_parity : Option ℕ
  pub blob_versioned_hashes : List Bytes

-- The values of the maps.
pub data Value : Type 0 where
  big : ℕ → Value
  uint : ℕ → Value
  bytes : Bytes → Value
  null : Value
  hashes : List Bytes → Value
  transactions : List (Option RpcTransaction) → Value
  plain_transactions : List Transaction → Value

abbrev pub Entries : Type 0
Entries = List (Bytes × Value)
