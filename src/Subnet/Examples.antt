-- ===== src/Subnet/Examples.antt =====
-- The theorems on the blocks of indexing-subnet-evm at concrete inputs: a chain that answers the same
-- block for each number.
pub mod Runs
use l1_data_tools.Common.{
  ℕ, ◌≡◌, ◌≢◌, ◌⊎◌, refl, sym, true, List, [], ◌∷◌, none, some, arith, Bytes, codes, compare_bytes,
  length, get_elem?, if◌then◌else◌, ◌==◌, bytes_eq, false,
}
use l1_data_tools.Storage.Keys.{pad, block_key, batch_key}
use l1_data_tools.Storage.Batch.RoundTrip.{IsLine}
use l1_data_tools.Storage.Compactor.ReadBack.{read_back, IsStart}
use l1_data_tools.Storage.Memory.{get}
use l1_data_tools.Storage.Sample.{copy}
use l1_data_tools.Storage.Sorted.{sorted, delete_keys}
use l1_data_tools.Storage.VersionDb.{
  new_storage, deleted_keys, contains, save_block, save_batch, save_meta, delete_block_range,
  get_batch_compressed, version_db_storage,
}
use l1_data_tools.Subnet.Types.{
  TxType, Transaction, Header, Block, Receipt, Entries, RpcTransaction,
}
use l1_data_tools.Subnet.Marshal.{
  Signers, effective_gas_price, marshal_receipt, marshal_transactions, new_rpc_transaction,
}
use l1_data_tools.Subnet.Marshal.Price.{effective_gas_price-min}
use l1_data_tools.Subnet.Marshal.Fields.{Names, Places, marshal_receipts-marshal_transactions}
use l1_data_tools.Subnet.Index.{Chain, block_data, marshal_receipts}
use l1_data_tools.Subnet.Accept.{
  Vm, Start, accept, initialize, ready, index_block, block_accept, store_heights, commit, abort,
}
use l1_data_tools.Subnet.Accept.Reach.{Reach, Step, restarted_at, Agrees}
use l1_data_tools.Subnet.Accept.Consistent.{restore-Covers}
use l1_data_tools.Storage.VersionDb.Covers.{Covers-empty}
use l1_data_tools.Subnet.Accept.Safety.{
  Reach-readable, initialize-Reach, accept_lem, Extended, Refused,
}
use l1_data_tools.Subnet.Accept.Torn.{tear, accept-tear}
use l1_data_tools.Subnet.Validate.{
  validate_after_bootstrap, no_indexed_blocks, already_synced, fetch_block_via_rpc,
}
use l1_data_tools.Subnet.Validate.Runs.{
  fetch_block_via_rpc-block_data, validate_after_bootstrap-Reach,
}

abbrev payment : Transaction
payment = record {
  type = TxType.dynamic_fee;
  type_number = 2;
  gas = 21000;
  gas_price = 30;
  gas_tip_cap = 2;
  gas_fee_cap = 30;
  hash = codes "t";
  input = [];
  nonce = 0;
  to = none;
  value = 5;
  v = 1;
  r = 1;
  s = 1;
  access_list = [];
  chain_id = 7;
  blob_hashes = [];
}

abbrev head : Header
head = record {
  number = 1;
  hash = codes "h";
  parent_hash = [];
  nonce = [];
  mix_digest = [];
  uncle_hash = [];
  bloom = [];
  root = [];
  coinbase = [];
  difficulty = 1;
  extra = [];
  gas_limit = 8000000;
  gas_used = 21000;
  time = 100;
  tx_hash = [];
  receipt_hash = [];
  base_fee = some 25;
  block_gas_cost = none;
  blob_gas_used = none;
  excess_blob_gas = none;
  withdrawals_hash = none;
  parent_beacon_root = none;
}

abbrev one_payment : Block
one_payment = record { header = head; size = 600; transactions = payment ∷ []; uncle_hashes = [] }

abbrev paid : Receipt
paid = record {
  gas_used = 21000;
  cumulative_gas_used = 21000;
  contract_address = [];
  logs = [];
  bloom = [];
  type_number = 2;
  status = 1;
  effective_gas_price = some 27;
}

abbrev signers : Signers
signers = record { sender = λ n t tx. codes "s"; zero_hash = []; zero_address = [] }

abbrev pub chain : Chain
chain = record {
  Traces = ℕ;
  signers = signers;
  get_block_by_number = λ n. some one_payment;
  get_receipts_by_hash = λ h. some (paid ∷ []);
  tracer = some (λ n. some n);
  encode = λ b rs t. some (codes "{}");
}

abbrev receipt_entries : List Entries
receipt_entries = marshal_receipt signers paid (codes "h") 1 0 payment ∷ []

marshalled : marshal_receipts chain one_payment (paid ∷ []) 0 ≡ some receipt_entries
unfolding marshal_receipts
marshalled = refl

mined : bytes_eq (codes "h") [] ≡ false
unfolding compare_bytes
mined = refl

marshal_receipts-marshal_transactions_example :
    (length receipt_entries ≡ 1)
    × ((es : Entries) × (get_elem? receipt_entries 0 ≡ some es)
        × Names one_payment 0 payment paid es)
    × ((rt : RpcTransaction) × (get_elem?
            (marshal_transactions signers one_payment (payment ∷ []) 0)
            0
          ≡ some (some rt))
        × Places one_payment 0 payment rt)
marshal_receipts-marshal_transactions_example =
    marshal_receipts-marshal_transactions chain one_payment (paid ∷ []) receipt_entries 0 payment
      paid mined marshalled refl refl
