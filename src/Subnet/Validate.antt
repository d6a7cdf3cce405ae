-- ===== src/Subnet/Validate.antt =====
-- indexing-subnet-evm/validate.go: the comparison of a stored block with what the chain answers, after
-- the bootstrap. The log lines and the files for debugging are its outcomes here.
pub mod Runs
use l1_data_tools.Common.{
  ℕ, ◌+◌, Bool, true, List, ◌++◌, Option, none, some, ◌>>=◌, Bytes, codes, bytes_eq, length, take,
  ltb, leb, ◌==◌, if◌then◌else◌,
}
use l1_data_tools.Storage.VersionDb.{Database, get_block}
use l1_data_tools.Subnet.Marshal.{rpc_marshal_block}
use l1_data_tools.Subnet.Index.{Chain, marshal_receipts}
use l1_data_tools.Subnet.Accept.{Vm}

pub data Validation : Type 0 where
  no_indexed_blocks : Validation
  tip_not_indexed : Validation
  already_synced : Validation
  not_in_db : Validation
  fetch_failed : Validation
  db_not_normalized : Validation
  rpc_not_normalized : Validation
  passed : Validation
  failed : Validation

unfoldable pub fetch_block_via_rpc : Chain → ℕ → Option Bytes
fetch_block_via_rpc c height = do
  block ← c.get_block_by_number height
  receipts ← c.get_receipts_by_hash block.header.hash
  trace ← c.tracer
  traces ← trace height
  receipts_rpc ← marshal_receipts c block receipts 0
  c.encode (rpc_marshal_block c.signers block true true) receipts_rpc traces

-- `normalize` is `json.Unmarshal` and `json.Marshal`.
unfoldable pub compare_texts : (Bytes → Option Bytes) → Bytes → Bytes → Validation
compare_texts normalize db_data rpc_data = elim (normalize db_data) [
  | none ↦ db_not_normalized
  | some db_norm ↦ elim (normalize rpc_data) [
    | none ↦ rpc_not_normalized
    | some rpc_norm ↦ (if bytes_eq db_norm rpc_norm then passed else failed)
  ]
]

module _ (d : Database) (normalize : Bytes → Option Bytes) (c : Chain) where
  -- The part with a height to validate.
  unfoldable pub validate_at : ℕ → Vm d → Validation
  unfolding compare_texts fetch_block_via_rpc
  validate_at height vm = elim (get_block d height vm.store) [
    | none ↦ not_in_db
    | some db_data ↦ elim (fetch_block_via_rpc c height) [
      | none ↦ fetch_failed
      | some rpc_data ↦ compare_texts normalize db_data rpc_data
    ]
  ]

  -- `current_height` is the number of the chain's current block.
  unfoldable pub validate_after_bootstrap : ℕ → Vm d → Validation
  unfolding validate_at
  validate_after_bootstrap current_height vm =
      if vm.last_indexed == 0
      then no_indexed_blocks
      else if ltb vm.last_indexed current_height
      then tip_not_indexed
      else if current_height == vm.last_indexed
      then already_synced
      else validate_at current_height vm

-- Of the text of the differences.
unfoldable pub truncate : Bytes → ℕ → Bytes
truncate s max_len = if leb (length s) max_len then s else take max_len s ++ codes "..."
