-- ===== src/Subnet/Accept.antt =====
-- indexing-subnet-evm/block.go and vm.go: the state of the virtual machine, `Accept` and `Initialize`.
pub mod Outcome
pub mod Reach
pub mod Consistent
pub mod Safety
pub mod Torn
use l1_data_tools.Common.{
  ℕ, ◌+◌, ◌-◌, Bool, true, false, [], Option, none, some, ◌>>=◌, Bytes, bytes_eq, ltb, leb, ◌&&◌,
  ◌==◌, if◌then◌else◌,
}
use l1_data_tools.Storage.Batch.{Zstd}
use l1_data_tools.Storage.VersionDb.{
  Database, VersionDb, new_storage, save_block, get_meta, latest_block, version_db_storage,
}
use l1_data_tools.Storage.Compactor.{compact_one_batch}
use l1_data_tools.Api.{update_latest_block}
use l1_data_tools.Subnet.Index.{Chain, block_data}

-- What `Initialize` depends on: the setting, the chain's id, whether the wrapped VM starts and shows
-- its database and its chain, the chain's current block, and whether the server starts.
pub record Start : Type 0 where
  pub allowed_chain_id : Bytes
  pub chain_id : Bytes
  pub vm_starts : Bool
  pub current_block : Option ℕ
  pub server_starts : Bool

abbrev pub or_zero : Option ℕ → ℕ
or_zero none = 0
or_zero (some n) = n

module _ (d : Database) where
  -- `disk` and `disk_height` are what avalanchego's versiondb has committed: the database of the
  -- indexer, and the height of the chain. `store` sees the database through the writes that are still
  -- in memory. `served` is the latest block that the server announces.
  pub record Vm : Type 0 where
    pub disk : d.Db
    pub disk_height : ℕ
    pub store : VersionDb d
    pub last_indexed : ℕ
    pub last_accepted : ℕ
    pub served : ℕ

  -- `versiondb.Commit`, with the chain's new height.
  unfoldable pub commit : ℕ → Vm → Vm
  commit height vm = record vm { disk = vm.store.db; disk_height = height }

  -- `versiondb.Abort` drops what is in memory; the cache of the storage is not part of that.
  unfoldable pub abort : Vm → Vm
  abort vm = record vm { store = record vm.store { db = vm.disk } }

  unfoldable pub index_block : Chain → ℕ → Vm → Option Vm
  index_block c height vm = do
    data_ ← block_data c height
    store ← save_block d height data_ vm.store
    some (record vm { store = store; served = update_latest_block [] height vm.served })

  -- `Accept` of the wrapped block: it commits, or it fails and aborts.
  unfoldable pub block_accept : Bool → ℕ → Vm → Bool × Vm
  unfolding commit abort
  block_accept commits height vm = if commits then (true, commit height vm) else (false, abort vm)

  -- The end of `Accept`: the heights are stored after a commit only.
  unfoldable pub store_heights : ℕ → Bool × Vm → Bool × Vm
  store_heights height (true, vm) =
      (true, record vm { last_indexed = height; last_accepted = height })
  store_heights height (false, vm) = (false, vm)

  -- `IndexingBlock.Accept`: whether it returns nil, and the state. `commits` is how the wrapped block
  -- ends.
  unfoldable pub accept : Chain → Bool → ℕ → Vm → Bool × Vm
  unfolding store_heights block_accept index_block
  accept c commits height vm =
      let indexed : Bool × Vm = elim (index_block c height vm) [
        | none ↦ (false, vm)
        | some v ↦ store_heights height (block_accept commits height v)
      ] in
      if leb height vm.last_indexed then block_accept commits height vm else indexed

  pub data Started : Type 0 where
    chain_id_required : Started
    chain_not_allowed : Started
    vm_failed : Started
    gap : ℕ → Started
    server_failed : Started
    ready : Vm → Started

  -- The higher of the last compacted block and the latest block.
  unfoldable pub restored_height : VersionDb d → ℕ
  restored_height store = elim (latest_block d store) [
    | none ↦ get_meta d store
    | some latest ↦ (if ltb (get_meta d store) latest then latest else get_meta d store)
  ]

  -- From the storage on; `last_accepted` is the height of the chain.
  unfoldable pub restore : Bool → ℕ → d.Db → Started
  unfolding restored_height
  restore server_starts last_accepted disk =
      let store : VersionDb d = new_storage d disk in
      let last_indexed : ℕ = restored_height store in
      let vm : Vm = record {
        disk = disk;
        disk_height = last_accepted;
        store = store;
        last_indexed = last_indexed;
        last_accepted = last_accepted;
        served = (if ltb 0 last_indexed then update_latest_block [] last_indexed 0 else 0);
      } in
      if ltb 0 last_indexed && ltb last_indexed last_accepted
      then gap (last_accepted - last_indexed)
      else if server_starts
      then ready vm
      else server_failed

  unfoldable pub initialize : Start → d.Db → Started
  unfolding restore
  initialize s disk =
      if bytes_eq s.allowed_chain_id []
      then chain_id_required
      else if bytes_eq s.chain_id s.allowed_chain_id
      then (if s.vm_starts
          then restore s.server_starts (or_zero s.current_block) disk
          else vm_failed)
      else chain_not_allowed

  -- The compactor's `compactOneBatch` on the storage of the VM.
  unfoldable pub compact : Zstd → Vm → Vm
  compact z vm = record vm { store = (compact_one_batch z (version_db_storage d) vm.store).1 }
