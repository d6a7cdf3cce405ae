-- ===== src/Subnet/Accept/Reach.antt =====
-- On indexing-subnet-evm/block.go and vm.go: the states of the virtual machine between two blocks, over
-- any number of blocks, failures, compactions and restarts.
use l1_data_tools.Common.{
  ℕ, ◌+◌, ◌≤◌, ◌<◌, ◌≡◌, Bool, [], none, some, Bytes, ltb, u64, if◌then◌else◌,
}
use l1_data_tools.Storage.Batch.{Zstd}
use l1_data_tools.Storage.VersionDb.{Database, VersionDb, new_storage}
use l1_data_tools.Storage.VersionDb.Covers.{Covers}
use l1_data_tools.Api.{update_latest_block}
use l1_data_tools.Subnet.Index.{Chain, block_data}
use l1_data_tools.Subnet.Accept.{Vm, accept, compact, Start, ready, or_zero, initialize}

module _ (z : Zstd) (d : Database) (block_of : ℕ → Bytes) where
  -- The chain answers with its own block, if it answers.
  abbrev pub Agrees : Chain → ℕ → Type 0
  Agrees c n = (text : Bytes) → block_data c n ≡ some text → text ≡ block_of n

  -- The next block is accepted, or fails; a compaction runs between two blocks; the program ends, and
  -- starts again on what is committed.
  pub data Step (s t : Vm d) : Type 1 where
    next :
        (c : Chain) (commits : Bool)
        → Agrees c (s.disk_height + 1)
        → s.disk_height + 1201 < u64
        → t ≡ (accept d c commits (s.disk_height + 1) s).1
        → Step s t
    compacted : t ≡ compact d z s → Step s t
    restarted :
        (start : Start)
        → or_zero start.current_block ≡ s.disk_height
        → initialize d start s.disk ≡ ready t
        → Step s t

  -- The states after a first start, on an empty database at the genesis block.
  pub data Reach : Vm d → Type 1 where
    begun :
        (start : Start) (db : d.Db) (t : Vm d)
        → ((k : Bytes) → d.get db k ≡ none)
        → or_zero start.current_block ≡ 0
        → initialize d start db ≡ ready t
        → Reach t
    stepped : (s t : Vm d) → Reach s → Step s t → Reach t

  abbrev pub at : d.Db → VersionDb d
  at db = record { db = db; latest = 0 }

  -- What is committed covers the accepted blocks, and so does what the program sees.
  pub record IsConsistent (vm : Vm d) : Type 0 where
    pub disk : Covers z d block_of vm.disk_height (at vm.disk)
    pub view : Covers z d block_of vm.disk_height vm.store
    pub near : vm.store.latest ≤ vm.disk_height + 1
    pub indexed : vm.last_indexed ≡ vm.disk_height
    pub accepted : vm.last_accepted ≡ vm.disk_height

  -- The state after a restart at this height.
  abbrev pub restarted_at : ℕ → d.Db → Vm d
  restarted_at height db = record {
    disk = db;
    disk_height = height;
    store = new_storage d db;
    last_indexed = height;
    last_accepted = height;
    served = (if ltb 0 height then update_latest_block [] height 0 else 0);
  }
