-- ===== src/Subnet/Examples/Runs.antt =====
-- The theorems on the runs of indexing-subnet-evm at concrete inputs, on an empty database.
use l1_data_tools.Common.{
  ℕ, ◌≡◌, ◌≢◌, ◌⊎◌, refl, sym, true, [], ◌∷◌, none, some, arith, Bytes, codes, compare_bytes,
  if◌then◌else◌, ◌==◌,
}
use l1_data_tools.Storage.Keys.{pad, block_key, batch_key}
use l1_data_tools.Storage.Batch.RoundTrip.{IsLine}
use l1_data_tools.Storage.Compactor.ReadBack.{read_back, IsStart}
use l1_data_tools.Storage.Memory.{get}
use l1_data_tools.Storage.Sample.{copy}
use l1_data_tools.Storage.Sorted.{sorted, delete_keys}
use l1_data_tools.Storage.VersionDb.{
  new_storage, deleted_keys, contains, save_block, save_batch, save_meta, delete_block_range,
  get_batch_compressed, version_db_storage,
}
use l1_data_tools.Subnet.Index.{block_data, marshal_receipts}
use l1_data_tools.Subnet.Accept.{
  Vm, Start, accept, initialize, ready, index_block, block_accept, store_heights, commit, abort,
}
use l1_data_tools.Subnet.Accept.Reach.{Reach, Step, restarted_at, Agrees}
use l1_data_tools.Subnet.Accept.Consistent.{restore-Covers}
use l1_data_tools.Storage.VersionDb.Covers.{Covers-empty}
use l1_data_tools.Subnet.Accept.Safety.{
  Reach-readable, initialize-Reach, accept_lem, Extended, Refused,
}
use l1_data_tools.Subnet.Accept.Torn.{tear, accept-tear}
use l1_data_tools.Subnet.Validate.{validate_after_bootstrap, no_indexed_blocks, already_synced}
use l1_data_tools.Subnet.Validate.Runs.{validate_after_bootstrap-Reach}
use l1_data_tools.Subnet.Examples.{chain}

abbrev text_of : ℕ → Bytes
text_of n = codes "{}"

text_of-IsLine : (n : ℕ) → IsLine (text_of n)
text_of-IsLine n = record { filled = omega arith; short = omega arith; plain = ground arith }

agrees : (n : ℕ) → Agrees copy sorted text_of chain n
unfolding block_data marshal_receipts
agrees n text e = cc

abbrev start_at : ℕ → Start
start_at height = record {
  allowed_chain_id = codes "C";
  chain_id = codes "C";
  vm_starts = true;
  current_block = some height;
  server_starts = true;
}

abbrev first_vm : Vm sorted
first_vm = restarted_at copy sorted text_of 0 []

nothing : (k : Bytes) → get [] k ≡ none
nothing k = unfold get in refl

first_start : initialize sorted (start_at 0) [] ≡ ready first_vm
unfolding initialize compare_bytes
first_start =
    restore-Covers copy sorted text_of 0 [] (Covers-empty copy sorted text_of [] nothing) true

abbrev second_vm : Vm sorted
second_vm = (accept sorted chain true 1 first_vm).1

second_height : second_vm.disk_height ≡ 1
unfolding accept index_block block_accept store_heights commit block_data marshal_receipts
    save_block
second_height = refl

second-Reach : Reach copy sorted text_of second_vm
second-Reach =
    Reach.stepped first_vm second_vm (Reach.begun (start_at 0) [] first_vm nothing refl first_start)
      (Step.next chain true (agrees 1) (omega arith) refl)

Reach-readable_example :
    (read_back copy (version_db_storage sorted) 1 (new_storage sorted second_vm.disk)
      ≡ some (codes "{}"))
    × (read_back copy (version_db_storage sorted) 1 second_vm.store ≡ some (codes "{}"))
Reach-readable_example =
    Reach-readable copy sorted text_of second_vm 1 text_of-IsLine second-Reach (omega arith)
      (omega (arith, second_height))

set : codes "C" ≢ []
set e = cc

initialize-Reach_example :
    initialize sorted (start_at 1) second_vm.disk
    ≡ ready (restarted_at copy sorted text_of second_vm.disk_height second_vm.disk)
initialize-Reach_example =
    initialize-Reach copy sorted text_of second_vm (start_at 1) text_of-IsLine second-Reach set refl
      refl refl (sym second_height)

validate_after_bootstrap-Reach_example :
    validate_after_bootstrap sorted (λ s. some s) chain second_vm.disk_height second_vm
    ≡ (if second_vm.disk_height == 0 then no_indexed_blocks else already_synced)
validate_after_bootstrap-Reach_example =
    validate_after_bootstrap-Reach copy sorted text_of (λ s. some s) chain second_vm text_of-IsLine
      second-Reach

accept_lem_example :
    Extended sorted chain 1 (accept sorted chain true 1 first_vm)
    ⊎ Refused sorted first_vm (accept sorted chain true 1 first_vm)
accept_lem_example = accept_lem sorted chain 1 first_vm true refl (omega arith)

abbrev held : Vm sorted
held = record first_vm {
  disk = (block_key 1, codes "{}") ∷ [];
  disk_height = 1;
  store = record { db = (block_key 1, codes "{}") ∷ []; latest = 1 };
}

abbrev torn : Vm sorted
torn = record held { store = record { db = []; latest = 1 } }

torn_lem : tear sorted 1 (codes "z") held ≡ some torn
unfolding tear abort save_batch save_meta delete_block_range deleted_keys delete_keys contains
    compare_bytes block_key pad
torn_lem = refl

no_batch : get_batch_compressed sorted 1 (new_storage sorted held.disk) ≡ none
unfolding get_batch_compressed get new_storage batch_key block_key pad compare_bytes
no_batch = refl

accepted_after : (accept sorted chain true 200 torn).0 ≡ true
unfolding accept index_block block_accept store_heights commit block_data marshal_receipts
    save_block
accepted_after = refl

first_hundred : IsStart 1
first_hundred = record { positive = omega arith; aligned = refl; room = omega arith }

accept-tear_example :
    read_back copy
      (version_db_storage sorted)
      1
      (new_storage sorted (accept sorted chain true 200 torn).1.disk)
    ≡ none
accept-tear_example =
    accept-tear copy sorted chain 1 1 200 (codes "z") held torn first_hundred (omega arith)
      (omega arith) no_batch torn_lem refl (omega arith) (omega arith) accepted_after
