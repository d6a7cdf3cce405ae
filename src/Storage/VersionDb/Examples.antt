-- ===== src/Storage/VersionDb/Examples.antt =====
-- The theorems on the database of the chain at concrete inputs.
use l1_data_tools.Common.{
  ℕ, ◌≤◌, ◌≡◌, ◌≢◌, ◌∙◌, sym, inl, inr, true, Bytes, bytes_eq, bytes_eq_eq, Bool-cases, refl, none,
  false, [], ◌∷◌, some, arith, codes, compare_bytes,
}
use l1_data_tools.Storage.Keys.{pad, block_key}
use l1_data_tools.Storage.Interface.{IsStorage}
use l1_data_tools.Storage.Keys.Compare.{block_key_eq}
use l1_data_tools.Storage.Pebble.Scan.{block}
use l1_data_tools.Storage.Memory.{get}
use l1_data_tools.Storage.Sorted.{sorted, keys_of}
use l1_data_tools.Storage.VersionDb.{
  VersionDb, new_storage, scan_latest, save_block, get_block, latest_block, delete_block_range,
  version_db_storage,
}
use l1_data_tools.Storage.Sample.{copy}
use l1_data_tools.Storage.Compactor.{compact_all}
use l1_data_tools.Storage.VersionDb.Ends.{IsBounded, compact_all-ends}
use l1_data_tools.Storage.VersionDb.Laws.{version_db_storage-IsStorage}
use l1_data_tools.Storage.VersionDb.Cache.{Reach, Write, HasOwnKeys, latest_block-Reach}

version_db_storage-IsStorage_example : IsStorage (version_db_storage sorted)
version_db_storage-IsStorage_example = version_db_storage-IsStorage sorted

abbrev one_block : VersionDb sorted
one_block = record { db = (block_key 7, codes "{}") ∷ []; latest = 7 }

nothing_own : HasOwnKeys sorted []
nothing_own k v e = unfold get in cc e

one_saved : save_block sorted 7 (codes "{}") (new_storage sorted []) ≡ some one_block
unfolding save_block new_storage scan_latest keys_of
one_saved = refl

seven_stored : get_block sorted 7 one_block ≡ some (codes "{}")
unfolding get_block get block_key pad compare_bytes
seven_stored = refl

latest_block-Reach_example : (m : ℕ) × (latest_block sorted one_block ≡ some m) × (7 ≤ m)
latest_block-Reach_example =
    latest_block-Reach sorted [] one_block 7 (codes "{}") nothing_own
      (Reach.written Reach.started (Write.block_saved 7 (codes "{}") (omega arith) one_saved))
      (omega arith) (omega arith) seven_stored

abbrev starts_at_one : VersionDb sorted
starts_at_one = record { db = (block_key 1, codes "{}") ∷ []; latest = 1 }

always_deletes : (a b : ℕ) (t : VersionDb sorted) → delete_block_range sorted a b t ≢ none
unfolding delete_block_range
always_deletes a b t e = cc e

found_key : (j v : Bytes) → get starts_at_one.db j ≡ some v → bytes_eq (block_key 1) j ≡ true
unfolding get
found_key j v e = elim (Bool-cases (bytes_eq (block_key 1) j)) [
  | inl same ↦ same
  | inr differ ↦
      let gone : get starts_at_one.db j ≡ none = rw (differ, get) refl in cc (sym gone ∙ e)
]

only_one : IsBounded sorted 1 starts_at_one
unfolding get_block
only_one = record {
  own = λ k v e. block 1 (omega arith) (sym (bytes_eq_eq (block_key 1) k (found_key k v e)));
  blocks = λ n v hn e.
      let same : 1 ≡ n =
        ground (arith, block_key_eq 1 n (omega arith) hn, found_key (block_key n) v e) in
      (omega arith, omega arith);
}

compact_all-ends_example :
    (t : VersionDb sorted) × (compact_all copy
        (version_db_storage sorted)
        (λ round. false)
        3
        starts_at_one
      ≡ some t)
compact_all-ends_example =
    compact_all-ends copy sorted 1 (λ round. false) starts_at_one (omega arith) always_deletes
      only_one
