-- ===== src/Storage/VersionDb.antt =====
-- evm-ingestion/storage/versiondb.go: `Storage` over avalanchego's `database.Database`, with the
-- latest block in a cache.
pub mod Laws
pub mod Cache
pub mod Covers
pub mod Within
pub mod Compacts
pub mod Restarts
pub mod Ends
pub mod Examples
use l1_data_tools.Common.{
  ℕ, zero, suc, ◌+◌, ◌-◌, ◌≡◌, Bool, true, false, ◌&&◌, ◌||◌, List, [], ◌∷◌, Option, none, some,
  ◌>>=◌, Bytes, codes, bytes_eq, bytes_lt, add64, sub64, leb, ltb, ◌==◌, if◌then◌else◌, All,
}
use l1_data_tools.Storage.Keys.{block_key, batch_key, meta_key, parse_block_key, parse_batch_key}
use l1_data_tools.Storage.Batch.{batch_size}
use l1_data_tools.Storage.Interface.{Storage}
use l1_data_tools.Storage.Pebble.{put_uint, decode_meta}

unfoldable pub contains : List Bytes → Bytes → Bool
contains [] k = false
contains (x ∷ xs) k = bytes_eq x k || contains xs k

-- Each key is below those that follow.
abbrev pub Ascending : List Bytes → Type 0
Ascending [] = Unit
Ascending (x ∷ xs) = All (λ y. bytes_lt x y ≡ true) xs × Ascending xs

abbrev pub has_prefix : Bytes → Bytes → Bool
has_prefix [] k = true
has_prefix (c ∷ prefix) [] = false
has_prefix (c ∷ prefix) (d ∷ k) = (c == d) && has_prefix prefix k

-- `database.Database`, as the program uses it. A write returns the new database, or `none` for an
-- error; `write_deletes` is a batch of deletions. `keys` are the keys that an iterator with this
-- prefix goes through.
pub record Database : Type 1 where
  pub Db : Type 0
  pub get : Db → Bytes → Option Bytes
  pub put : Db → Bytes → Bytes → Option Db
  pub write_deletes : Db → List Bytes → Option Db
  pub keys : Db → Bytes → List Bytes
  pub get-put :
      (db db' : Db) (k v j : Bytes)
      → put db k v ≡ some db'
      → get db' j ≡ (if bytes_eq k j then some v else get db j)
  pub get-write_deletes :
      (db db' : Db) (ks : List Bytes) (j : Bytes)
      → write_deletes db ks ≡ some db'
      → get db' j ≡ (if contains ks j then none else get db j)
  pub keys_present :
      (db : Db) (prefix : Bytes)
      → All
          (λ k. ((v : Bytes) × (get db k ≡ some v)) × (has_prefix prefix k ≡ true))
          (keys db prefix)
  pub keys_complete :
      (db : Db) (prefix k v : Bytes)
      → get db k ≡ some v
      → has_prefix prefix k ≡ true
      → contains (keys db prefix) k ≡ true
  pub keys_ascending : (db : Db) (prefix : Bytes) → Ascending (keys db prefix)

-- The scan at startup: the number of the last key that parses.
abbrev pub parsed_or : Option ℕ → ℕ → ℕ
parsed_or none latest = latest
parsed_or (some num) latest = num

pub scan_latest : ℕ → List Bytes → ℕ
scan_latest latest [] = latest
scan_latest latest (key ∷ keys) = scan_latest (parsed_or (parse_block_key key) latest) keys

-- The loop that fills the batch of deletions, `count` rounds from `i` on.
unfoldable pub deleted_keys : ℕ → ℕ → List Bytes
deleted_keys i zero = []
deleted_keys i (suc count) = block_key i ∷ deleted_keys (add64 i 1) count

pub head_key : List Bytes → Option Bytes
head_key [] = none
head_key (key ∷ keys) = some key

-- The scan for the last batch key that parses.
pub scan_batch : Option ℕ → List Bytes → Option ℕ
scan_batch last [] = last
scan_batch last (key ∷ keys) = elim (parse_batch_key key) [
  | none ↦ scan_batch last keys
  | some range ↦ scan_batch (some range.1) keys
]

module _ (d : Database) where
  pub record VersionDb : Type 0 where
    pub db : d.Db
    pub latest : ℕ

  unfoldable pub new_storage : d.Db → VersionDb
  unfolding scan_latest
  new_storage db = record { db = db; latest = scan_latest 0 (d.keys db (codes "block:")) }

  -- The state after a write to the database that leaves the cache alone.
  abbrev with_db : VersionDb → Option d.Db → Option VersionDb
  with_db s none = none
  with_db s (some db) = some (record s { db = db })

  -- The loop on the cache, with no other writer in between, raises it to `block_num`.
  abbrev pub raise_latest : ℕ → ℕ → ℕ
  raise_latest block_num latest = if leb block_num latest then latest else block_num

  abbrev with_block : ℕ → VersionDb → Option d.Db → Option VersionDb
  with_block block_num s none = none
  with_block block_num s (some db) =
      some (record { db = db; latest = raise_latest block_num s.latest })

  unfoldable pub save_block : ℕ → Bytes → VersionDb → Option VersionDb
  save_block block_num bytes s = with_block block_num s (d.put s.db (block_key block_num) bytes)

  pub get_block : ℕ → VersionDb → Option Bytes
  get_block block_num s = d.get s.db (block_key block_num)

  pub first_block : VersionDb → Option ℕ
  unfolding head_key
  first_block s = head_key (d.keys s.db (codes "block:")) >>= parse_block_key

  pub latest_block : VersionDb → Option ℕ
  latest_block s = if ltb 0 s.latest then some s.latest else none

  unfoldable pub delete_block_range : ℕ → ℕ → VersionDb → Option VersionDb
  unfolding deleted_keys
  delete_block_range start end s =
      with_db s (d.write_deletes s.db (deleted_keys start (end + 1 - start)))

  unfoldable pub save_batch : ℕ → ℕ → Bytes → VersionDb → Option VersionDb
  save_batch start end bytes s = with_db s (d.put s.db (batch_key start end) bytes)

  unfoldable pub get_batch_compressed : ℕ → VersionDb → Option Bytes
  get_batch_compressed start s = d.get s.db (batch_key start (sub64 (add64 start batch_size) 1))

  pub first_batch : VersionDb → Option ℕ
  unfolding head_key
  first_batch s = do
    key ← head_key (d.keys s.db (codes "batch:"))
    range ← parse_batch_key key
    some range.0

  pub latest_batch : VersionDb → Option ℕ
  unfolding scan_batch
  latest_batch s = scan_batch none (d.keys s.db (codes "batch:"))

  pub get_meta : VersionDb → ℕ
  get_meta s = decode_meta (d.get s.db meta_key)

  unfoldable pub save_meta : ℕ → VersionDb → Option VersionDb
  save_meta last_compacted s = with_db s (d.put s.db meta_key (put_uint 8 last_compacted))

  pub block_count : VersionDb → ℕ
  block_count s = elim (first_block s) [
    | none ↦ 0
    | some first ↦ elim (latest_block s) [ none ↦ 0 | some last ↦ add64 (sub64 last first) 1 ]
  ]

  -- `VersionDBStorage` as an implementation of `Storage`.
  abbrev pub version_db_storage : Storage
  version_db_storage = record {
    State = VersionDb;
    save_block = save_block;
    get_block = get_block;
    first_block = first_block;
    latest_block = latest_block;
    delete_block_range = delete_block_range;
    save_batch = save_batch;
    get_batch_compressed = get_batch_compressed;
    first_batch = first_batch;
    latest_batch = latest_batch;
    get_meta = get_meta;
    save_meta = save_meta;
  }
