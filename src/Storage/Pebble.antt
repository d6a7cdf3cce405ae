-- ===== src/Storage/Pebble.antt =====
-- evm-ingestion/storage/pebble.go: `Storage` over a pebble database.
pub mod Laws
pub mod Scan
use l1_data_tools.Common.{
  ℕ, ◌+◌, ◌-◌, ◌≡◌, Bool, true, false, ◌&&◌, List, [], ◌∷◌, ◌++◌, Option, none, some, ◌>>=◌, Bytes,
  codes, bytes_eq, bytes_lt, bytes_le, add64, sub64, length, ltb, if◌then◌else◌, ◌*◌, ◌/◌, ◌%◌, ◌^◌,
  zero, suc,
}
use l1_data_tools.Storage.Keys.{block_key, batch_key, meta_key, parse_block_key, parse_batch_key}
use l1_data_tools.Storage.Batch.{batch_size}
use l1_data_tools.Storage.Interface.{Storage}

-- The pebble database, as the program uses it: a map from keys to values, ordered by its keys. A
-- write returns the new database, or `none` for an error. `first` and `last` are the key that an
-- iterator with these bounds (the lower one within, the upper one not) stands on after `First()`
-- and `Last()`.
pub record Pebble : Type 1 where
  pub Db : Type 0
  pub get : Db → Bytes → Option Bytes
  pub set : Db → Bytes → Bytes → Option Db
  pub delete_range : Db → Bytes → Bytes → Option Db
  pub first : Db → Bytes → Bytes → Option Bytes
  pub last : Db → Bytes → Bytes → Option Bytes
  pub get-set :
      (db db' : Db) (k v j : Bytes)
      → set db k v ≡ some db'
      → get db' j ≡ (if bytes_eq k j then some v else get db j)
  pub get-delete_range :
      (db db' : Db) (lo hi j : Bytes)
      → delete_range db lo hi ≡ some db'
      → get db' j ≡ (if bytes_le lo j && bytes_lt j hi then none else get db j)
  pub first_present :
      (db : Db) (lo hi k : Bytes)
      → first db lo hi ≡ some k
      → (v : Bytes) × (get db k ≡ some v) × ((bytes_le lo k && bytes_lt k hi) ≡ true)
  pub first_least :
      (db : Db) (lo hi j v : Bytes)
      → get db j ≡ some v
      → (bytes_le lo j && bytes_lt j hi) ≡ true
      → (k : Bytes) × (first db lo hi ≡ some k) × (bytes_le k j ≡ true)
  pub last_present :
      (db : Db) (lo hi k : Bytes)
      → last db lo hi ≡ some k
      → (v : Bytes) × (get db k ≡ some v) × ((bytes_le lo k && bytes_lt k hi) ≡ true)
  pub last_greatest :
      (db : Db) (lo hi j v : Bytes)
      → get db j ≡ some v
      → (bytes_le lo j && bytes_lt j hi) ≡ true
      → (k : Bytes) × (last db lo hi ≡ some k) × (bytes_le j k ≡ true)

-- `binary.BigEndian.PutUint64` and `Uint64`: `width` bytes, the most significant first.
pub put_uint : ℕ → ℕ → Bytes
put_uint zero n = []
put_uint (suc width) n = put_uint width (n / 256) ++ (n % 256) ∷ []

pub read_uint : ℕ → ℕ → Bytes → ℕ
read_uint zero n s = n
read_uint (suc width) n [] = n
read_uint (suc width) n (c ∷ s) = read_uint width (n * 256 + c) s

unfoldable pub decode_meta : Option Bytes → ℕ
decode_meta none = 0
decode_meta (some bytes) = if ltb (length bytes) 8 then 0 else read_uint 8 0 bytes

abbrev pub block_lo : Bytes
block_lo = codes "block:"

abbrev pub block_hi : Bytes
block_hi = codes "block;"

abbrev pub batch_lo : Bytes
batch_lo = codes "batch:"

abbrev pub batch_hi : Bytes
batch_hi = codes "batch;"

module _ (p : Pebble) where
  unfoldable pub save_block : ℕ → Bytes → p.Db → Option p.Db
  save_block block_num bytes db = p.set db (block_key block_num) bytes

  unfoldable pub get_block : ℕ → p.Db → Option Bytes
  get_block block_num db = p.get db (block_key block_num)

  unfoldable pub first_block : p.Db → Option ℕ
  first_block db = p.first db block_lo block_hi >>= parse_block_key

  unfoldable pub latest_block : p.Db → Option ℕ
  latest_block db = p.last db block_lo block_hi >>= parse_block_key

  unfoldable pub delete_block_range : ℕ → ℕ → p.Db → Option p.Db
  delete_block_range start end db = p.delete_range db (block_key start) (block_key (add64 end 1))

  unfoldable pub save_batch : ℕ → ℕ → Bytes → p.Db → Option p.Db
  save_batch start end bytes db = p.set db (batch_key start end) bytes

  unfoldable pub get_batch_compressed : ℕ → p.Db → Option Bytes
  get_batch_compressed start db = p.get db (batch_key start (sub64 (add64 start batch_size) 1))

  pub first_batch : p.Db → Option ℕ
  first_batch db = do key ← p.first db batch_lo batch_hi; range ← parse_batch_key key; some range.0

  pub latest_batch : p.Db → Option ℕ
  latest_batch db = do key ← p.last db batch_lo batch_hi; range ← parse_batch_key key; some range.1

  unfoldable pub get_meta : p.Db → ℕ
  unfolding decode_meta
  get_meta db = decode_meta (p.get db meta_key)

  unfoldable pub save_meta : ℕ → p.Db → Option p.Db
  save_meta last_compacted db = p.set db meta_key (put_uint 8 last_compacted)

  pub block_count : p.Db → ℕ
  block_count db = elim (first_block db) [
    | none ↦ 0
    | some first ↦ elim (latest_block db) [ none ↦ 0 | some last ↦ add64 (sub64 last first) 1 ]
  ]

  -- `PebbleStorage` as an implementation of `Storage`.
  abbrev pub pebble_storage : Storage
  pebble_storage = record {
    State = p.Db;
    save_block = save_block;
    get_block = get_block;
    first_block = first_block;
    latest_block = latest_block;
    delete_block_range = delete_block_range;
    save_batch = save_batch;
    get_batch_compressed = get_batch_compressed;
    first_batch = first_batch;
    latest_batch = latest_batch;
    get_meta = get_meta;
    save_meta = save_meta;
  }
