-- ===== src/Storage/VersionDb/Cache.antt =====
-- On evm-ingestion/storage/versiondb.go: the cache of the latest block.
use l1_data_tools.Common.{
  ltb, ℕ, ◌+◌, ◌≤◌, ◌<◌, ◌≡◌, refl, sym, ap, ◌∙◌, inl, inr, true, List, [], ◌∷◌, some, arith, Bytes,
  codes, bytes_eq, bytes_lt, bytes_eq_eq, u64, ltb→lt, All, All-map, Bool-cases, subst, kept_if,
}
use mathlib.Core.Option.{some_inj}
use l1_data_tools.Storage.Keys.{block_key, batch_key, parse_block_key}
use l1_data_tools.Storage.Keys.Compare.{block_key_lt}
use l1_data_tools.Storage.Keys.RoundTrip.{parse_block_key-block_key}
use l1_data_tools.Storage.Pebble.Scan.{IsOwnKey, block, batch, last_compacted}
use l1_data_tools.Storage.VersionDb.{
  latest_block, contains, Ascending, has_prefix, Database, parsed_or, scan_latest, VersionDb,
  new_storage, save_block, get_block, delete_block_range, save_batch, save_meta,
}
use l1_data_tools.Storage.VersionDb.Laws.{
  with_db-some, with_block-some, version_db_storage-IsStorage,
}

abbrev pub IsBlockKey : Bytes → Type 0
IsBlockKey k = (n : ℕ) × (n < u64) × (k ≡ block_key n)

pub own_block : (k : Bytes) → IsOwnKey k → has_prefix (codes "block:") k ≡ true → IsBlockKey k
unfolding block_key batch_key
own_block k (block n h e) w = (n, h, e)
own_block k (batch a b ha hb e) w = cc (subst (λ x. has_prefix (codes "block:") x ≡ true) e w)
own_block k (last_compacted e) w = cc (subst (λ x. has_prefix (codes "block:") x ≡ true) e w)

pub block_key_prefix : (n : ℕ) → has_prefix (codes "block:") (block_key n) ≡ true
unfolding block_key
block_key_prefix n = refl

pub parse_own :
    (k : Bytes) (n acc : ℕ) → n < u64 → k ≡ block_key n → parsed_or (parse_block_key k) acc ≡ n
parse_own k n acc h e =
    ap (λ o. parsed_or o acc) (ap parse_block_key e ∙ parse_block_key-block_key n h)

-- The scan ends at or above where it starts, on ascending keys above the start.
scan_above :
    (acc : ℕ) (ks : List Bytes)
    → acc < u64
    → All IsBlockKey ks
    → Ascending ks
    → All (λ y. bytes_lt (block_key acc) y ≡ true) ks
    → acc ≤ scan_latest acc ks
unfolding scan_latest
scan_above acc [] h own asc above = omega arith
scan_above acc (k ∷ ks) h ((n, hn, e), own) (lows, asc) (low, above) =
    let bigger : acc < n =
      ltb→lt acc n
        (sym (block_key_lt acc n h hn) ∙ subst (λ x. bytes_lt (block_key acc) x ≡ true) e low) in
    let further =
      scan_above n ks hn own asc (subst (λ x. All (λ y. bytes_lt x y ≡ true) ks) e lows) in
    rw (parse_own k n acc hn e) (omega (arith, further))

number_eq : (n m : ℕ) → n < u64 → m < u64 → block_key n ≡ block_key m → n ≡ m
number_eq n m hn hm e =
    some_inj.0
      (sym (parse_block_key-block_key n hn) ∙ ap parse_block_key e ∙ parse_block_key-block_key m hm)

scan_latest_max :
    (acc m : ℕ) (ks : List Bytes)
    → m < u64
    → All IsBlockKey ks
    → Ascending ks
    → contains ks (block_key m) ≡ true
    → m ≤ scan_latest acc ks
unfolding scan_latest contains
scan_latest_max acc m [] hm own asc has = cc
scan_latest_max acc m (k ∷ ks) hm ((n, hn, e), own) (lows, asc) has =
    rw (parse_own k n acc hn e) (elim (Bool-cases (bytes_eq k (block_key m))) [
      | inl same ↦
          let is_m : n ≡ m = number_eq n m hn hm (sym e ∙ bytes_eq_eq k (block_key m) same) in
          let further =
            scan_above n ks hn own asc (subst (λ x. All (λ y. bytes_lt x y ≡ true) ks) e lows) in
          omega arith
      | inr other ↦ scan_latest_max n m ks hm own asc (sym (rw other refl) ∙ has)
    ])

module _ (d : Database) where
  -- No stored block is above the cache.
  abbrev pub IsCached : VersionDb d → Type 0
  IsCached s = (n : ℕ) (v : Bytes) → n < u64 → get_block d n s ≡ some v → n ≤ s.latest

  -- The writes of the program that succeed.
  pub data Write (s t : VersionDb d) : Type 0 where
    block_saved : (n : ℕ) (v : Bytes) → n < u64 → save_block d n v s ≡ some t → Write s t
    batch_saved : (a b : ℕ) (v : Bytes) → save_batch d a b v s ≡ some t → Write s t
    meta_saved : (k : ℕ) → save_meta d k s ≡ some t → Write s t
    blocks_deleted :
        (a b : ℕ) → a < u64 → b + 1 < u64 → delete_block_range d a b s ≡ some t → Write s t

  -- The states after a start on `db` and any number of writes.
  pub data Reach (db : d.Db) : VersionDb d → Type 0 where
    started : Reach db (new_storage d db)
    written : {s t : VersionDb d} → Reach db s → Write s t → Reach db t

  abbrev pub HasOwnKeys : d.Db → Type 0
  HasOwnKeys db = (k v : Bytes) → d.get db k ≡ some v → IsOwnKey k

  pub new_storage-IsCached : (db : d.Db) → HasOwnKeys db → IsCached (new_storage d db)
  unfolding new_storage get_block
  new_storage-IsCached db own n v hn stored =
      scan_latest_max 0 n (d.keys db (codes "block:")) hn
        (All-map _ (d.keys db (codes "block:")) (λ k h. own_block k (own k h.0.0 h.0.1) h.1)
          (d.keys_present db (codes "block:")))
        (d.keys_ascending db (codes "block:"))
        (d.keys_complete db (codes "block:") (block_key n) v stored (block_key_prefix n))

  Write-IsCached : {s t : VersionDb d} → Write s t → IsCached s → IsCached t
  unfolding save_block save_batch save_meta delete_block_range
  Write-IsCached {s} {t} (block_saved n v hn e) h m w hm stored =
      let laws = version_db_storage-IsStorage d in
      let now = sym (laws.get_block-save_block n m v s t hn hm e) ∙ stored in
      let raised = (with_block-some d n s t _ e).1 in ground (arith, raised, now, h m w hm)
  Write-IsCached {s} {t} (batch_saved a b v e) h m w hm stored =
      let laws = version_db_storage-IsStorage d in
      let same = (with_db-some d s t _ e).1 in
      rw same (h m w hm (sym (laws.get_block-save_batch a b m v s t e) ∙ stored))
  Write-IsCached {s} {t} (meta_saved k e) h m w hm stored =
      let laws = version_db_storage-IsStorage d in
      let same = (with_db-some d s t _ e).1 in
      rw same (h m w hm (sym (laws.get_block-save_meta k m s t e) ∙ stored))
  Write-IsCached {s} {t} (blocks_deleted a b ha hb e) h m w hm stored =
      let laws = version_db_storage-IsStorage d in
      let same = (with_db-some d s t _ e).1 in
      rw same
        (h m w hm (kept_if _ _ _ w (laws.get_block-delete_block_range a b m s t ha hb hm e) stored))

  Reach-IsCached : (db : d.Db) {t : VersionDb d} → HasOwnKeys db → Reach db t → IsCached t
  Reach-IsCached db own started = new_storage-IsCached db own
  Reach-IsCached db own (written r w) = Write-IsCached w (Reach-IsCached db own r)

  -- However the program writes after a start on a database with its own keys: if a block above 0 is
  -- stored, `LatestBlock` reports a number that is not below it.
  pub latest_block-Reach :
      (db : d.Db) (t : VersionDb d) (n : ℕ) (v : Bytes)
      → HasOwnKeys db
      → Reach db t
      → 0 < n
      → n < u64
      → get_block d n t ≡ some v
      → (m : ℕ) × (latest_block d t ≡ some m) × (n ≤ m)
  unfolding latest_block
  latest_block-Reach db t n v own reach above small stored =
      let below : n ≤ t.latest = Reach-IsCached db own reach n v small stored in
      let started_ : ltb 0 t.latest ≡ true = ground (arith, below, above) in
      (t.latest, rw started_ refl, below)
