-- ===== src/Storage/VersionDb/Restarts.antt =====
-- On evm-ingestion/storage/versiondb.go: the cache after a start on a database that covers the chain.
use l1_data_tools.Common.{
  ℕ, ◌≤◌, ◌<◌, ◌≡◌, refl, ap, inl, inr, true, List, [], ◌∷◌, none, some, arith, Bytes, codes, u64,
  leb, ltb, if◌then◌else◌, Bool-cases, subst, All, All-map,
}
use l1_data_tools.Storage.Keys.{block_key}
use l1_data_tools.Storage.Batch.{Zstd}
use l1_data_tools.Storage.VersionDb.{
  Database, VersionDb, new_storage, scan_latest, has_prefix, get_block, get_batch_compressed,
  latest_block,
}
use l1_data_tools.Storage.VersionDb.Cache.{own_block, parse_own, new_storage-IsCached}
use l1_data_tools.Storage.VersionDb.Covers.{Covers, Covers-latest}

abbrev IsBelow : ℕ → Bytes → Type 0
IsBelow bound k = (n : ℕ) × (n < u64) × (k ≡ block_key n) × (n ≤ bound)

scan_below :
    (bound acc : ℕ) (ks : List Bytes)
    → acc ≤ bound
    → All (IsBelow bound) ks
    → scan_latest acc ks ≤ bound
unfolding scan_latest
scan_below bound acc [] h below = h
scan_below bound acc (k ∷ ks) h ((n, hn, e, le), below) =
    rw (parse_own k n acc hn e) (scan_below bound n ks le below)

pub get_block-new_storage :
    (d : Database) (n : ℕ) (s : VersionDb d) → get_block d n (new_storage d s.db) ≡ get_block d n s
unfolding get_block new_storage
get_block-new_storage d n s = refl

pub get_batch-new_storage :
    (d : Database) (n : ℕ) (s : VersionDb d)
    → get_batch_compressed d n (new_storage d s.db) ≡ get_batch_compressed d n s
unfolding get_batch_compressed new_storage
get_batch-new_storage d n s = refl

module _ (z : Zstd) (d : Database) (block_of : ℕ → Bytes) (height : ℕ) (s : VersionDb d)
    (c : Covers z d block_of height s) where
  key-IsBelow :
      (k : Bytes)
      → ((v : Bytes) × (d.get s.db k ≡ some v)) × (has_prefix (codes "block:") k ≡ true)
      → IsBelow height k
  unfolding get_block
  key-IsBelow k ((v, found), prefix) =
      let (n, hn, key) = own_block k (c.own k v found) prefix in
      (n, hn, key, c.below n v hn (subst (λ x. d.get s.db x ≡ some v) key found))

  new_storage-below : (new_storage d s.db).latest ≤ height
  unfolding new_storage
  new_storage-below =
      scan_below height 0 (d.keys s.db (codes "block:")) (omega arith) (
        All-map _ (d.keys s.db (codes "block:")) key-IsBelow (d.keys_present s.db (codes "block:")))

  pub new_storage-Covers : Covers z d block_of height (new_storage d s.db)
  unfolding new_storage
  new_storage-Covers = Covers-latest z d block_of height (new_storage d s.db).latest s c

  -- The cache is the height of the chain.
  pub new_storage-latest : (new_storage d s.db).latest ≡ height
  new_storage-latest =
      let new : Covers z d block_of height (new_storage d s.db) = new_storage-Covers in
      let above : 1 ≤ height → height ≤ (new_storage d s.db).latest = λ pos.
        new_storage-IsCached d s.db c.own height (block_of height) (omega (arith, c.room))
          (new.tip pos) in
      elim (Bool-cases (leb 1 height)) [
        | inl pos ↦ omega (arith, new_storage-below, above (ground arith))
        | inr zero_ ↦ ground (arith, new_storage-below)
      ]

  pub latest_block-new_storage :
      latest_block d (new_storage d s.db) ≡ (if ltb 0 height then some height else none)
  unfolding latest_block
  latest_block-new_storage = ap (λ h. if ltb 0 h then some h else none) new_storage-latest
