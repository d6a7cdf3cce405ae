-- ===== src/Storage/VersionDb/Within.antt =====
-- On evm-ingestion/storage/versiondb.go: the writes of a compaction, and the database that they leave.
use l1_data_tools.Common.{
  ℕ, ◌+◌, ◌-◌, ◌≤◌, ◌<◌, ◌≡◌, refl, sym, ap, ◌∙◌, Bool, some, arith, Bytes, u64, subst, kept_if,
}
use l1_data_tools.Storage.Keys.{block_key, batch_key, meta_key}
use l1_data_tools.Storage.Keys.Compare.{batch_ne_meta}
use l1_data_tools.Storage.Batch.{Zstd}
use l1_data_tools.Storage.Pebble.{decode_meta}
use l1_data_tools.Storage.Pebble.Scan.{batch, last_compacted}
use l1_data_tools.Storage.Compactor.Outcome.{
  Outcome, batch_failed, meta_failed, delete_failed, done,
}
use l1_data_tools.Storage.VersionDb.{
  Database, VersionDb, get_block, get_meta, delete_block_range, save_batch, save_meta,
  version_db_storage, deleted_keys,
}
use l1_data_tools.Storage.VersionDb.Laws.{with_db-some, version_db_storage-IsStorage}
use l1_data_tools.Storage.VersionDb.Cache.{HasOwnKeys}
use l1_data_tools.Storage.VersionDb.Covers.{put-own}

module _ (d : Database) where
  -- Nothing is new in `t` but batches, and a mark up to `bound`.
  pub record Within (bound : ℕ) (s t : VersionDb d) : Type 0 where
    pub own : HasOwnKeys d s.db → HasOwnKeys d t.db
    pub blocks : (n : ℕ) (v : Bytes) → get_block d n t ≡ some v → get_block d n s ≡ some v
    pub meta : get_meta d s ≤ bound → get_meta d t ≤ bound
    pub latest : t.latest ≡ s.latest

  pub Within-refl : (bound : ℕ) (s : VersionDb d) → Within bound s s
  Within-refl bound s = record { own = λ h. h; blocks = λ n v h. h; meta = λ h. h; latest = refl }

  Within-trans :
      (bound : ℕ) (s t u : VersionDb d) → Within bound s t → Within bound t u → Within bound s u
  Within-trans bound s t u a b = record {
    own = λ h. b.own (a.own h);
    blocks = λ n v h. a.blocks n v (b.blocks n v h);
    meta = λ h. b.meta (a.meta h);
    latest = b.latest ∙ a.latest;
  }

  save_batch-Within :
      (bound a b : ℕ) (v : Bytes) (s t : VersionDb d)
      → a < u64
      → b < u64
      → save_batch d a b v s ≡ some t
      → Within bound s t
  unfolding save_batch get_meta
  save_batch-Within bound a b v s t ha hb e =
      let laws = version_db_storage-IsStorage d in
      let (put, latest) = with_db-some d s t _ e in
      let same : get_meta d t ≡ get_meta d s =
        ap decode_meta
          (d.get-put s.db t.db (batch_key a b) v meta_key put ∙ (rw (batch_ne_meta a b) refl)) in
      record {
        own = λ h. put-own d s t _ _ (batch a b ha hb refl) h put;
        blocks = λ n w found. sym (laws.get_block-save_batch a b n v s t e) ∙ found;
        meta = λ h. omega (arith, same);
        latest = latest;
      }

  save_meta-Within :
      (bound k : ℕ) (s t : VersionDb d)
      → k < u64
      → k ≤ bound
      → save_meta d k s ≡ some t
      → Within bound s t
  unfolding save_meta
  save_meta-Within bound k s t hk hb e =
      let laws = version_db_storage-IsStorage d in
      let (put, latest) = with_db-some d s t _ e in
      record {
        own = λ h. put-own d s t _ _ (last_compacted refl) h put;
        blocks = λ n w found. sym (laws.get_block-save_meta k n s t e) ∙ found;
        meta = λ h. omega (arith, laws.get_meta-save_meta k s t hk e);
        latest = latest;
      }

  delete_block_range-Within :
      (bound a b : ℕ) (s t : VersionDb d)
      → a < u64
      → b + 1 < u64
      → delete_block_range d a b s ≡ some t
      → Within bound s t
  unfolding delete_block_range get_block
  delete_block_range-Within bound a b s t ha hb e =
      let laws = version_db_storage-IsStorage d in
      let (put, latest) = with_db-some d s t _ e in
      let old : (j w : Bytes) → d.get t.db j ≡ some w → d.get s.db j ≡ some w = λ j w found.
        kept_if _ _ _ w (d.get-write_deletes s.db t.db (deleted_keys a (b + 1 - a)) j put) found in
      record {
        own = λ h j w found. h j w (old j w found);
        blocks = λ n w found. old (block_key n) w found;
        meta =
            λ h. subst (λ m. m ≤ bound) (sym (laws.get_meta-delete_block_range a b s t ha hb e)) h;
        latest = latest;
      }

  module _ (z : Zstd) (bound a : ℕ) (frame : Bytes) (s : VersionDb d) (ha : a + 100 < u64)
      (hb : a + 99 ≤ bound) where
    pub outcome-Within :
        (r : Bool × VersionDb d)
        → Outcome z (version_db_storage d) a (a + 99) frame s r
        → Within bound s r.1
    outcome-Within r (batch_failed _ e) =
        subst (λ (x : Bool × VersionDb d). Within bound s x.1) (sym e) (Within-refl bound s)
    outcome-Within r (meta_failed t e1 _ e) =
        subst (λ (x : Bool × VersionDb d). Within bound s x.1) (sym e)
          (save_batch-Within bound a (a + 99) frame s t (omega arith) (omega arith) e1)
    outcome-Within r (delete_failed t u e1 e2 _ e) =
        subst (λ (x : Bool × VersionDb d). Within bound s x.1) (sym e) (two t u e1 e2)
      where
        two :
            (t u : VersionDb d)
            → save_batch d a (a + 99) frame s ≡ some t
            → save_meta d (a + 99) t ≡ some u
            → Within bound s u
        two t u e1 e2 =
            Within-trans bound s t u
              (save_batch-Within bound a (a + 99) frame s t (omega arith) (omega arith) e1)
              (save_meta-Within bound (a + 99) t u (omega arith) hb e2)
    outcome-Within r (done t u v e1 e2 e3 e) =
        subst (λ (x : Bool × VersionDb d). Within bound s x.1) (sym e)
          (Within-trans bound s t v
            (save_batch-Within bound a (a + 99) frame s t (omega arith) (omega arith) e1)
            (Within-trans bound t u v (save_meta-Within bound (a + 99) t u (omega arith) hb e2)
              (delete_block_range-Within bound a (a + 99) u v (omega arith) (omega arith) e3)))
