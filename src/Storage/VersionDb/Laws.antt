-- ===== src/Storage/VersionDb/Laws.antt =====
-- On evm-ingestion/storage/versiondb.go: the laws of `Storage`.
use l1_data_tools.Common.{
  ℕ, zero, suc, ◌+◌, ◌-◌, ◌<◌, ◌≡◌, refl, sym, ap, ◌∙◌, false, ◌&&◌, Option, none, some, arith, u64,
  add64, sub64, ltb, leb, ◌==◌, if◌then◌else◌, subst,
}
use mathlib.Core.Option.{some_inj}
use native.Mathlib.Decide.{dec_le}
use l1_data_tools.Storage.Keys.{block_key, batch_key, meta_key}
use l1_data_tools.Storage.Keys.Compare.{
  block_key_eq, batch_key_eq, batch_ne_block, block_ne_batch, meta_ne_block, meta_ne_batch,
  meta_eq_meta, block_ne_meta, batch_ne_meta,
}
use l1_data_tools.Storage.Batch.{batch_size}
use l1_data_tools.Storage.Interface.{IsStorage}
use l1_data_tools.Storage.Pebble.{put_uint, decode_meta}
use l1_data_tools.Storage.Pebble.Laws.{decode_meta-put_uint}
use l1_data_tools.Storage.VersionDb.{
  contains, Database, deleted_keys, VersionDb, with_db, with_block, raise_latest, save_block,
  get_block, delete_block_range, save_batch, get_batch_compressed, get_meta, save_meta,
  version_db_storage,
}

-- The keys of the deletions are those of the blocks in the range.
contains-deleted_keys :
    (a count m : ℕ)
    → a + count < u64
    → m < u64
    → contains (deleted_keys a count) (block_key m) ≡ (leb a m && ltb m (a + count))
unfolding contains deleted_keys
contains-deleted_keys a zero m h hm = ground arith
contains-deleted_keys a (suc count) m h hm =
    let next : add64 a 1 ≡ a + 1 = omega arith in
    rw
      (
        block_key_eq a m (omega arith) hm,
        next,
        contains-deleted_keys (a + 1) count m (omega arith) hm,
      )
      (ground arith)

no_batch-deleted_keys : (a count b c : ℕ) → contains (deleted_keys a count) (batch_key b c) ≡ false
unfolding contains deleted_keys
no_batch-deleted_keys a zero b c = refl
no_batch-deleted_keys a (suc count) b c =
    rw (block_ne_batch a b c) (no_batch-deleted_keys (add64 a 1) count b c)

no_meta-deleted_keys : (a count : ℕ) → contains (deleted_keys a count) meta_key ≡ false
unfolding contains deleted_keys
no_meta-deleted_keys a zero = refl
no_meta-deleted_keys a (suc count) = rw (block_ne_meta a) (no_meta-deleted_keys (add64 a 1) count)

in_range :
    (a b m : ℕ)
    → b + 1 < u64
    → m < u64
    → contains (deleted_keys a (b + 1 - a)) (block_key m) ≡ (leb a m && leb m b)
in_range a b m hb hm = elim (dec_le a (b + 1)) [
  | yes le ↦ contains-deleted_keys a (b + 1 - a) m (omega arith) hm ∙ ground arith
  | no gt ↦
      let empty : b + 1 - a ≡ 0 = omega arith in
      rw empty (unfold contains deleted_keys in ground arith)
]

module _ (d : Database) where
  -- A write that succeeds has written to the database, and the cache is as it was.
  pub with_db-some :
      (s t : VersionDb d) (o : Option d.Db)
      → with_db d s o ≡ some t
      → (o ≡ some t.db) × (t.latest ≡ s.latest)
  with_db-some s t none h = cc
  with_db-some s t (some db) h = (
    ap (λ (x : VersionDb d). some x.db) (some_inj.0 h),
    ap (λ (x : VersionDb d). x.latest) (sym (some_inj.0 h)),
  )

  pub with_block-some :
      (n : ℕ) (s t : VersionDb d) (o : Option d.Db)
      → with_block d n s o ≡ some t
      → (o ≡ some t.db) × (t.latest ≡ raise_latest d n s.latest)
  with_block-some n s t none h = cc
  with_block-some n s t (some db) h = (
    ap (λ (x : VersionDb d). some x.db) (some_inj.0 h),
    ap (λ (x : VersionDb d). x.latest) (sym (some_inj.0 h)),
  )

  -- The implementation with the chain's database fulfils the contract of `Storage`.
  pub version_db_storage-IsStorage : IsStorage (version_db_storage d)
  unfolding save_block get_block delete_block_range save_batch get_batch_compressed get_meta
      save_meta
  version_db_storage-IsStorage = record {
    get_block-save_block = λ n m v s t hn hm e.
        d.get-put s.db t.db (block_key n) v (block_key m) (with_block-some n s t _ e).0
        ∙ (rw (block_key_eq n m hn hm) refl);
    get_block-delete_block_range = λ a b m s t ha hb hm e.
        d.get-write_deletes s.db t.db (deleted_keys a (b + 1 - a)) (block_key m)
          (with_db-some s t _ e).0
        ∙ (rw (in_range a b m hb hm) refl);
    get_block-save_batch = λ a b m v s t e.
        d.get-put s.db t.db (batch_key a b) v (block_key m) (with_db-some s t _ e).0
        ∙ (rw (batch_ne_block m a b) refl);
    get_block-save_meta = λ k m s t e.
        d.get-put s.db t.db meta_key _ (block_key m) (with_db-some s t _ e).0
        ∙ (rw (meta_ne_block m) refl);
    get_batch-save_batch = λ a m v s t ha hm e.
        subst
          (λ k.
            d.get t.db (batch_key m k) ≡ (if a == m then some v else d.get s.db (batch_key m k)))
          (omega arith)
          (d.get-put s.db t.db (batch_key a (a + 99)) v (batch_key m (m + 99))
              (with_db-some s t _ e).0
            ∙ (rw (batch_key_eq a m ha hm) refl));
    get_batch-save_block = λ n m v s t e.
        d.get-put s.db t.db (block_key n) v _ (with_block-some n s t _ e).0
        ∙ (rw (block_ne_batch n m (sub64 (add64 m batch_size) 1)) refl);
    get_batch-save_meta = λ k m s t e.
        d.get-put s.db t.db meta_key _ _ (with_db-some s t _ e).0
        ∙ (rw (meta_ne_batch m (sub64 (add64 m batch_size) 1)) refl);
    get_batch-delete_block_range = λ a b m s t ha hb e.
        d.get-write_deletes s.db t.db (deleted_keys a (b + 1 - a)) _ (with_db-some s t _ e).0
        ∙ (rw (no_batch-deleted_keys a (b + 1 - a) m (sub64 (add64 m batch_size) 1)) refl);
    get_meta-save_block = λ n v s t e. ap decode_meta {y = d.get s.db meta_key} (
        d.get-put s.db t.db (block_key n) v meta_key (with_block-some n s t _ e).0
        ∙ (rw (block_ne_meta n) refl));
    get_meta-save_batch = λ a b v s t e. ap decode_meta {y = d.get s.db meta_key} (
        d.get-put s.db t.db (batch_key a b) v meta_key (with_db-some s t _ e).0
        ∙ (rw (batch_ne_meta a b) refl));
    get_meta-delete_block_range = λ a b s t ha hb e. ap decode_meta {y = d.get s.db meta_key} (
        d.get-write_deletes s.db t.db (deleted_keys a (b + 1 - a)) meta_key (with_db-some s t _ e).0
        ∙ (rw (no_meta-deleted_keys a (b + 1 - a)) refl));
    get_meta-save_meta = λ k s t hk e.
        ap decode_meta {y = some (put_uint 8 k)} (
          d.get-put s.db t.db meta_key _ meta_key (with_db-some s t _ e).0 ∙ (rw meta_eq_meta refl))
        ∙ decode_meta-put_uint k hk;
  }
