-- ===== src/Storage/VersionDb/Covers.antt =====
-- What it means for the database of the indexer to cover a chain up to a height, and what the writes
-- of the indexer and of the compactor do to that.
use l1_data_tools.Common.{
  ℕ, ◌+◌, ◌≤◌, ◌<◌, ◌≡◌, ◌⊎◌, refl, sym, ap, ◌∙◌, inl, inr, none, some, arith, Bytes, bytes_eq,
  bytes_eq_eq, u64, ◌==◌, if◌then◌else◌, Bool-cases, subst, ==_refl,
}
use mathlib.Core.Option.{some_inj}
use l1_data_tools.Storage.Keys.{block_key, meta_key}
use l1_data_tools.Storage.Keys.Compare.{block_ne_meta}
use l1_data_tools.Storage.Batch.{batch_start, Zstd}
use l1_data_tools.Storage.Batch.RoundTrip.{IsLine}
use l1_data_tools.Storage.Pebble.{decode_meta}
use l1_data_tools.Storage.Pebble.Scan.{IsOwnKey, block}
use l1_data_tools.Storage.Compactor.Runs.{HasLines}
use l1_data_tools.Storage.Compactor.ReadBack.{read_back, read_back_same, read_back-stored}
use l1_data_tools.Storage.VersionDb.{
  Database, VersionDb, save_block, get_block, get_batch_compressed, get_meta, version_db_storage,
}
use l1_data_tools.Storage.VersionDb.Laws.{with_block-some, version_db_storage-IsStorage}
use l1_data_tools.Storage.VersionDb.Cache.{HasOwnKeys}

module _ (d : Database) where
  abbrev Put : Bytes → Bytes → Bytes → Bytes → VersionDb d → Type 0
  Put k x j v s = ((k ≡ j) × (x ≡ v)) ⊎ (d.get s.db j ≡ some v)

  -- What is found after a write was written by it, or was there.
  put_cases :
      (s t : VersionDb d) (k x j v : Bytes)
      → d.put s.db k x ≡ some t.db
      → d.get t.db j ≡ some v
      → Put k x j v s
  put_cases s t k x j v e found = elim (Bool-cases (bytes_eq k j)) [
    | inl same ↦ inl (
      bytes_eq_eq k j same,
      some_inj.0 (sym (d.get-put s.db t.db k x j e ∙ (rw same refl)) ∙ found),
    )
    | inr other ↦ inr (sym (d.get-put s.db t.db k x j e ∙ (rw other refl)) ∙ found)
  ]

  pub put-own :
      (s t : VersionDb d) (k x : Bytes)
      → IsOwnKey k
      → HasOwnKeys d s.db
      → d.put s.db k x ≡ some t.db
      → HasOwnKeys d t.db
  put-own s t k x own h e j v found = elim (put_cases s t k x j v e found) [
    | inl (same, _) ↦ subst IsOwnKey same own
    | inr old ↦ h j v old
  ]

module _ (z : Zstd) (d : Database) (block_of : ℕ → Bytes) where
  -- The blocks from 1 to `height` can be read, and are those of the chain; block `height` is stored by
  -- itself; no block above it is stored, and none is marked as compacted.
  pub record Covers (height : ℕ) (s : VersionDb d) : Type 0 where
    pub own : HasOwnKeys d s.db
    pub lines : HasLines (version_db_storage d) s
    pub below : (n : ℕ) (v : Bytes) → n < u64 → get_block d n s ≡ some v → n ≤ height
    pub readable :
        (n : ℕ) → 1 ≤ n → n ≤ height → read_back z (version_db_storage d) n s ≡ some (block_of n)
    pub tip : 1 ≤ height → get_block d height s ≡ some (block_of height)
    pub compacted : get_meta d s ≤ height
    pub room : height + 1200 < u64

  -- The cache is not part of that.
  pub Covers-latest :
      (height latest : ℕ) (s : VersionDb d)
      → Covers height s
      → Covers height (record { db = s.db; latest = latest })
  unfolding get_block get_meta get_batch_compressed
  Covers-latest height latest s c = record {
    own = c.own;
    lines = c.lines;
    below = c.below;
    readable = λ n lo hi. same n ∙ c.readable n lo hi;
    tip = c.tip;
    compacted = c.compacted;
    room = c.room;
  }
    where
      same :
          (n : ℕ)
          → read_back z (version_db_storage d) n (record { db = s.db; latest = latest })
            ≡ read_back z (version_db_storage d) n s
      same n =
          read_back_same z (version_db_storage d) (version_db_storage-IsStorage d) n s
            (record { db = s.db; latest = latest }) refl refl

  -- An empty database covers the genesis block.
  pub Covers-empty :
      (db : d.Db) → ((k : Bytes) → d.get db k ≡ none) → Covers 0 (record { db = db; latest = 0 })
  unfolding get_block get_meta decode_meta
  Covers-empty db empty = record {
    own = λ k v found. cc (sym (empty k) ∙ found);
    lines = λ n v hn found. cc (sym (empty (block_key n)) ∙ found);
    below = λ n v h found. cc (sym (empty (block_key n)) ∙ found);
    readable = λ n lo hi. absurd (no_number n lo hi);
    tip = λ pos. absurd (no_number 1 (omega arith) pos);
    compacted = rw (empty meta_key) (omega arith);
    room = omega arith;
  }
    where
      no_number : (n : ℕ) → 1 ≤ n → n ≤ 0 → ⊥
      no_number n lo hi = omega arith

  -- `save_block` of the next block.
  module _ (height : ℕ) (s t : VersionDb d)
      (saved : save_block d (height + 1) (block_of (height + 1)) s ≡ some t) where
    saved_put : d.put s.db (block_key (height + 1)) (block_of (height + 1)) ≡ some t.db
    unfolding save_block
    saved_put = (with_block-some d (height + 1) s t _ saved).0

    saved_lines :
        IsLine (block_of (height + 1))
        → HasLines (version_db_storage d) s
        → HasLines (version_db_storage d) t
    unfolding get_block
    saved_lines line h n v hn found =
        elim (put_cases d s t (block_key (height + 1)) _ (block_key n) v saved_put found) [
          | inl (_, same) ↦ subst IsLine same line
          | inr old ↦ h n v hn old
        ]

    saved_at :
        (n : ℕ)
        → height + 1 < u64
        → n < u64
        → get_block d n t
          ≡ (if height + 1 == n then some (block_of (height + 1)) else get_block d n s)
    saved_at n h hn =
        (version_db_storage-IsStorage d).get_block-save_block (height + 1) n _ s t h hn saved

    saved_meta : get_meta d t ≡ get_meta d s
    unfolding get_meta
    saved_meta = ap decode_meta (
        d.get-put s.db t.db (block_key (height + 1)) _ meta_key saved_put
        ∙ (rw (block_ne_meta (height + 1)) refl))

    saved_tip : height + 1 < u64 → get_block d (height + 1) t ≡ some (block_of (height + 1))
    saved_tip h = saved_at (height + 1) h h ∙ (rw (==_refl (height + 1)) refl)

    saved_readable :
        Covers height s
        → (n : ℕ) → 1 ≤ n
        → n ≤ height + 1
        → read_back z (version_db_storage d) n t ≡ some (block_of n)
    saved_readable c n lo hi = elim (Bool-cases (height + 1 == n)) [
      | inl same ↦
          let now : get_block d n t ≡ some (block_of n) =
            saved_at n (omega (arith, c.room)) (omega (arith, c.room))
            ∙ (rw same (ap (λ k. some (block_of k)) (ground arith))) in
          read_back-stored z (version_db_storage d) (version_db_storage-IsStorage d) n _ t now
      | inr other ↦
          read_back_same z (version_db_storage d) (version_db_storage-IsStorage d) n s t
            (saved_at n (omega (arith, c.room)) (omega (arith, c.room)) ∙ (rw other refl))
            ((version_db_storage-IsStorage d).get_batch-save_block (height + 1) (batch_start n) _ s
              t saved)
          ∙ c.readable n lo (ground arith)
    ]

    saved_below :
        Covers height s → (n : ℕ) (v : Bytes) → n < u64 → get_block d n t ≡ some v → n ≤ height + 1
    saved_below c n v hn found = elim (Bool-cases (height + 1 == n)) [
      | inl same ↦ ground arith
      | inr other ↦ omega (
        arith,
        c.below n v hn (sym (saved_at n (omega (arith, c.room)) hn ∙ (rw other refl)) ∙ found),
      )
    ]

    pub save_block-Covers :
        IsLine (block_of (height + 1))
        → height + 1201 < u64
        → Covers height s
        → Covers (height + 1) t
    save_block-Covers line h c = record {
      own = put-own d s t _ _ (block (height + 1) (omega arith) refl) c.own saved_put;
      lines = saved_lines line c.lines;
      below = saved_below c;
      readable = saved_readable c;
      tip = λ pos. saved_tip (omega arith);
      compacted = omega (arith, c.compacted, saved_meta);
      room = omega arith;
    }

    pub save_block-latest : s.latest ≤ height + 1 → t.latest ≤ height + 1
    unfolding save_block
    save_block-latest h = ground (arith, h, (with_block-some d (height + 1) s t _ saved).1)
