-- ===== src/Storage/VersionDb/Compacts.antt =====
-- On evm-ingestion/storage/versiondb.go and compactor.go: a compaction of a database that covers the
-- chain.
use l1_data_tools.Common.{
  ℕ, ◌+◌, ◌≤◌, ◌<◌, ◌≡◌, sym, ap, ◌∙◌, inl, inr, Bool, true, List, [], ◌∷◌, none, some, ◌>>=◌,
  arith, Bytes, codes, u64, Option-cases, subst, All,
}
use mathlib.Core.Option.{some_inj}
use l1_data_tools.Storage.Keys.{parse_block_key}
use l1_data_tools.Storage.Keys.RoundTrip.{parse_block_key-block_key}
use l1_data_tools.Storage.Batch.{batch_start, Zstd}
use l1_data_tools.Storage.Batch.Bounds.{batch_end_lem}
use l1_data_tools.Storage.Compactor.{compact_one_batch}
use l1_data_tools.Storage.Compactor.Outcome.{Outcome, Attempt, skipped, wrote, attempt}
use l1_data_tools.Storage.Compactor.Reads.{read_back-compact_one_batch}
use l1_data_tools.Storage.Compactor.Tip.{compact_one_batch_keeps_tip, start_room}
use l1_data_tools.Storage.VersionDb.{
  Database, VersionDb, head_key, has_prefix, get_block, first_block, latest_block,
  version_db_storage,
}
use l1_data_tools.Storage.VersionDb.Laws.{version_db_storage-IsStorage}
use l1_data_tools.Storage.VersionDb.Cache.{HasOwnKeys, own_block}
use l1_data_tools.Storage.VersionDb.Covers.{Covers}
use l1_data_tools.Storage.VersionDb.Within.{Within, Within-refl, outcome-Within}

module _ (d : Database) (s : VersionDb d) where
  abbrev pub Stored : ℕ → Type 0
  Stored n = (n < u64) × (v : Bytes) × (get_block d n s ≡ some v)

  head-Stored :
      (f : ℕ) (ks : List Bytes)
      → HasOwnKeys d s.db
      → All
          (λ k. ((v : Bytes) × (d.get s.db k ≡ some v)) × (has_prefix (codes "block:") k ≡ true))
          ks
      → (head_key ks >>= parse_block_key) ≡ some f
      → Stored f
  unfolding head_key get_block
  head-Stored f [] own present e = cc
  head-Stored f (k ∷ ks) own (((v, found), prefix), _) e =
      let (n, hn, key) = own_block k (own k v found) prefix in
      let number : n ≡ f =
        some_inj.0 (sym (parse_block_key-block_key n hn) ∙ ap parse_block_key (sym key) ∙ e) in
      subst Stored number (hn, v, subst (λ x. d.get s.db x ≡ some v) key found)

  -- The first block is a block that is stored.
  pub first_block-Stored : (f : ℕ) → HasOwnKeys d s.db → first_block d s ≡ some f → Stored f
  unfolding first_block
  first_block-Stored f own e =
      head-Stored f (d.keys s.db (codes "block:")) own (d.keys_present s.db (codes "block:")) e

module _ (z : Zstd) (d : Database) (block_of : ℕ → Bytes) (height : ℕ) (s : VersionDb d)
    (c : Covers z d block_of height s) (near : s.latest ≤ height + 1) where
  room : (first : ℕ) → first_block d s ≡ some first → first + 1200 < u64
  room first e =
      let (small, v, found) = first_block-Stored d s first c.own e in
      omega (arith, c.below first v small found, c.room)

  latest_block-near : (latest : ℕ) → latest_block d s ≡ some latest → latest ≤ height + 1
  unfolding latest_block
  latest_block-near latest e = ground (arith, near)

  compact-Within : Within d height s (compact_one_batch z (version_db_storage d) s).1
  compact-Within = within _ (attempt z (version_db_storage d) s)
    where
      within :
          (r : Bool × VersionDb d) → Attempt z (version_db_storage d) s r → Within d height s r.1
      within r (skipped e) =
          subst (λ (x : Bool × VersionDb d). Within d height s x.1) (sym e) (Within-refl d height s)
      within r (wrote first latest frame is_first is_latest far run out) =
          let size = start_room first (room first is_first) in
          let whole = batch_end_lem (batch_start first) (omega arith) in
          outcome-Within d z height (batch_start first) frame s (omega arith)
            (ground (arith, whole, latest_block-near latest is_latest, c.room)) r
            (subst (λ b. Outcome z (version_db_storage d) (batch_start first) b frame s r) whole
              out)

  tip_kept :
      1 ≤ height
      → get_block d height (compact_one_batch z (version_db_storage d) s).1 ≡ some (block_of height)
  tip_kept pos = elim (Option-cases (latest_block d s)) [
    | inl e ↦ none_yet e _ (attempt z (version_db_storage d) s) ∙ c.tip pos
    | inr (latest, e) ↦
        compact_one_batch_keeps_tip z (version_db_storage d) (version_db_storage-IsStorage d) height
          latest s room e (omega (arith, latest_block-near latest e)) (omega (arith, c.room))
        ∙ c.tip pos
  ]
    where
      none_yet :
          latest_block d s ≡ none
          → (r : Bool × VersionDb d) → Attempt z (version_db_storage d) s r
          → get_block d height r.1 ≡ get_block d height s
      none_yet e r (skipped q) = ap (λ (x : Bool × VersionDb d). get_block d height x.1) q
      none_yet e r (wrote first latest frame is_first is_latest far run out) =
          cc (sym is_latest ∙ e)

  -- A compaction leaves the chain covered.
  pub compact_one_batch-Covers :
      Covers z d block_of height (compact_one_batch z (version_db_storage d) s).1
  compact_one_batch-Covers = record {
    own = compact-Within.own c.own;
    lines = λ n v hn found. c.lines n v hn (compact-Within.blocks n v found);
    below = λ n v hn found. c.below n v hn (compact-Within.blocks n v found);
    readable = λ n lo hi.
        read_back-compact_one_batch z (version_db_storage d) (version_db_storage-IsStorage d) n s
          c.lines room lo (omega (arith, c.room))
        ∙ c.readable n lo hi;
    tip = tip_kept;
    compacted = compact-Within.meta c.compacted;
    room = c.room;
  }

  pub compact_one_batch-latest : (compact_one_batch z (version_db_storage d) s).1.latest ≡ s.latest
  compact_one_batch-latest = compact-Within.latest
