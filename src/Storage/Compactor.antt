-- ===== src/Storage/Compactor.antt =====
-- evm-ingestion/storage/compactor.go: moving the oldest blocks, a hundred at a time, into a
-- compressed batch.
pub mod Runs
pub mod ReadBack
pub mod Reads
pub mod Outcome
pub mod Tip
pub mod Interleaved
pub mod Ticker
use l1_data_tools.Common.{
  ℕ, zero, suc, ◌+◌, Bool, true, false, List, [], ◌∷◌, Option, none, some, ◌>>=◌, Bytes, add64,
  sub64, ltb, if◌then◌else◌,
}
use l1_data_tools.Storage.Batch.{batch_size, batch_start, batch_end, Zstd, compress_blocks}
use l1_data_tools.Storage.Interface.{Storage}

-- consts.StorageMinBlocksBeforeCompaction
abbrev pub min_blocks : ℕ
min_blocks = 1000

module _ (z : Zstd) (st : Storage) where
  -- `GetBlock` of `count` blocks from `start` on; `none`: a block is missing.
  unfoldable pub read_blocks : ℕ → ℕ → st.State → Option (List Bytes)
  read_blocks start zero s = some []
  read_blocks start (suc count) s = do
    block ← st.get_block start s
    blocks ← read_blocks (add64 start 1) count s
    some (block ∷ blocks)

  -- An error of the deletion is logged, and the batch counts as compacted.
  unfoldable pub delete_blocks : ℕ → ℕ → st.State → Bool × st.State
  delete_blocks start end s = elim (st.delete_block_range start end s) [
    | none ↦ (true, s)
    | some t ↦ (true, t)
  ]

  unfoldable pub save_compacted : ℕ → ℕ → Bytes → st.State → Bool × st.State
  unfolding delete_blocks
  save_compacted start end compressed s = elim (st.save_batch start end compressed s) [
    | none ↦ (false, s)
    | some t ↦ elim (st.save_meta end t) [ none ↦ (false, t) | some u ↦ delete_blocks start end u ]
  ]

  unfoldable pub compact_batch : ℕ → ℕ → st.State → Bool × st.State
  compact_batch start end s = elim (read_blocks start batch_size s >>= compress_blocks z) [
    | none ↦ (false, s)
    | some compressed ↦ save_compacted start end compressed s
  ]

  -- The guards: enough blocks are held one by one, and the batch ends well below the tip.
  unfoldable pub compact_from : ℕ → ℕ → st.State → Bool × st.State
  compact_from first_block latest_block s =
      let block_count = add64 (sub64 latest_block first_block) 1 in
      let start = batch_start first_block in
      let end = batch_end start in
      if ltb block_count (min_blocks + batch_size)
      then (false, s)
      else if ltb latest_block (add64 end min_blocks)
      then (false, s)
      else compact_batch start end s

  unfoldable pub compact_one_batch : st.State → Bool × st.State
  unfolding compact_from
  compact_one_batch s = elim (st.first_block s) [
    | none ↦ (false, s)
    | some first_block ↦ elim (st.latest_block s) [
      | none ↦ (false, s)
      | some latest_block ↦ compact_from first_block latest_block s
    ]
  ]

  -- `compactAll`: rounds until one of them has nothing to do, or the context is done before it. `none`:
  -- it runs on after `rounds` rounds.
  unfoldable pub compact_all : (ℕ → Bool) → ℕ → st.State → Option st.State
  unfolding compact_one_batch
  compact_all cancelled zero s = none
  compact_all cancelled (suc rounds) s =
      let more = compact_all cancelled rounds (compact_one_batch s).1 in
      if cancelled rounds
      then some s
      else if (compact_one_batch s).0
      then more
      else some (compact_one_batch s).1
