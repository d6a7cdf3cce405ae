-- ===== src/Pipeline.antt =====
-- The parts of evm-ingestion at work together, as evm-ingestion/main.go starts them: the ingestion loop
-- and the compactor write to one storage. Each of the compactor's writes is a step of its own, so that
-- the loop saves blocks, and the server reads, between them.
pub mod Sound
pub mod Kept
pub mod Moves
pub mod Compaction
pub mod Stream
pub mod Examples
use l1_data_tools.Common.{ℕ, ◌≤◌, ◌≡◌, List, Option, none, some, Bytes, add64, ltb, false}
use l1_data_tools.Storage.Batch.{Zstd, batch_start, batch_end}
use l1_data_tools.Storage.Interface.{Storage}
use l1_data_tools.Storage.Compactor.{min_blocks}
use l1_data_tools.Storage.Compactor.Outcome.{Run}
use l1_data_tools.Ingestion.{Codec, Ingest, ingest_block}

-- How far a compaction is: what `compactOneBatch` does next.
pub data Phase : Type 0 where
  idle : Phase
  compressed : ℕ → Bytes → Phase
  batch_saved : ℕ → Phase
  meta_saved : ℕ → Phase

module _ (st : Storage) where
  pub record Config : Type 0 where
    pub ingest : Ingest st
    pub phase : Phase

  abbrev pub with_store : st.State → Phase → Config → Config
  with_store t phase p = record { ingest = record p.ingest { store = t }; phase = phase }

  -- An empty storage, before the first block.
  pub record IsFresh (p : Config) : Type 0 where
    pub no_block : (n : ℕ) → st.get_block n p.ingest.store ≡ none
    pub no_batch : (a : ℕ) → st.get_batch_compressed a p.ingest.store ≡ none
    pub current : p.ingest.current ≡ 1
    pub phase : p.phase ≡ idle

module _ (z : Zstd) (st : Storage) (c : Codec) (text_of : ℕ → Bytes) (top : ℕ) where
  -- The chain has the blocks 1 to `top`. The loop saves the next one, or the compactor does its next write, which may fail.
  -- A failing deletion is logged only.
  pub data Step (p : Config st) : Config st → Type 0 where
    saved :
        (block : c.Value) (t : Ingest st)
        → p.ingest.current ≤ top
        → c.marshal block ≡ some (text_of p.ingest.current)
        → ingest_block st c block p.ingest ≡ some t
        → Step p (record { ingest = t; phase = p.phase })
    compresses :
        (first latest : ℕ) (frame : Bytes)
        → p.phase ≡ idle
        → st.first_block p.ingest.store ≡ some first
        → st.latest_block p.ingest.store ≡ some latest
        → ltb latest (add64 (batch_end (batch_start first)) min_blocks) ≡ false
        → Run z st (batch_start first) p.ingest.store frame
        → Step p (record p { phase = compressed (batch_start first) frame })
    saves_batch :
        (a : ℕ) (frame : Bytes) (t : st.State)
        → p.phase ≡ compressed a frame
        → st.save_batch a (batch_end a) frame p.ingest.store ≡ some t
        → Step p (with_store st t (batch_saved a) p)
    saves_meta :
        (a : ℕ) (t : st.State)
        → p.phase ≡ batch_saved a
        → st.save_meta (batch_end a) p.ingest.store ≡ some t
        → Step p (with_store st t (meta_saved a) p)
    deletes :
        (a : ℕ) (t : st.State)
        → p.phase ≡ meta_saved a
        → st.delete_block_range a (batch_end a) p.ingest.store ≡ some t
        → Step p (with_store st t idle p)
    stops : Step p (record p { phase = idle })

  pub data Steps (p : Config st) : Config st → Type 0 where
    here : Steps p p
    next : (q r : Config st) → Steps p q → Step q r → Steps p r
