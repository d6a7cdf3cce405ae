-- ===== src/Storage/Compactor/Tip.antt =====
-- What a compaction leaves alone, and what it has done when it reports success.
use l1_data_tools.Common.{
  ℕ, zero, suc, ◌+◌, ◌<◌, ◌≡◌, refl, sym, ap, ◌∙◌, Bool, true, false, List, some, arith, Bytes, u64,
  leb, ◌&&◌, subst, ==_refl, none, Option, if◌then◌else◌,
}
use mathlib.Core.Option.{some_inj}
use l1_data_tools.Storage.Batch.{batch_size, batch_start, Zstd, compress_blocks}
use l1_data_tools.Storage.Batch.Bounds.{batch_start_closed, batch_end_lem}
use l1_data_tools.Storage.Interface.{Storage, IsStorage}
use l1_data_tools.Storage.Compactor.{read_blocks, compact_one_batch}
use l1_data_tools.Storage.Compactor.Outcome.{
  Outcome, batch_failed, meta_failed, delete_failed, done, Attempt, skipped, wrote, attempt,
}

pub start_room : (f : ℕ) → f + 1200 < u64 → batch_start f + 1199 < u64
start_room zero h = unfold batch_start in omega arith
start_room (suc f) h = omega (arith, batch_start_closed (suc f) (omega arith) (omega arith))

module _ (z : Zstd) (st : Storage) (laws : IsStorage st) where
  -- What is true of `start` in the range of the numbers that can be compacted.
  outcome_keeps :
      (a n : ℕ) (frame : Bytes) (s : st.State) (r : Bool × st.State)
      → a + 100 < u64
      → n < u64
      → a + 99 < n
      → Outcome z st a (a + 99) frame s r
      → st.get_block n r.1 ≡ st.get_block n s
  outcome_keeps a n frame s r ha hn out (batch_failed _ e) =
      ap (λ (x : Bool × st.State). st.get_block n x.1) e
  outcome_keeps a n frame s r ha hn out (meta_failed t e1 _ e) =
      ap (λ (x : Bool × st.State). st.get_block n x.1) e
      ∙ laws.get_block-save_batch a (a + 99) n frame s t e1
  outcome_keeps a n frame s r ha hn out (delete_failed t u e1 e2 _ e) =
      ap (λ (x : Bool × st.State). st.get_block n x.1) e
      ∙ laws.get_block-save_meta (a + 99) n t u e2
      ∙ laws.get_block-save_batch a (a + 99) n frame s t e1
  outcome_keeps a n frame s r ha hn out (done t u v e1 e2 e3 e) =
      ap (λ (x : Bool × st.State). st.get_block n x.1) e
      ∙ laws.get_block-delete_block_range a (a + 99) n u v (omega arith) (omega arith) hn e3
      ∙ (rw (above a n out) refl)
      ∙ laws.get_block-save_meta (a + 99) n t u e2
      ∙ laws.get_block-save_batch a (a + 99) n frame s t e1
    where
      above : (a n : ℕ) → a + 99 < n → (leb a n && leb n (a + 99)) ≡ false
      above a n h = ground arith

  -- The thousand blocks at the tip stay stored one by one: a compaction, however it ends, leaves
  -- each block above `latest - 1000` as it was. The first block is away from the wrap-around.
  pub compact_one_batch_keeps_tip :
      (n latest : ℕ) (s : st.State)
      → ((first : ℕ) → st.first_block s ≡ some first → first + 1200 < u64)
      → st.latest_block s ≡ some latest
      → latest < n + 1000
      → n < u64
      → st.get_block n (compact_one_batch z st s).1 ≡ st.get_block n s
  compact_one_batch_keeps_tip n latest s room e near hn = keeps _ (attempt z st s)
    where
      keeps : (r : Bool × st.State) → Attempt z st s r → st.get_block n r.1 ≡ st.get_block n s
      keeps r (skipped e) = ap (λ (x : Bool × st.State). st.get_block n x.1) e
      keeps r (wrote first l frame is_first is_latest far run out) =
          let size = start_room first (room first is_first) in
          let whole = batch_end_lem (batch_start first) (omega arith) in
          let same : l ≡ latest = some_inj.0 (sym is_latest ∙ e) in
          outcome_keeps (batch_start first) n frame s r (omega arith) hn (ground (arith, whole))
            (subst (λ b. Outcome z st (batch_start first) b frame s r) whole out)

  saved_batch :
      (a : ℕ) (frame : Bytes) (s t u : st.State)
      → a + 100 < u64
      → st.save_batch a (a + 99) frame s ≡ some t
      → st.save_meta (a + 99) t ≡ some u
      → st.get_batch_compressed a u ≡ some frame
  saved_batch a frame s t u ha e1 e2 =
      laws.get_batch-save_meta (a + 99) a t u e2
      ∙ laws.get_batch-save_batch a a frame s t (omega arith) (omega arith) e1
      ∙ (rw (==_refl a) refl)

  -- How the deletion of a compacted batch has ended: none of its blocks is stored by itself any more,
  -- nothing but them is gone, or the deletion failed and all of them are left.
  pub data Deleted (a : ℕ) (s t : st.State) : Type 0 where
    gone :
        ((n : ℕ)
          → n < u64
          → st.get_block n t ≡ (if leb a n && leb n (a + 99) then none else st.get_block n s))
        → Deleted a s t
    left :
        (u : st.State)
        → st.delete_block_range a (a + 99) u ≡ none
        → t ≡ u
        → ((n : ℕ) → st.get_block n t ≡ st.get_block n s)
        → Deleted a s t

  outcome_true :
      (a : ℕ) (frame : Bytes) (s : st.State) (r : Bool × st.State)
      → a + 100 < u64
      → r.0 ≡ true
      → Outcome z st a (a + 99) frame s r
      → (st.get_batch_compressed a r.1 ≡ some frame) × (st.get_meta r.1 ≡ a + 99) × Deleted a s r.1
  outcome_true a frame s r ha ok (batch_failed _ e) = cc (ap (λ (x : Bool × st.State). x.0) e)
  outcome_true a frame s r ha ok (meta_failed t _ _ e) = cc (ap (λ (x : Bool × st.State). x.0) e)
  outcome_true a frame s r ha ok (delete_failed t u e1 e2 e3 e) = (
    ap (λ (x : Bool × st.State). st.get_batch_compressed a x.1) e
        ∙ saved_batch a frame s t u ha e1 e2,
    ap (λ (x : Bool × st.State). st.get_meta x.1) e
        ∙ laws.get_meta-save_meta (a + 99) t u (omega arith) e2,
    left u e3 (ap (λ (x : Bool × st.State). x.1) e) (λ n.
        ap (λ (x : Bool × st.State). st.get_block n x.1) e
        ∙ laws.get_block-save_meta (a + 99) n t u e2
        ∙ laws.get_block-save_batch a (a + 99) n frame s t e1),
  )
  outcome_true a frame s r ha ok (done t u v e1 e2 e3 e) = (
    ap (λ (x : Bool × st.State). st.get_batch_compressed a x.1) e
        ∙ laws.get_batch-delete_block_range a (a + 99) a u v (omega arith) (omega arith) e3
        ∙ saved_batch a frame s t u ha e1 e2,
    ap (λ (x : Bool × st.State). st.get_meta x.1) e
        ∙ laws.get_meta-delete_block_range a (a + 99) u v (omega arith) (omega arith) e3
        ∙ laws.get_meta-save_meta (a + 99) t u (omega arith) e2,
    gone (λ n hn.
        ap (λ (x : Bool × st.State). st.get_block n x.1) e
        ∙ laws.get_block-delete_block_range a (a + 99) n u v (omega arith) (omega arith) hn e3
        ∙ ap (λ (b : Option Bytes). if leb a n && leb n (a + 99) then none else b)
            (laws.get_block-save_meta (a + 99) n t u e2
              ∙ laws.get_block-save_batch a (a + 99) n frame s t e1)),
  )

  -- The hundred blocks from the start of the first block's batch on, as they were stored, are saved
  -- under that batch, and its end as the last compacted block; and they are deleted.
  pub record Compacted (s t : st.State) : Type 0 where
    pub first : ℕ
    pub is_first : st.first_block s ≡ some first
    pub blocks : List Bytes
    pub read : read_blocks z st (batch_start first) batch_size s ≡ some blocks
    pub frame : Bytes
    pub encoded : compress_blocks z blocks ≡ some frame
    pub saved : st.get_batch_compressed (batch_start first) t ≡ some frame
    pub last : st.get_meta t ≡ batch_start first + 99
    pub deleted : Deleted (batch_start first) s t

  -- A compaction that reports success has saved the hundred blocks from the start of the first
  -- block's batch on, as they were stored, under that batch, and its end as the last compacted block;
  -- and it has deleted these blocks and no other, unless the deletion itself failed, which leaves all
  -- of them. The first block is away from the wrap-around.
  pub compact_one_batch-true :
      (s : st.State)
      → ((first : ℕ) → st.first_block s ≡ some first → first + 1200 < u64)
      → (compact_one_batch z st s).0 ≡ true
      → Compacted s (compact_one_batch z st s).1
  compact_one_batch-true s room ok = success _ (attempt z st s) ok
    where
      success : (r : Bool × st.State) → Attempt z st s r → r.0 ≡ true → Compacted s r.1
      success r (skipped e) ok = cc (ap (λ (x : Bool × st.State). x.0) e)
      success r (wrote first l frame is_first is_latest far run out) ok =
          let size = start_room first (room first is_first) in
          let whole = batch_end_lem (batch_start first) (omega arith) in
          let (saved, last, deleted) =
            outcome_true (batch_start first) frame s r (omega arith) ok
              (subst (λ b. Outcome z st (batch_start first) b frame s r) whole out) in
          record {
            first = first;
            is_first = is_first;
            blocks = run.blocks;
            read = run.read;
            frame = frame;
            encoded = run.encoded;
            saved = saved;
            last = last;
            deleted = deleted;
          }
