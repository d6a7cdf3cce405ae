-- ===== src/Storage/Compactor/Interleaved.antt =====
-- On evm-ingestion/storage/compactor.go next to a writer: blocks that are saved between compactions, as
-- evm-ingestion/main.go does it.
use l1_data_tools.Common.{
  ℕ, ◌+◌, ◌≤◌, ◌<◌, ◌≡◌, refl, sym, ap, ◌∙◌, inl, inr, Bool, Option, none, some, arith, Bytes, u64,
  ◌==◌, if◌then◌else◌, Bool-cases, subst, kept_if,
}
use mathlib.Core.Option.{some_inj}
use l1_data_tools.Storage.Batch.{batch_start, Zstd}
use l1_data_tools.Storage.Batch.Bounds.{batch_end_lem}
use l1_data_tools.Storage.Batch.RoundTrip.{IsLine}
use l1_data_tools.Storage.Interface.{Storage, IsStorage}
use l1_data_tools.Storage.Compactor.{compact_one_batch}
use l1_data_tools.Storage.Compactor.Runs.{HasLines}
use l1_data_tools.Storage.Compactor.ReadBack.{read_back, read_back_same, read_back-stored}
use l1_data_tools.Storage.Compactor.Reads.{read_back-compact_one_batch}
use l1_data_tools.Storage.Compactor.Tip.{start_room}
use l1_data_tools.Storage.Compactor.Outcome.{
  Outcome, batch_failed, meta_failed, delete_failed, done, Attempt, skipped, wrote, attempt,
}

module _ (z : Zstd) (st : Storage) where
  -- The text that was last saved under each number.
  abbrev pub Saved : Type 0
  Saved = ℕ → Option Bytes

  abbrev pub update : ℕ → Bytes → Saved → Saved
  update n d saved m = if n == m then some d else saved m

  -- The first block is away from the wrap-around.
  abbrev pub HasRoom : st.State → Type 0
  HasRoom s = (first : ℕ) → st.first_block s ≡ some first → first + 1200 < u64

  -- From an empty storage on, lines of JSON are saved, and compactions run, each of which may fail at
  -- any of its writes.
  pub data Reach : Saved → st.State → Type 0 where
    started : (s : st.State) → ((n : ℕ) → st.get_block n s ≡ none) → Reach (λ n. none) s
    block_saved :
        (saved : Saved) (n : ℕ) (d : Bytes) (s t : st.State)
        → Reach saved s
        → n < u64
        → IsLine d
        → st.save_block n d s ≡ some t
        → Reach (update n d saved) t
    compacted :
        (saved : Saved) (s t : st.State)
        → Reach saved s
        → HasRoom s
        → t ≡ (compact_one_batch z st s).1
        → Reach saved t

  module _ (laws : IsStorage st) where
    -- A compaction stores no block.
    outcome_shrinks :
        (a n : ℕ) (frame v : Bytes) (s : st.State) (r : Bool × st.State)
        → a + 100 < u64
        → n < u64
        → Outcome z st a (a + 99) frame s r
        → st.get_block n r.1 ≡ some v
        → st.get_block n s ≡ some v
    outcome_shrinks a n frame v s r ha hn (batch_failed _ e) found =
        sym (ap (λ (x : Bool × st.State). st.get_block n x.1) e) ∙ found
    outcome_shrinks a n frame v s r ha hn (meta_failed t e1 _ e) found =
        sym (laws.get_block-save_batch a (a + 99) n frame s t e1)
        ∙ sym (ap (λ (x : Bool × st.State). st.get_block n x.1) e)
        ∙ found
    outcome_shrinks a n frame v s r ha hn (delete_failed t u e1 e2 _ e) found =
        sym (laws.get_block-save_batch a (a + 99) n frame s t e1)
        ∙ sym (laws.get_block-save_meta (a + 99) n t u e2)
        ∙ sym (ap (λ (x : Bool × st.State). st.get_block n x.1) e)
        ∙ found
    outcome_shrinks a n frame v s r ha hn (done t u w e1 e2 e3 e) found =
        sym (laws.get_block-save_batch a (a + 99) n frame s t e1)
        ∙ sym (laws.get_block-save_meta (a + 99) n t u e2)
        ∙ kept_if _ _ _ v
            (laws.get_block-delete_block_range a (a + 99) n u w (omega arith) (omega arith) hn e3)
            (sym (ap (λ (x : Bool × st.State). st.get_block n x.1) e) ∙ found)

    compact_one_batch-HasLines :
        (s : st.State) → HasRoom s → HasLines st s → HasLines st (compact_one_batch z st s).1
    compact_one_batch-HasLines s room lines n v hn found =
        lines n v hn (shrinks _ (attempt z st s) found)
      where
        shrinks :
            (r : Bool × st.State)
            → Attempt z st s r
            → st.get_block n r.1 ≡ some v
            → st.get_block n s ≡ some v
        shrinks r (skipped e) found =
            sym (ap (λ (x : Bool × st.State). st.get_block n x.1) e) ∙ found
        shrinks r (wrote first latest frame is_first is_latest far run out) found =
            let size = start_room first (room first is_first) in
            let whole = batch_end_lem (batch_start first) (omega arith) in
            outcome_shrinks (batch_start first) n frame v s r (omega arith) hn
              (subst (λ b. Outcome z st (batch_start first) b frame s r) whole out) found

    -- What each state keeps.
    record IsKept (saved : Saved) (s : st.State) : Type 0 where
      lines : HasLines st s
      reads :
          (n : ℕ) (d : Bytes)
          → 1 ≤ n
          → n + 99 < u64
          → saved n ≡ some d
          → read_back z st n s ≡ some d

    save_block-IsKept :
        (saved : Saved) (n : ℕ) (d : Bytes) (s t : st.State)
        → n < u64
        → IsLine d
        → st.save_block n d s ≡ some t
        → IsKept saved s
        → IsKept (update n d saved) t
    save_block-IsKept saved n d s t hn line e k = record {
      lines = λ m v hm found. elim (Bool-cases (n == m)) [
        | inl same ↦
            let now : some d ≡ some v =
              sym (laws.get_block-save_block n m d s t hn hm e ∙ (rw same refl)) ∙ found in
            subst IsLine (some_inj.0 now) line
        | inr differ ↦
            k.lines m v hm
              (sym (laws.get_block-save_block n m d s t hn hm e ∙ (rw differ refl)) ∙ found)
      ];
      reads = λ m v lo hi is_saved. elim (Bool-cases (n == m)) [
        | inl same ↦
            let now : st.get_block m t ≡ some d =
              laws.get_block-save_block n m d s t hn (omega arith) e ∙ (rw same refl) in
            let text : some d ≡ some v = sym (rw same refl) ∙ is_saved in
            read_back-stored z st laws m v t (now ∙ text)
        | inr differ ↦
            let old : saved m ≡ some v = sym (rw differ refl) ∙ is_saved in
            read_back_same z st laws m s t
              (laws.get_block-save_block n m d s t hn (omega arith) e ∙ (rw differ refl))
              (laws.get_batch-save_block n (batch_start m) d s t e)
            ∙ k.reads m v lo hi old
      ];
    }

    Reach-IsKept : (saved : Saved) (s : st.State) → Reach saved s → IsKept saved s
    Reach-IsKept saved s (started s' empty) = record {
      lines = λ n v hn found. cc (sym (empty n) ∙ found);
      reads = λ n v lo hi is_saved. cc;
    }
    Reach-IsKept saved t (block_saved old n d s t' r hn line e) =
        save_block-IsKept old n d s t hn line e (Reach-IsKept old s r)
    Reach-IsKept saved t (compacted old s t' r room e) =
        let k = Reach-IsKept saved s r in
        subst (IsKept saved) (sym e) (record {
          lines = compact_one_batch-HasLines s room k.lines;
          reads = λ n v lo hi is_saved.
              read_back-compact_one_batch z st laws n s k.lines room lo hi
              ∙ k.reads n v lo hi is_saved;
        })

-- Over a storage that fulfils its contract, however saves of lines of JSON and compactions follow each
-- other from an empty storage on, and at whichever write a compaction fails: each number from 1 on
-- reads as the text that was last saved under it, by itself or from its batch. The numbers, and the
-- first block at each compaction, are away from the wrap-around.
pub Reach-read_back :
    (z : Zstd) (st : Storage) (saved : ℕ → Option Bytes) (s : st.State) (n : ℕ) (d : Bytes)
    → IsStorage st
    → Reach z st saved s
    → 1 ≤ n
    → n + 99 < u64
    → saved n ≡ some d
    → read_back z st n s ≡ some d
Reach-read_back z st saved s n d laws r lo hi is_saved =
    (Reach-IsKept z st laws saved s r).reads n d lo hi is_saved
