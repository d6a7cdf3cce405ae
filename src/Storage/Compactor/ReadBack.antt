-- ===== src/Storage/Compactor/ReadBack.antt =====
-- What a reader gets for a block number, before and after each step of a compaction.
use l1_data_tools.Common.{
  ℕ, ◌+◌, ◌-◌, ◌%◌, ◌≤◌, ◌<◌, ◌≡◌, ◌↔◌, refl, sym, ap, ◌∙◌, inl, inr, true, false, List, Option,
  none, some, ◌>>=◌, arith, Bytes, u64, get_elem?, leb, ◌==◌, ◌&&◌, Bool-cases, Option-cases,
  ==_refl, >>=-eq-some,
}
use l1_data_tools.Storage.Batch.{batch_size, batch_start, Zstd, compress_blocks, decompress_blocks}
use l1_data_tools.Storage.Batch.Bounds.{batch_start_closed}
use l1_data_tools.Storage.Batch.RoundTrip.{decompress_blocks-compress_blocks}
use l1_data_tools.Storage.Interface.{Storage, IsStorage}
use l1_data_tools.Storage.Compactor.{read_blocks, delete_blocks, save_compacted, compact_batch}
use l1_data_tools.Storage.Compactor.Runs.{
  HasLines, IsRun, read_blocks-lines, read_blocks-at, IsRun-block,
}

-- The line of block `n` in its batch, if the batch is there and can be read.
pub line_in : Zstd → ℕ → Option Bytes → Option Bytes
line_in z n batch = do
  frame ← batch
  blocks ← decompress_blocks z frame
  get_elem? blocks (n - batch_start n)

abbrev or_else : Option Bytes → Option Bytes → Option Bytes
or_else none line = line
or_else (some d) line = some d

-- What a reader gets for block `n`: the block that is stored by itself, or its line in its batch.
pub read_back : Zstd → (st : Storage) → ℕ → st.State → Option Bytes
read_back z st n s =
    or_else (st.get_block n s) (line_in z n (st.get_batch_compressed (batch_start n) s))

-- `a` is the first block of a batch, away from the wrap-around.
pub record IsStart (a : ℕ) : Type 0 where
  pub positive : 1 ≤ a
  pub aligned : (a - 1) % 100 ≡ 0
  pub room : a + 1100 < u64

pub batch_start_iff :
    (a n : ℕ)
    → IsStart a
    → 1 ≤ n
    → n < u64
    → ((a == batch_start n) ≡ true) ↔ ((a ≤ n) × (n ≤ a + 99))
batch_start_iff a n h hn hu = ground (arith, batch_start_closed n hn hu)

pub inside_test : (a n : ℕ) → a ≤ n → n ≤ a + 99 → (leb a n && leb n (a + 99)) ≡ true
inside_test a n lo hi = ground arith

pub outside_test :
    (a n : ℕ)
    → IsStart a
    → 1 ≤ n
    → n < u64
    → (a == batch_start n) ≡ false
    → (leb a n && leb n (a + 99)) ≡ false
outside_test a n h hn hu e = ground (arith, batch_start_closed n hn hu)

pub batch_start_room : (n : ℕ) → 1 ≤ n → n + 99 < u64 → batch_start n + 99 < u64
batch_start_room n hn hu = omega (arith, batch_start_closed n hn (omega arith))

module _ (z : Zstd) (st : Storage) (laws : IsStorage st) where
  pub read_back_same :
      (n : ℕ) (s t : st.State)
      → st.get_block n t ≡ st.get_block n s
      → st.get_batch_compressed (batch_start n) t ≡ st.get_batch_compressed (batch_start n) s
      → read_back z st n t ≡ read_back z st n s
  unfolding read_back
  read_back_same n s t p q = rw (p, q)

  pub read_back-stored :
      (n : ℕ) (v : Bytes) (s : st.State) → st.get_block n s ≡ some v → read_back z st n s ≡ some v
  unfolding read_back
  read_back-stored n v s e = rw e refl

  pub read_back-none :
      (n : ℕ) (s : st.State)
      → st.get_block n s ≡ none
      → st.get_batch_compressed (batch_start n) s ≡ none
      → read_back z st n s ≡ none
  unfolding read_back line_in
  read_back-none n s e e' = rw (e, e') refl

  -- Saving the batch of a run hides nothing: the run's blocks are still stored by themselves.
  read_back-save_batch :
      (a n : ℕ) (blocks : List Bytes) (frame : Bytes) (s t : st.State)
      → IsStart a
      → IsRun st a blocks s
      → 1 ≤ n
      → n + 99 < u64
      → st.save_batch a (a + 99) frame s ≡ some t
      → read_back z st n t ≡ read_back z st n s
  unfolding read_back
  read_back-save_batch a n blocks frame s t start run hn hu saved =
      elim (Bool-cases (a == batch_start n)) [
        | inl inside ↦
            let (lo, hi) = (batch_start_iff a n start hn (omega arith)).0 inside in
            let (d, stored, _) = IsRun-block st a n blocks s run lo hi in
            rw (laws.get_block-save_batch a (a + 99) n frame s t saved, stored) refl
        | inr outside ↦
            read_back_same n s t (laws.get_block-save_batch a (a + 99) n frame s t saved) (
              laws.get_batch-save_batch a (batch_start n) frame s t (omega (arith, start.room))
                (batch_start_room n hn hu) saved
              ∙ rw outside refl)
      ]

  -- Deleting the blocks of a run whose batch is saved: the batch has each of them.
  read_back-delete :
      (a n : ℕ) (blocks : List Bytes) (frame : Bytes) (s t : st.State)
      → IsStart a
      → IsRun st a blocks s
      → st.get_batch_compressed a s ≡ some frame
      → decompress_blocks z frame ≡ some blocks
      → 1 ≤ n
      → n + 99 < u64
      → st.delete_block_range a (a + 99) s ≡ some t
      → read_back z st n t ≡ read_back z st n s
  unfolding read_back line_in
  read_back-delete a n blocks frame s t start run batch text hn hu deleted =
      let gone =
        laws.get_block-delete_block_range a (a + 99) n s t (omega (arith, start.room))
          (omega (arith, start.room)) (omega arith) deleted in
      let kept =
        laws.get_batch-delete_block_range a (a + 99) (batch_start n) s t (omega (arith, start.room))
          (omega (arith, start.room)) deleted in
      elim (Bool-cases (a == batch_start n)) [
        | inl inside ↦
            let (lo, hi) = (batch_start_iff a n start hn (omega arith)).0 inside in
            let (d, stored, line) = IsRun-block st a n blocks s run lo hi in
            let here : a ≡ batch_start n = ground arith in
            let none_left : st.get_block n t ≡ none = gone ∙ (rw (inside_test a n lo hi) refl) in
            let in_batch : st.get_batch_compressed (batch_start n) t ≡ some frame =
              kept ∙ ap (λ k. st.get_batch_compressed k s) (sym here) ∙ batch in
            let its_line : get_elem? blocks (n - batch_start n) ≡ some d =
              ap (λ k. get_elem? blocks (n - k)) (sym here) ∙ line in
            rw (none_left, in_batch, stored) (rw text its_line)
        | inr outside ↦
            read_back_same n s t
              (gone ∙ (rw (outside_test a n start hn (omega arith) outside) refl)) kept
      ]

  -- Deleting, as the compactor does it: an error leaves the blocks where they are.
  read_back-delete_blocks :
      (a n : ℕ) (blocks : List Bytes) (frame : Bytes) (s : st.State)
      → IsStart a
      → IsRun st a blocks s
      → st.get_batch_compressed a s ≡ some frame
      → decompress_blocks z frame ≡ some blocks
      → 1 ≤ n
      → n + 99 < u64
      → read_back z st n (delete_blocks z st a (a + 99) s).1 ≡ read_back z st n s
  unfolding delete_blocks
  read_back-delete_blocks a n blocks frame s start run batch text hn hu =
      elim (Option-cases (st.delete_block_range a (a + 99) s)) [
        | inl e ↦ rw (e, delete_blocks) refl
        | inr (t, e) ↦
            rw (e, delete_blocks)
              (read_back-delete a n blocks frame s t start run batch text hn hu e)
      ]

  -- The three writes of a compaction, each of which may fail, after the batch has been encoded.
  read_back-save_compacted :
      (a n : ℕ) (blocks : List Bytes) (frame : Bytes) (s : st.State)
      → IsStart a
      → IsRun st a blocks s
      → compress_blocks z blocks ≡ some frame
      → 1 ≤ n
      → n + 99 < u64
      → read_back z st n (save_compacted z st a (a + 99) frame s).1 ≡ read_back z st n s
  unfolding save_compacted
  read_back-save_compacted a n blocks frame s start run encoded hn hu =
      elim (Option-cases (st.save_batch a (a + 99) frame s)) [
        | inl e ↦ rw (e, save_compacted) refl
        | inr (t, e) ↦
            let same = read_back-save_batch a n blocks frame s t start run hn hu e in
            elim (Option-cases (st.save_meta (a + 99) t)) [
              | inl e' ↦ rw (e, save_compacted) (rw (e', save_compacted) same)
              | inr (u, e') ↦
                  rw (e, save_compacted)
                    (rw (e', save_compacted)
                      (read_back-delete_blocks a n blocks frame u start (still t u e e')
                          (batch t u e e') text hn hu
                        ∙ read_back_same n t u (laws.get_block-save_meta (a + 99) n t u e')
                            (laws.get_batch-save_meta (a + 99) (batch_start n) t u e')
                        ∙ same))
            ]
      ]
    where
      text : decompress_blocks z frame ≡ some blocks
      text = decompress_blocks-compress_blocks z blocks frame run.lines encoded

      still :
          (t u : st.State)
          → st.save_batch a (a + 99) frame s ≡ some t
          → st.save_meta (a + 99) t ≡ some u
          → IsRun st a blocks u
      still t u e e' = record {
        lines = run.lines;
        block_at = λ i h.
            laws.get_block-save_meta (a + 99) (a + i) t u e'
            ∙ laws.get_block-save_batch a (a + 99) (a + i) frame s t e
            ∙ run.block_at i h;
        size = run.size;
      }

      batch :
          (t u : st.State)
          → st.save_batch a (a + 99) frame s ≡ some t
          → st.save_meta (a + 99) t ≡ some u
          → st.get_batch_compressed a u ≡ some frame
      batch t u e e' =
          laws.get_batch-save_meta (a + 99) a t u e'
          ∙ laws.get_batch-save_batch a a frame s t (omega (arith, start.room))
              (omega (arith, start.room)) e
          ∙ (rw (==_refl a) refl)

  pub read_back-compact_batch :
      (a n : ℕ) (s : st.State)
      → HasLines st s
      → IsStart a
      → 1 ≤ n
      → n + 99 < u64
      → read_back z st n (compact_batch z st a (a + 99) s).1 ≡ read_back z st n s
  unfolding compact_batch
  read_back-compact_batch a n s lines start hn hu =
      elim (Option-cases (read_blocks z st a batch_size s >>= compress_blocks z)) [
        | inl e ↦ rw (e, compact_batch) refl
        | inr (frame, e) ↦
            let (blocks, read, encoded) = >>=-eq-some (read_blocks z st a batch_size s) _ e in
            let (all_lines, size) =
              read_blocks-lines z st a batch_size s blocks lines (omega (arith, start.room)) read in
            let run : IsRun st a blocks s = record {
              lines = all_lines;
              block_at = λ i h.
                  read_blocks-at z st a batch_size s blocks i (omega (arith, start.room)) read h;
              size = size;
            } in
            rw (e, compact_batch)
              (read_back-save_compacted a n blocks frame s start run encoded hn hu)
      ]
