-- ===== src/Storage/Compactor/Runs.antt =====
-- The blocks that one compaction reads: a run of a hundred lines from the start of a batch.
use l1_data_tools.Common.{
  ℕ, zero, suc, ◌+◌, ◌-◌, ◌≤◌, ◌<◌, ◌≡◌, refl, ap, ◌∙◌, List, [], ◌∷◌, some, arith, Bytes, u64,
  add64, length, get_elem?, get_elem?_total, All, >>=-eq-some, subst,
}
use mathlib.Core.Option.{some_inj}
use l1_data_tools.Storage.Batch.{Zstd}
use l1_data_tools.Storage.Batch.RoundTrip.{IsLine}
use l1_data_tools.Storage.Interface.{Storage}
use l1_data_tools.Storage.Compactor.{read_blocks}

module _ (st : Storage) where
  -- Every block that is stored by itself, under a uint64, is one line of JSON.
  abbrev pub HasLines : st.State → Type 0
  HasLines s = (n : ℕ) (d : Bytes) → n < u64 → st.get_block n s ≡ some d → IsLine d

  -- The hundred blocks from `start` on are stored, and are the lines of `blocks`.
  pub record IsRun (start : ℕ) (blocks : List Bytes) (s : st.State) : Type 0 where
    pub lines : All IsLine blocks
    pub block_at : (i : ℕ) → i < 100 → st.get_block (start + i) s ≡ get_elem? blocks i
    pub size : length blocks ≡ 100

module _ (z : Zstd) (st : Storage) where
  pub read_blocks-lines :
      (start count : ℕ) (s : st.State) (blocks : List Bytes)
      → HasLines st s
      → start < u64
      → read_blocks z st start count s ≡ some blocks
      → All IsLine blocks × (length blocks ≡ count)
  unfolding read_blocks
  read_blocks-lines start zero s [] h small e = (tt, refl)
  read_blocks-lines start zero s (b ∷ blocks) h small e = cc
  read_blocks-lines start (suc count) s blocks h small e =
      let (d, stored, e') = >>=-eq-some (st.get_block start s) _ e in
      let (rest, read, all) = >>=-eq-some (read_blocks z st (add64 start 1) count s) _ e' in
      let (lines, size) = read_blocks-lines (add64 start 1) count s rest h (omega arith) read in
      subst (λ l. All IsLine l × (length l ≡ suc count)) (some_inj.0 all)
        ((h start d small stored, lines), ap suc size)

  pub read_blocks-at :
      (start count : ℕ) (s : st.State) (blocks : List Bytes) (i : ℕ)
      → start + count < u64
      → read_blocks z st start count s ≡ some blocks
      → i < count
      → st.get_block (start + i) s ≡ get_elem? blocks i
  unfolding read_blocks
  read_blocks-at start zero s blocks i fits e h = absurd (omega arith)
  read_blocks-at start (suc count) s blocks i fits e h =
      let (d, stored, e') = >>=-eq-some (st.get_block start s) _ e in
      let (rest, read, all) = >>=-eq-some (read_blocks z st (add64 start 1) count s) _ e' in
      let next : add64 start 1 ≡ start + 1 = omega arith in
      subst (λ l. st.get_block (start + i) s ≡ get_elem? l i) (some_inj.0 all)
        (at d rest i stored h (λ j hj.
          ap (λ k. st.get_block k s) (omega arith)
          ∙ read_blocks-at (add64 start 1) count s rest j (omega arith) read hj))
    where
      at :
          (d : Bytes) (rest : List Bytes) (i : ℕ)
          → st.get_block start s ≡ some d
          → i < suc count
          → ((j : ℕ) → j < count → st.get_block (start + suc j) s ≡ get_elem? rest j)
          → st.get_block (start + i) s ≡ get_elem? (d ∷ rest) i
      at d rest zero stored h tail = ap (λ k. st.get_block k s) (omega arith) ∙ stored
      at d rest (suc j) stored h tail = tail j (omega arith)

-- A block of a run is stored, and it is a line of the batch.
pub IsRun-block :
    (st : Storage) (a n : ℕ) (blocks : List Bytes) (s : st.State)
    → IsRun st a blocks s
    → a ≤ n
    → n ≤ a + 99
    → (d : Bytes) × (st.get_block n s ≡ some d) × (get_elem? blocks (n - a) ≡ some d)
IsRun-block st a n blocks s run lo hi =
    let (d, line) = get_elem?_total blocks (n - a) (omega (arith, run.size)) in
    let place : n ≡ a + (n - a) = omega arith in
    (d, ap (λ k. st.get_block k s) place ∙ run.block_at (n - a) (omega arith) ∙ line, line)
