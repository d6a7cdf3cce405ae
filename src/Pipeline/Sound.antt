-- ===== src/Pipeline/Sound.antt =====
-- On evm-ingestion/main.go with evm-ingestion/storage/compactor.go: what the storage holds between any
-- two writes.
use l1_data_tools.Common.{
  ℕ, zero, suc, ◌+◌, ◌-◌, ◌≤◌, ◌<◌, ◌≡◌, ◌≢◌, ◌⊎◌, refl, sym, ap, ap₂, ◌∙◌, List, [], ◌∷◌, ◌++◌,
  ◌%◌, some, arith, Bytes, u64, length, add64, >>=-eq-some,
}
use mathlib.Core.Option.{some_inj}
use l1_data_tools.Storage.Batch.{Zstd, batch_start, batch_size, jsonl, compress_blocks, newline}
use l1_data_tools.Storage.Interface.{Storage}
use l1_data_tools.Storage.Compactor.{read_blocks}
use l1_data_tools.Storage.Compactor.Outcome.{Run}
use l1_data_tools.Storage.Compactor.ReadBack.{IsStart}
use l1_data_tools.Client.{Json, Block}
use l1_data_tools.Client.Pack.{texts}
use l1_data_tools.Pipeline.{Phase, idle, compressed, batch_saved, meta_saved}

module _ (z : Zstd) (st : Storage) (j : Json) (text_of : ℕ → Bytes) (block_of : ℕ → Block j) where
  -- A whole batch of blocks below `current`.
  pub record IsFrame (current a : ℕ) (frame : Bytes) : Type 0 where
    pub full : 0 < length frame
    pub decoded : z.decode frame ≡ some (jsonl (texts j text_of block_of a batch_size))
    pub behind : a + 99 < current

  abbrev pub Found : st.State → ℕ → Type 0
  Found s n =
      (st.get_block n s ≡ some (text_of n))
      ⊎ ((frame : Bytes) × (st.get_batch_compressed (batch_start n) s ≡ some frame))

  -- What the next write of the compactor relies on.
  abbrev pub IsReady : Phase → st.State → ℕ → Type 0
  IsReady idle s current = Unit
  IsReady (compressed a frame) s current = IsStart a × IsFrame current a frame
  IsReady (batch_saved a) s current =
      IsStart a × ((frame : Bytes) × (st.get_batch_compressed a s ≡ some frame))
  IsReady (meta_saved a) s current =
      IsStart a × ((frame : Bytes) × (st.get_batch_compressed a s ≡ some frame))

  -- Exactly the blocks of the chain before `current` are stored, each by itself or in a whole batch.
  pub record IsSound (s : st.State) (phase : Phase) (current : ℕ) : Type 0 where
    pub blocks :
        (n : ℕ) (d : Bytes)
        → n < u64
        → st.get_block n s ≡ some d
        → (1 ≤ n) × (n < current) × (d ≡ text_of n)
    pub batches :
        (a : ℕ) (frame : Bytes)
        → a + 99 < u64
        → st.get_batch_compressed a s ≡ some frame
        → IsFrame current a frame
    pub found : (n : ℕ) → 1 ≤ n → n < current → Found s n
    pub ready : IsReady phase s current
    pub positive : 1 ≤ current

  -- What a compaction reads is the text of the chain.
  read_blocks-texts :
      (a count : ℕ) (s : st.State) (bs : List Bytes)
      → ((n : ℕ) (d : Bytes) → n < u64 → st.get_block n s ≡ some d → d ≡ text_of n)
      → a + count < u64
      → read_blocks z st a count s ≡ some bs
      → bs ≡ texts j text_of block_of a count
  unfolding read_blocks texts
  read_blocks-texts a zero s bs h fits e = sym (some_inj.0 e)
  read_blocks-texts a (suc count) s bs h fits e =
      let (d, stored, e') = >>=-eq-some (st.get_block a s) _ e in
      let (rest, read, all) = >>=-eq-some (read_blocks z st (add64 a 1) count s) _ e' in
      let one : add64 a 1 ≡ a + 1 = omega arith in
      let tail =
        read_blocks-texts (a + 1) count s rest h (omega arith)
          (ap (λ k. read_blocks z st k count s) (sym one) ∙ read) in
      sym (some_inj.0 all) ∙ ap₂ (λ x l. x ∷ l) (h a d (omega arith) stored) tail

  -- The last block of a run is stored.
  read_blocks-last :
      (a count : ℕ) (s : st.State) (bs : List Bytes)
      → a + count < u64
      → read_blocks z st a (suc count) s ≡ some bs
      → (d : Bytes) × (st.get_block (a + count) s ≡ some d)
  unfolding read_blocks
  read_blocks-last a zero s bs fits e =
      let (d, stored, _) = >>=-eq-some (st.get_block a s) _ e in
      (d, ap (λ k. st.get_block k s) (omega arith) ∙ stored)
  read_blocks-last a (suc count) s bs fits e =
      let (_, _, e') = >>=-eq-some (st.get_block a s) _ e in
      let (rest, read, _) = >>=-eq-some (read_blocks z st (add64 a 1) (suc count) s) _ e' in
      let one : add64 a 1 ≡ a + 1 = omega arith in
      let (d, last) =
        read_blocks-last (a + 1) count s rest (omega arith)
          (ap (λ k. read_blocks z st k (suc count) s) (sym one) ∙ read) in
      (d, ap (λ k. st.get_block k s) (omega arith) ∙ last)

  jsonl-ne-nil : (a : ℕ) → jsonl (texts j text_of block_of a batch_size) ≢ []
  unfolding texts jsonl
  jsonl-ne-nil a e = no_end (text_of a) _ e
    where
      no_end : (line rest : Bytes) → line ++ newline ∷ rest ≢ []
      no_end [] rest e = cc
      no_end (x ∷ line) rest e = cc

  length-ne-nil : (s : Bytes) → s ≢ [] → 0 < length s
  length-ne-nil [] h = absurd (h refl)
  length-ne-nil (x ∷ s) h = omega arith

  first_stored :
      (a count : ℕ) (s : st.State) (bs : List Bytes)
      → read_blocks z st a (suc count) s ≡ some bs
      → (d : Bytes) × (st.get_block a s ≡ some d)
  unfolding read_blocks
  first_stored a count s bs e =
      let (d, stored, _) = >>=-eq-some (st.get_block a s) _ e in (d, stored)

  pub batch_start_aligned :
      (n : ℕ) → (1 ≤ batch_start n) × ((batch_start n - 1) % 100 ≡ 0) × (batch_start n < u64)
  unfolding batch_start
  batch_start_aligned n = ground arith

  -- A run of blocks of the chain, below the wrap-around, is compressed to a whole batch.
  pub Run-IsFrame :
      (a current : ℕ) (s : st.State) (frame : Bytes)
      → current + 1300 < u64
      → a < u64
      → 1 ≤ a
      → (a - 1) % 100 ≡ 0
      → ((n : ℕ) (d : Bytes)
          → n < u64
          → st.get_block n s ≡ some d
          → (1 ≤ n) × (n < current) × (d ≡ text_of n))
      → Run z st a s frame
      → IsStart a × IsFrame current a frame
  unfolding compress_blocks
  Run-IsFrame a current s frame top fits lo aligned h run =
      let (d, stored) = first_stored a 99 s run.blocks run.read in
      let low : a < current = (h a d fits stored).1 in
      let (d', last) = read_blocks-last a 99 s run.blocks (omega arith) run.read in
      let high : a + 99 < current = (h (a + 99) d' (omega arith) last).1 in
      let same : run.blocks ≡ texts j text_of block_of a batch_size =
        read_blocks-texts a batch_size s run.blocks (λ n x hn e. (h n x hn e).2) (omega arith)
          run.read in
      let encoded : z.encode_stream (jsonl (texts j text_of block_of a batch_size)) ≡ some frame =
        ap (λ l. z.encode_stream (jsonl l)) (sym same) ∙ run.encoded in
      (
        record { positive = lo; aligned = aligned; room = omega arith },
        record {
          full = length-ne-nil frame (z.encode_stream-ne-nil _ frame (jsonl-ne-nil a) encoded);
          decoded = z.decode-encode_stream _ frame encoded;
          behind = high;
        },
      )
