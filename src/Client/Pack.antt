-- ===== src/Client/Pack.antt =====
-- What the client makes of a frame that holds consecutive blocks of a chain.
use l1_data_tools.Common.{
  ℕ, zero, suc, ◌+◌, ◌-◌, ◌≤◌, ◌<◌, ◌≡◌, refl, ap, ◌∙◌, inl, inr, false, List, [], ◌∷◌, ◌++◌, some,
  arith, Bytes, u64, length, All, leb, le→leb, ◌==◌, if◌then◌else◌, Bool-cases,
}
use l1_data_tools.Storage.Keys.{split}
use l1_data_tools.Storage.Keys.RoundTrip.{cut-append}
use l1_data_tools.Storage.Batch.{Zstd, newline, jsonl}
use l1_data_tools.Storage.Batch.RoundTrip.{IsLine, Plain}
use l1_data_tools.Client.{
  Json, Block, parse_line, parse_lines, read_pack, not_below, next_block, take_pack,
}

All-no_newline : (s : Bytes) → All Plain s → All (λ c. (c == newline) ≡ false) s
All-no_newline [] h = tt
All-no_newline (c ∷ s) h = (h.0.0, All-no_newline s h.1)

module _ (j : Json) (text_of : ℕ → Bytes) (block_of : ℕ → Block j) where
  -- The texts and the blocks of `count` numbers from `start` on.
  unfoldable pub texts : ℕ → ℕ → List Bytes
  texts start zero = []
  texts start (suc count) = text_of start ∷ texts (start + 1) count

  unfoldable pub blocks : ℕ → ℕ → List (Block j)
  blocks start zero = []
  blocks start (suc count) = block_of start ∷ blocks (start + 1) count

  -- Block `n` of the chain is one line of JSON, which is parsed to the block with that number.
  pub record IsBlock (z : Zstd) (n : ℕ) : Type 0 where
    pub line : IsLine (text_of n)
    pub parsed : parse_line z j (text_of n) ≡ some (block_of n)
    pub numbered : (block_of n).number ≡ n

module _ (z : Zstd) (j : Json) (text_of : ℕ → Bytes) (block_of : ℕ → Block j) where
  split-jsonl :
      (line : Bytes) (lines : List Bytes)
      → All Plain line
      → split (jsonl (line ∷ lines)) newline ≡ line ∷ split (jsonl lines) newline
  unfolding split jsonl
  split-jsonl line lines h =
      cut-append newline line (newline ∷ jsonl lines) [] (All-no_newline line h)

  parse_lines-cons :
      (n : ℕ) (lines : List Bytes) (bs : List (Block j))
      → IsBlock j text_of block_of z n
      → parse_lines z j lines ≡ some bs
      → parse_lines z j (text_of n ∷ lines) ≡ some (block_of n ∷ bs)
  unfolding parse_lines
  parse_lines-cons n lines bs h e = rw (filled (text_of n) h.line.filled) (rw (h.parsed, e) refl)
    where
      filled : (s : Bytes) → 0 < length s → (length s == 0) ≡ false
      filled s h = ground arith

  parse_lines-texts :
      (start count : ℕ)
      → ((i : ℕ) → start ≤ i → i < start + count → IsBlock j text_of block_of z i)
      → parse_lines z j (split (jsonl (texts j text_of block_of start count)) newline)
        ≡ some (blocks j text_of block_of start count)
  unfolding texts blocks
  parse_lines-texts start zero h = unfold split jsonl parse_lines in refl
  parse_lines-texts start (suc count) h =
      let first = h start (omega arith) (omega arith) in
      ap (parse_lines z j)
        (split-jsonl (text_of start) (texts j text_of block_of (start + 1) count) first.line.plain)
      ∙ parse_lines-cons start _ _ first
          (parse_lines-texts (start + 1) count (λ i lo hi. h i (omega arith) (omega arith)))

  -- A frame with consecutive blocks of the chain is read as these blocks.
  pub read_pack-texts :
      (start count : ℕ) (frame : Bytes)
      → ((i : ℕ) → start ≤ i → i < start + count → IsBlock j text_of block_of z i)
      → z.decode frame ≡ some (jsonl (texts j text_of block_of start count))
      → read_pack z j frame ≡ some (blocks j text_of block_of start count)
  unfolding read_pack
  read_pack-texts start count frame h e = rw e (parse_lines-texts start count h)

module _ (j : Json) (text_of : ℕ → Bytes) (block_of : ℕ → Block j) where
  -- The blocks of a range carry its numbers.
  abbrev pub IsNumbered : ℕ → ℕ → Type 0
  IsNumbered start count = (i : ℕ) → start ≤ i → i < start + count → (block_of i).number ≡ i

  keep_head :
      (current start : ℕ) (rest : List (Block j))
      → (block_of start).number ≡ start
      → not_below j current (block_of start ∷ rest) ≡ (
          if leb current start
          then block_of start ∷ not_below j current rest
          else not_below j current rest)
  unfolding not_below
  keep_head current start rest h = rw h refl

  not_below_all :
      (start count current : ℕ)
      → current ≤ start
      → IsNumbered start count
      → not_below j current (blocks j text_of block_of start count)
        ≡ blocks j text_of block_of start count
  unfolding blocks
  not_below_all start zero current h num = unfold not_below in refl
  not_below_all start (suc count) current h num =
      keep_head current start _ (num start (omega arith) (omega arith))
      ∙ (rw (le→leb current start h) (
          ap (λ l. block_of start ∷ l)
            (not_below_all (start + 1) count current (omega arith)
              (λ i lo hi. num i (omega arith) (omega arith)))))

  -- What is left of a range is the part from `current` on.
  not_below-blocks :
      (start count current : ℕ)
      → start ≤ current
      → current ≤ start + count
      → IsNumbered start count
      → not_below j current (blocks j text_of block_of start count)
        ≡ blocks j text_of block_of current (start + count - current)
  unfolding blocks
  not_below-blocks start zero current lo hi num =
      let none_left : start + 0 - current ≡ 0 = omega arith in
      rw none_left (unfold not_below in refl)
  not_below-blocks start (suc count) current lo hi num = elim (Bool-cases (leb current start)) [
    | inl at_start ↦
        let e : start ≡ current = ground arith in
        let size : start + suc count - current ≡ suc count = omega arith in
        rw size (
          not_below_all start (suc count) current (omega arith) num
          ∙ ap (λ k. blocks j text_of block_of k (suc count)) e)
    | inr before ↦
        let up : start + 1 ≤ current = ground arith in
        keep_head current start _ (num start (omega arith) (omega arith))
        ∙ (rw before (
            not_below-blocks (start + 1) count current up (omega arith)
              (λ i lo' hi'. num i (omega arith) (omega arith))
            ∙ ap (blocks j text_of block_of current) (omega arith)))
  ]

  next_block-blocks :
      (start count current : ℕ)
      → start + suc count < u64
      → IsNumbered start (suc count)
      → next_block j current (blocks j text_of block_of start (suc count)) ≡ start + suc count
  unfolding next_block blocks
  next_block-blocks start zero current h num =
      let e = num start (omega arith) (omega arith) in omega arith
  next_block-blocks start (suc count) current h num =
      next_block-blocks (start + 1) count current (omega arith)
        (λ i lo hi. num i (omega arith) (omega arith))
      ∙ omega arith

  -- A pack that holds a range of the chain and reaches past the client's position: the handler gets
  -- the blocks from that position on, and the position moves behind the range.
  pub take_pack-blocks :
      (start count current : ℕ)
      → start ≤ current
      → current < start + count
      → start + count < u64
      → IsNumbered start count
      → take_pack j current (blocks j text_of block_of start count)
        ≡ (blocks j text_of block_of current (start + count - current), start + count)
  unfolding take_pack
  take_pack-blocks start count current lo hi fits num =
      let size : start + count - current ≡ suc (start + count - current - 1) = omega arith in
      rw (not_below-blocks start count current lo (omega arith) num) (
        ap (λ n. (blocks j text_of block_of current (start + count - current), n))
          (ap (λ k. next_block j current (blocks j text_of block_of current k)) size
            ∙ next_block-blocks current (start + count - current - 1) current (omega arith)
                (λ i lo' hi'. num i (omega arith) (omega arith))
            ∙ omega arith))

  pub blocks-append :
      (start m n : ℕ)
      → blocks j text_of block_of start m ++ blocks j text_of block_of (start + m) n
        ≡ blocks j text_of block_of start (m + n)
  unfolding blocks
  blocks-append start zero n =
      let e : start + 0 ≡ start = omega arith in let e' : 0 + n ≡ n = omega arith in rw (e, e') refl
  blocks-append start (suc m) n =
      let e : start + suc m ≡ start + 1 + m = omega arith in
      let e' : suc m + n ≡ suc (m + n) = omega arith in
      rw (e, e') (ap (λ l. block_of start ∷ l) (blocks-append (start + 1) m n))
