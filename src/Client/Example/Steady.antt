-- ===== src/Client/Example/Steady.antt =====
-- On evm-ingestion-client/example/main.go with the server of evm-ingestion/api/server.go: the order that
-- the example demands of the blocks, and its counts.
use l1_data_tools.Common.{
  ℕ, zero, suc, ◌+◌, ◌≤◌, ◌<◌, ◌≡◌, refl, sym, ap, ◌∙◌, true, false, List, [], ◌∷◌, some, ◌>>=◌,
  arith, Bytes, u64, add64, length, ltb, leb, ◌==◌, Bool-cases, inl, inr, >>=-eq-some, subst,
}
use mathlib.Core.Option.{some_inj}
use mathlib.Core.Path.{fun_ext}
use l1_data_tools.Storage.Batch.{Zstd}
use l1_data_tools.Client.{Json, Block, parse_line, parse_lines, not_below}
use l1_data_tools.Client.Pack.{blocks, IsNumbered}
use l1_data_tools.Client.Example.{Totals, Progress, going, at_block, on_block, each_line}

module _ (z : Zstd) (j : Json) (transactions : j.Value → ℕ) where
  -- The loop over blocks that have been parsed.
  pub each_block : List (Block j) → ℕ → Totals → Progress
  each_block [] current s = going current s
  each_block (block ∷ rest) current s = at_block z j transactions block current s (each_block rest)

  pub each_line-parse :
      (lines : List Bytes) (bs : List (Block j)) (current : ℕ) (s : Totals)
      → parse_lines z j lines ≡ some bs
      → each_line z j transactions lines current s ≡ each_block bs current s
  unfolding each_line each_block parse_lines
  each_line-parse [] bs current s e = ap (λ l. each_block l current s) (some_inj.0 e)
  each_line-parse (line ∷ lines) bs current s e = elim (Bool-cases (length line == 0)) [
    | inl empty ↦
        rw (empty, each_line) (each_line-parse lines bs current s (sym (rw empty refl) ∙ e))
    | inr filled ↦
        let (b, parsed, e1) =
          >>=-eq-some (parse_line z j line)
            (λ block. parse_lines z j lines >>= λ rest. some (block ∷ rest))
            (sym (rw filled refl) ∙ e) in
        let (rest, others, whole) = >>=-eq-some (parse_lines z j lines) _ e1 in
        rw (filled, each_line)
          (rw (parsed, each_line)
            (ap (at_block z j transactions b current s)
                (fun_ext λ n. fun_ext λ s'. each_line-parse lines rest n s' others)
              ∙ ap (λ l. each_block l current s) (some_inj.0 whole)))
  ]

  -- The counts of a client that started at block `from` are those of the blocks before `next`.
  pub record Counts (from next : ℕ) (s : Totals) : Type 0 where
    pub last : s.last_block + 1 ≡ next
    pub total : s.total_blocks + from ≡ next
    pub positive : 1 ≤ from

  -- The next block is accepted and counted.
  on_block-Counts :
      (from n : ℕ) (b : Block j) (s : Totals)
      → n + 1 < u64
      → Counts from n s
      → b.number ≡ n
      → (s' : Totals) × (on_block z j transactions b s ≡ some s') × Counts from (n + 1) s'
  unfolding on_block
  on_block-Counts from n b s fits counts e =
      let next : Totals = record {
        last_block = b.number;
        total_blocks = add64 s.total_blocks 1;
        total_txs = add64 s.total_txs (transactions b.content);
      } in
      let in_order : (b.number == add64 s.last_block 1) ≡ true = ground (arith, counts.last, e) in
      (
        next,
        rw in_order refl,
        record {
          last = ap (λ k. k + 1) e;
          total = omega (arith, counts.total, counts.positive);
          positive = counts.positive;
        },
      )

  module _ (b : Block j) (current : ℕ) (s : Totals) (go_on : ℕ → Totals → Progress) where
    at_block-skipped :
        ltb b.number current ≡ true → at_block z j transactions b current s go_on ≡ go_on current s
    at_block-skipped e = rw (e, at_block) refl

    at_block-accepted :
        (s' : Totals)
        → ltb b.number current ≡ false
        → on_block z j transactions b s ≡ some s'
        → at_block z j transactions b current s go_on ≡ go_on (add64 b.number 1) s'
    at_block-accepted s' e e' = rw (e, at_block) (rw (e', at_block) refl)

  module _ (text_of : ℕ → Bytes) (block_of : ℕ → Block j) where
    -- Where the blocks that are not below a position are the next ones of the chain, all of them are
    -- accepted.
    pub each_block-Counts :
        (from low current : ℕ) (pack : List (Block j)) (count : ℕ) (s : Totals)
        → low ≤ current
        → not_below j low pack ≡ blocks j text_of block_of current count
        → IsNumbered j text_of block_of current count
        → current + count < u64
        → Counts from current s
        → (s' : Totals) × (each_block pack current s ≡ going (current + count) s')
          × Counts from (current + count) s'
    unfolding each_block not_below blocks
    each_block-Counts from low current [] zero s le e num fits counts =
        (s, ap (λ n. going n s) (omega arith), subst (λ n. Counts from n s) (omega arith) counts)
    each_block-Counts from low current [] (suc count) s le e num fits counts = cc
    each_block-Counts from low current (b ∷ pack) zero s le e num fits counts =
        elim (Bool-cases (leb low b.number)) [
          | inl taken ↦
              let impossible : b ∷ not_below j low pack ≡ [] = sym (rw taken refl) ∙ e in
              cc impossible
          | inr left ↦
              let skipped : ltb b.number current ≡ true = ground arith in
              let (s', goes, counts') =
                each_block-Counts from low current pack zero s le (sym (rw left refl) ∙ e) num fits
                  counts in
              (s', at_block-skipped b current s (each_block pack) skipped ∙ goes, counts')
        ]
    each_block-Counts from low current (b ∷ pack) (suc count) s le e num fits counts =
        elim (Bool-cases (leb low b.number)) [
          | inl taken ↦
              let whole : b ∷ not_below j low pack
                  ≡ block_of current ∷ blocks j text_of block_of (current + 1) count =
                sym (rw taken refl) ∙ e in
              let first : b ≡ block_of current = cc whole in
              let others : not_below j low pack ≡ blocks j text_of block_of (current + 1) count =
                cc whole in
              let number : b.number ≡ current =
                ap (λ (x : Block j). x.number) first ∙ num current (omega arith) (omega arith) in
              let not_skipped : ltb b.number current ≡ false = ground arith in
              let (s', accepted, counts') =
                on_block-Counts from current b s (omega arith) counts number in
              let (s'', goes, counts'') =
                each_block-Counts from low (current + 1) pack count s' (omega arith) others
                  (λ i lo hi. num i (omega arith) (omega arith)) (omega arith) counts' in
              let behind : add64 b.number 1 ≡ current + 1 = omega arith in
              (
                s'',
                at_block-accepted b current s (each_block pack) s' not_skipped accepted
                    ∙ ap (λ n. each_block pack n s') behind
                    ∙ goes
                    ∙ ap (λ n. going n s'') (omega arith),
                subst (λ n. Counts from n s'') (omega arith) counts'',
              )
          | inr left ↦
              let skipped : ltb b.number current ≡ true = ground arith in
              let (s', goes, counts') =
                each_block-Counts from low current pack (suc count) s le (sym (rw left refl) ∙ e)
                  num fits counts in
              (s', at_block-skipped b current s (each_block pack) skipped ∙ goes, counts')
        ]
