-- ===== src/Storage/Batch/RoundTrip.antt =====
-- On evm-ingestion/storage/batch.go: compressing and decompressing a batch.
use l1_data_tools.Common.{
  ℕ, ◌<◌, ◌≡◌, refl, ap, ◌∙◌, false, List, [], ◌∷◌, ◌++◌, append_assoc, append-nil, some, arith,
  Bytes, length, All, ◌==◌,
}
use l1_data_tools.Storage.Batch.{
  Zstd, newline, jsonl, compress_blocks, max_line, drop_cr, emit, scan_lines, decompress_blocks,
}

-- A line as `json.Marshal` writes it: some bytes, no line break, and shorter than the buffer.
abbrev pub Plain : ℕ → Type 0
Plain c = ((c == newline) ≡ false) × ((c == b'\r') ≡ false)

pub record IsLine (block : Bytes) : Type 0 where
  pub filled : 0 < length block
  pub short : length block < max_line
  pub plain : All Plain block

drop_cr_plain : (s : Bytes) → All Plain s → drop_cr s ≡ s
unfolding drop_cr
drop_cr_plain [] h = refl
drop_cr_plain (c ∷ []) h = rw h.0.1
drop_cr_plain (c ∷ d ∷ s) h = ap (λ t. c ∷ t) (drop_cr_plain (d ∷ s) h.1)

scan_lines-append :
    (block line rest : Bytes)
    → All Plain block
    → scan_lines line (block ++ newline ∷ rest) ≡ emit (line ++ block) (scan_lines [] rest)
unfolding scan_lines
scan_lines-append [] line rest h = rw append-nil
scan_lines-append (c ∷ block) line rest h =
    rw (h.0.0, scan_lines)
      (scan_lines-append block (line ++ c ∷ []) rest h.1
        ∙ ap (λ l. emit l (scan_lines [] rest)) (append_assoc line (c ∷ []) block))

emit_line :
    (block : Bytes) (blocks : List Bytes)
    → IsLine block
    → emit block (some blocks) ≡ some (block ∷ blocks)
unfolding emit
emit_line block blocks h = rw (drop_cr_plain block h.plain) (ground (arith, h.filled, h.short))

scan_lines-jsonl :
    (blocks : List Bytes) → All IsLine blocks → scan_lines [] (jsonl blocks) ≡ some blocks
unfolding scan_lines jsonl
scan_lines-jsonl [] h = refl
scan_lines-jsonl (block ∷ blocks) h =
    scan_lines-append block [] (jsonl blocks) h.0.plain
    ∙ ap (emit block) (scan_lines-jsonl blocks h.1)
    ∙ emit_line block blocks h.0

-- Blocks that are lines come back from the compressed batch, all of them and in order.
pub decompress_blocks-compress_blocks :
    (z : Zstd) (blocks : List Bytes) (frame : Bytes)
    → All IsLine blocks
    → compress_blocks z blocks ≡ some frame
    → decompress_blocks z frame ≡ some blocks
unfolding compress_blocks decompress_blocks
decompress_blocks-compress_blocks z blocks frame h e =
    rw (z.decode-encode_stream (jsonl blocks) frame e) (scan_lines-jsonl blocks h)
