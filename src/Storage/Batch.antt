-- ===== src/Storage/Batch.antt =====
-- evm-ingestion/storage/batch.go: which batch holds a block, and the JSONL+zstd form of a batch.
pub mod Bounds
pub mod RoundTrip
use l1_data_tools.Common.{
  ℕ, ◌+◌, ◌-◌, ◌*◌, ◌/◌, ◌≡◌, ◌≢◌, Bool, true, false, List, [], ◌∷◌, ◌++◌, Option, none, some,
  ◌>>=◌, Bytes, add64, sub64, mul64, length, ltb, leb, ◌==◌, if◌then◌else◌,
}

-- consts.StorageBatchSize
abbrev pub batch_size : ℕ
batch_size = 100

abbrev pub newline : ℕ
newline = b'\n'

unfoldable pub batch_start : ℕ → ℕ
batch_start block_num =
    if block_num == 0 then 1 else add64 (mul64 (sub64 block_num 1 / batch_size) batch_size) 1

unfoldable pub batch_end : ℕ → ℕ
batch_end start = sub64 (add64 start batch_size) 1

-- The zstd library, as the program uses it. `encode_stream` is a writer that is closed at the end
-- (`none`: an error of the writer), `encode_all` is `EncodeAll`, `decode` reads a whole frame.
pub record Zstd : Type 0 where
  pub encode_stream : Bytes → Option Bytes
  pub encode_all : Bytes → Bytes
  pub decode : Bytes → Option Bytes
  pub decode-encode_stream :
      (text frame : Bytes) → encode_stream text ≡ some frame → decode frame ≡ some text
  pub decode-encode_all : (text : Bytes) → decode (encode_all text) ≡ some text
  -- The frame of a text that is not empty begins with the format's magic number.
  pub encode_stream-ne-nil :
      (text frame : Bytes) → text ≢ [] → encode_stream text ≡ some frame → frame ≢ []

-- What the two writes in each round of the loop leave in the writer.
unfoldable pub jsonl : List Bytes → Bytes
jsonl [] = []
jsonl (block ∷ blocks) = block ++ newline ∷ jsonl blocks

unfoldable pub compress_blocks : Zstd → List Bytes → Option Bytes
compress_blocks z blocks = z.encode_stream (jsonl blocks)

-- The buffer of the scanner, 10 MB: a line that fills it is an error.
abbrev pub max_line : ℕ
max_line = 10 * 1024 * 1024

-- `bufio.ScanLines`: a carriage return before the line's end is dropped.
pub drop_cr : Bytes → Bytes
drop_cr [] = []
drop_cr (c ∷ []) = if c == b'\r' then [] else c ∷ []
drop_cr (c ∷ d ∷ s) = c ∷ drop_cr (d ∷ s)

-- One token of the scanner; an empty line is skipped.
pub emit : Bytes → Option (List Bytes) → Option (List Bytes)
emit line rest =
    if ltb (length line) max_line
    then (do
      blocks ← rest
      some (if length (drop_cr line) == 0 then blocks else drop_cr line ∷ blocks))
    else none

-- The loop of the scanner; `line` is what has been read since the last newline. Text after the
-- last newline is a line too.
pub scan_lines : Bytes → Bytes → Option (List Bytes)
scan_lines line [] = if length line == 0 then some [] else emit line (some [])
scan_lines line (c ∷ s) = elim (c == newline) [
  | true ↦ emit line (scan_lines [] s)
  | false ↦ scan_lines (line ++ c ∷ []) s
]

unfoldable pub decompress_blocks : Zstd → Bytes → Option (List Bytes)
unfolding scan_lines emit
decompress_blocks z frame = do text ← z.decode frame; scan_lines [] text
