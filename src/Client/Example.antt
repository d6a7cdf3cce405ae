-- ===== src/Client/Example.antt =====
-- evm-ingestion-client/example/main.go: the example client, with its own reading of the stream.
pub mod Steady
pub mod Order
use l1_data_tools.Common.{
  ℕ, ◌+◌, ◌≡◌, Bool, true, false, List, [], ◌∷◌, Option, none, some, ◌>>=◌, Bytes, add64, sub64,
  length, ltb, ◌==◌, if◌then◌else◌,
}
use l1_data_tools.Storage.Batch.{Zstd, newline}
use l1_data_tools.Storage.Keys.{split}
use l1_data_tools.Client.{Json, Block, parse_line}

-- `lastBlock`, `totalBlocks` and `totalTxs`.
pub record Totals : Type 0 where
  pub last_block : ℕ
  pub total_blocks : ℕ
  pub total_txs : ℕ

-- How far a connection is: it goes on at a position, it ended with an error, or the handler has ended the
-- program.
pub data Progress : Type 0 where
  going : ℕ → Totals → Progress
  broken : Totals → Progress
  exited : Totals → Progress

module _ (z : Zstd) (j : Json) (transactions : j.Value → ℕ) where
  -- The handler; `none` is `log.Fatalf`.
  unfoldable pub on_block : Block j → Totals → Option Totals
  on_block block s =
      if block.number == add64 s.last_block 1
      then some (record {
        last_block = block.number;
        total_blocks = add64 s.total_blocks 1;
        total_txs = add64 s.total_txs (transactions block.content);
      })
      else none

  -- One block of a frame: below the position it is skipped, otherwise the handler gets it.
  abbrev pub at_block : Block j → ℕ → Totals → (ℕ → Totals → Progress) → Progress
  at_block block current s go_on = elim (ltb block.number current) [
    | true ↦ go_on current s
    | false ↦ elim (on_block block s) [
      | none ↦ exited s
      | some s' ↦ go_on (add64 block.number 1) s'
    ]
  ]

  -- The loop over the lines of a frame.
  unfoldable pub each_line : List Bytes → ℕ → Totals → Progress
  each_line [] current s = going current s
  each_line (line ∷ lines) current s = elim (length line == 0) [
    | true ↦ each_line lines current s
    | false ↦ elim (parse_line z j line) [
      | none ↦ broken s
      | some block ↦ at_block block current s (each_line lines)
    ]
  ]

  -- `streamBlocks`, on a connection that brings these frames and then an error.
  unfoldable pub each_frame : List Bytes → ℕ → Totals → Progress
  unfolding each_line
  each_frame [] current s = broken s
  each_frame (frame ∷ frames) current s = elim (z.decode frame) [
    | none ↦ broken s
    | some text ↦ elim (each_line (split text newline) current s) [
      | going next s' ↦ each_frame frames next s'
      | broken s' ↦ broken s'
      | exited s' ↦ exited s'
    ]
  ]

  -- The loop of reconnections: what each connection brings, if it asks for the blocks from a number on;
  -- `none` there: it is refused. The result is `none` where the program has ended.
  unfoldable pub reconnect : List (ℕ → Option (List Bytes)) → Totals → Option Totals
  unfolding each_frame
  reconnect [] s = some s
  reconnect (dial ∷ dials) s = elim (dial (add64 s.last_block 1)) [
    | none ↦ reconnect dials s
    | some frames ↦ elim (each_frame frames (add64 s.last_block 1) s) [
      | going next s' ↦ reconnect dials s'
      | broken s' ↦ reconnect dials s'
      | exited s' ↦ none
    ]
  ]

  unfoldable pub run_example : ℕ → List (ℕ → Option (List Bytes)) → Option Totals
  unfolding reconnect
  run_example from dials =
      reconnect dials (record { last_block = sub64 from 1; total_blocks = 0; total_txs = 0 })
