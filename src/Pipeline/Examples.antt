-- ===== src/Pipeline/Examples.antt =====
-- The whole program at a concrete input: a chain of three blocks.
use l1_data_tools.Common.{
  ℕ, ◌+◌, ◌<◌, refl, [], ◌∷◌, none, some, arith, Bytes, u64, ◌==◌, if◌then◌else◌,
}
use l1_data_tools.Hex.{trim_0x, parse_uint16, scan_hex, push_digit}
use l1_data_tools.Api.{update_latest_block}
use l1_data_tools.Storage.Sample.{copy, shelf, shelf-IsStorage, Shelf}
use l1_data_tools.Ingestion.{Codec, ingest_block, parse_block_number}
use l1_data_tools.Client.Sample.{digits, digit, digit_block, digit_IsBlock}
use l1_data_tools.Client.Reconnect.{InOrder}
use l1_data_tools.Pipeline.{idle, Config, Step, saved, here, next}
use l1_data_tools.Storage.Sample.{full_shelf}
use l1_data_tools.Storage.Compactor.{compact_one_batch}
use l1_data_tools.Pipeline.{Steps, with_store}
use l1_data_tools.Pipeline.Compaction.{compact_one_batch-Steps}
use l1_data_tools.Pipeline.Stream.{narrow, stream-Program}

abbrev plain : Codec
plain = record { Value = Bytes; number = λ b. b; marshal = λ b. some b }

abbrev nothing : Shelf
nothing = record { block = λ n. none; batch = λ n. none; meta = 0; first = 1; latest = 0 }

abbrev with_block : ℕ → Shelf → Shelf
with_block n s = record s { block = λ m. if n == m then some (digit n) else s.block m }

abbrev announced : ℕ → ℕ
announced ℕ.zero = 0
announced (ℕ.suc n) = update_latest_block [] (ℕ.suc n) (announced n)

abbrev at : ℕ → Shelf → Config shelf
at n s = record {
  ingest = record { store = s; latest = announced n; current = n + 1 };
  phase = idle;
}

abbrev one_block : Shelf
one_block = with_block 1 nothing

abbrev two_blocks : Shelf
two_blocks = with_block 2 one_block

saves_first : Step copy shelf plain digit 3 (at 0 nothing) (at 1 one_block)
unfolding ingest_block parse_block_number trim_0x parse_uint16 scan_hex push_digit
saves_first = saved (digit 1) (at 1 one_block).ingest (omega arith) refl refl

saves_second : Step copy shelf plain digit 3 (at 1 one_block) (at 2 two_blocks)
unfolding ingest_block parse_block_number trim_0x parse_uint16 scan_hex push_digit
saves_second = saved (digit 2) (at 2 two_blocks).ingest (omega arith) refl refl

fits : 3 + 1400 < u64
fits = omega arith

-- A connection that is refused, and one with two rounds, between which a block is saved.
stream-Program_example :
    InOrder copy shelf digits digit digit_block 3
      (narrow 3 fits)
      digit_IsBlock
      (none ∷ some (one_block ∷ two_blocks ∷ []) ∷ [])
      1
      1
stream-Program_example =
    stream-Program copy shelf shelf-IsStorage plain digits digit digit_block 3 fits digit_IsBlock
      (at 0 nothing) (at 1 one_block) (none ∷ some (one_block ∷ two_blocks ∷ []) ∷ []) 1
      (record { no_block = λ n. refl; no_batch = λ a. refl; current = refl; phase = refl })
      (next (at 0 nothing) (at 1 one_block) here saves_first)
      (
        at 1 one_block,
        here,
        (
          at 2 two_blocks,
          (
            at 1 one_block,
            here,
            refl,
            (
              at 2 two_blocks,
              next (at 1 one_block) (at 2 two_blocks) here saves_second,
              refl,
              here,
            ),
          ),
          tt,
        ),
      )
      (omega arith) (omega arith)

-- Enough blocks for one compaction.
abbrev long : Config shelf
long = record {
  ingest = record { store = full_shelf; latest = 1200; current = 1201 };
  phase = idle;
}

compact_one_batch-Steps_example :
    Steps copy shelf plain digit 2000 long
      (with_store shelf (compact_one_batch copy shelf full_shelf).1 idle long)
compact_one_batch-Steps_example = compact_one_batch-Steps copy shelf plain digit 2000 long refl
