-- ===== src/Storage/Examples.antt =====
-- The theorems on the storage at concrete inputs.
use l1_data_tools.Common.{
  ℕ, ◌≤◌, ◌<◌, ◌≡◌, refl, true, false, List, [], ◌∷◌, none, some, ◌==◌, if◌then◌else◌, arith, Bytes,
  u64, codes, compare_bytes,
}
use mathlib.Core.Option.{some_inj}
use l1_data_tools.Storage.Keys.{pad, block_key}
use l1_data_tools.Storage.Batch.{batch_start, batch_end, jsonl, compress_blocks, decompress_blocks}
use l1_data_tools.Storage.Batch.RoundTrip.{IsLine, decompress_blocks-compress_blocks}
use l1_data_tools.Storage.Interface.{IsStorage}
use l1_data_tools.Storage.Memory.{memory, get}
use l1_data_tools.Storage.Pebble.{pebble_storage, get_block, first_block, latest_block, save_block}
use l1_data_tools.Storage.Pebble.Laws.{pebble_storage-IsStorage}
use l1_data_tools.Storage.Pebble.Scan.{
  IsOwn, save_block-IsOwn, first_block_least, latest_block_greatest,
}
use l1_data_tools.Storage.Compactor.Ticker.{run, tick, stop}
use l1_data_tools.Storage.Compactor.{
  compact_all, compact_one_batch, compact_from, compact_batch, save_compacted, delete_blocks,
  read_blocks,
}
use l1_data_tools.Storage.Compactor.Runs.{HasLines}
use l1_data_tools.Storage.Compactor.ReadBack.{read_back}
use l1_data_tools.Storage.Compactor.Reads.{read_back-compact_one_batch}
use l1_data_tools.Storage.Compactor.Interleaved.{Reach, HasRoom, update, Reach-read_back}
use l1_data_tools.Storage.Compactor.Tip.{
  Compacted, compact_one_batch_keeps_tip, compact_one_batch-true,
}
use l1_data_tools.Storage.Sample.{copy, Shelf, shelf, shelf-IsStorage, full_shelf}

block_key_text : block_key 42 ≡ codes "block:00000000000000000042"
unfolding block_key pad
block_key_text = refl

abbrev two_lines : List Bytes
two_lines = codes "{}" ∷ codes "[1]" ∷ []

decompress_blocks-compress_blocks_example :
    decompress_blocks copy (codes "{}\n[1]\n") ≡ some two_lines
unfolding compress_blocks jsonl
decompress_blocks-compress_blocks_example =
    decompress_blocks-compress_blocks copy two_lines (codes "{}\n[1]\n")
      ((
        record { filled = omega arith; short = omega arith; plain = ground arith },
        (record { filled = omega arith; short = omega arith; plain = ground arith }, tt),
      ))
      refl

pebble_storage-IsStorage_example : IsStorage (pebble_storage memory)
pebble_storage-IsStorage_example = pebble_storage-IsStorage memory

abbrev three_blocks : memory.Db
three_blocks =
    (block_key 9, codes "{}") ∷ (block_key 11, codes "{}") ∷ (block_key 10, codes "{}") ∷ []

three_blocks-IsOwn : IsOwn memory three_blocks
unfolding save_block
three_blocks-IsOwn =
    save_block-IsOwn memory 9 (codes "{}") _ three_blocks (omega arith)
      (save_block-IsOwn memory 11 (codes "{}") _ _ (omega arith)
        (save_block-IsOwn memory 10 (codes "{}") [] _ (omega arith) nothing refl) refl)
      refl
  where
    nothing : IsOwn memory []
    nothing k v e = unfold get in cc e

ten_stored : get_block memory 10 three_blocks ≡ some (codes "{}")
unfolding get_block get block_key pad compare_bytes
ten_stored = refl

first_block_least_example :
    (n : ℕ) × (first_block memory three_blocks ≡ some n)
    × (n ≤ 10)
    × (e : Bytes) × (get_block memory n three_blocks ≡ some e)
first_block_least_example =
    first_block_least memory three_blocks 10 (codes "{}") three_blocks-IsOwn (omega arith)
      ten_stored

latest_block_greatest_example :
    (n : ℕ) × (n < u64)
    × (latest_block memory three_blocks ≡ some n)
    × (10 ≤ n)
    × (e : Bytes) × (get_block memory n three_blocks ≡ some e)
latest_block_greatest_example =
    latest_block_greatest memory three_blocks 10 (codes "{}") three_blocks-IsOwn (omega arith)
      ten_stored

full_shelf-HasLines : HasLines shelf full_shelf
full_shelf-HasLines n d hn e = record {
  filled = ground arith;
  short = ground arith;
  plain = ground arith;
}

read_back-compact_one_batch_example :
    read_back copy shelf 42 (compact_one_batch copy shelf full_shelf).1
    ≡ read_back copy shelf 42 full_shelf
read_back-compact_one_batch_example =
    read_back-compact_one_batch copy shelf shelf-IsStorage 42 full_shelf full_shelf-HasLines
      (λ first e. ground arith) (omega arith) (omega arith)

compact_one_batch_keeps_tip_example :
    shelf.get_block 201 (compact_one_batch copy shelf full_shelf).1 ≡ shelf.get_block 201 full_shelf
compact_one_batch_keeps_tip_example =
    compact_one_batch_keeps_tip copy shelf shelf-IsStorage 201 1200 full_shelf
      (λ first e. ground arith) refl (omega arith) (omega arith)

compact_one_batch_runs : (compact_one_batch copy shelf full_shelf).0 ≡ true
unfolding compact_one_batch compact_from compact_batch save_compacted delete_blocks read_blocks
    compress_blocks jsonl batch_start batch_end
compact_one_batch_runs = refl

compact_one_batch-true_example :
    Compacted copy shelf shelf-IsStorage full_shelf (compact_one_batch copy shelf full_shelf).1
compact_one_batch-true_example =
    compact_one_batch-true copy shelf shelf-IsStorage full_shelf (λ first e. ground arith)
      compact_one_batch_runs

abbrev no_blocks : Shelf
no_blocks = record { block = λ n. none; batch = λ n. none; meta = 0; first = 7; latest = 7 }

abbrev with_seven : Shelf
with_seven = record no_blocks { block = λ m. if 7 == m then some (codes "{}") else none }

braces-IsLine : IsLine (codes "{}")
braces-IsLine = record { filled = omega arith; short = omega arith; plain = ground arith }

seven_room : HasRoom copy shelf with_seven
seven_room first e = omega (arith, some_inj.0 e)

seven_Reach :
    Reach copy shelf
      (update copy shelf 7 (codes "{}") (λ n. none))
      (compact_one_batch copy shelf with_seven).1
seven_Reach =
    Reach.compacted _ with_seven _
      (Reach.block_saved _ 7 (codes "{}") no_blocks with_seven (Reach.started no_blocks (λ n. refl))
        (omega arith) braces-IsLine refl)
      seven_room refl

Reach-read_back_example :
    read_back copy shelf 7 (compact_one_batch copy shelf with_seven).1 ≡ some (codes "{}")
Reach-read_back_example =
    Reach-read_back copy shelf (update copy shelf 7 (codes "{}") (λ n. none))
      (compact_one_batch copy shelf with_seven).1 7 (codes "{}") shelf-IsStorage seven_Reach
      (omega arith) (omega arith) refl

-- A tick with too few blocks changes nothing, and what comes after Stop is not looked at.
run_stopped :
    run copy shelf (tick (λ round. false) 1 ∷ stop ∷ tick (λ round. true) 0 ∷ []) with_seven
    ≡ some (true, with_seven)
unfolding run compact_all compact_one_batch compact_from
run_stopped = refl
