-- ===== src/Ingestion/Examples.antt =====
-- Examples for the ingestion loop.
use l1_data_tools.Common.{
  ℕ, ◌≤◌, ◌<◌, ◌≡◌, refl, List, [], ◌∷◌, none, some, ◌>>=◌, arith, Bytes, codes, u64, get_elem?,
  leb, ltb, ◌&&◌, if◌then◌else◌,
}
use l1_data_tools.Hex.{trim_0x, parse_uint16, scan_hex, push_digit}
use l1_data_tools.Storage.Pebble.{pebble_storage, get_block, save_block}
use l1_data_tools.Storage.Pebble.Scan.{IsOwn}
use l1_data_tools.Storage.Memory.{memory, get}
use l1_data_tools.Storage.Sample.{shelf, shelf-IsStorage, full_shelf}
use l1_data_tools.Ingestion.{Codec, Ingest, ingest_block, ingest, parse_block_number, resume_block}
use l1_data_tools.Ingestion.Saves.{get_block-ingest}
use l1_data_tools.Ingestion.Resume.{resume_block-ingest}

-- A block is the text of its number.
abbrev plain : Codec
plain = record { Value = Bytes; number = λ b. b; marshal = λ b. some b }

-- The third block is out of order.
abbrev stream : List Bytes
stream = codes "0x4b1" ∷ codes "0x4b2" ∷ codes "0x4b9" ∷ []

abbrev behind : Ingest shelf
behind = record { store = full_shelf; latest = 1200; current = 1201 }

get_block-ingest_example : shelf.get_block 1202 (ingest shelf plain stream behind).store ≡ (
    if leb 1201 1202 && ltb 1202 (ingest shelf plain stream behind).current
    then get_elem? stream 1 >>= plain.marshal
    else shelf.get_block 1202 full_shelf)
get_block-ingest_example =
    get_block-ingest shelf plain stream behind 1202 shelf-IsStorage (omega arith) (omega arith)

abbrev fresh : Ingest (pebble_storage memory)
fresh = record { store = []; latest = 0; current = 1 }

abbrev two_blocks : List Bytes
two_blocks = codes "0x1" ∷ codes "0x2" ∷ []

nothing_stored : IsOwn memory []
nothing_stored k v e = unfold get in cc e

none_there : (m : ℕ) → 1 ≤ m → m < u64 → get_block memory m [] ≡ none
unfolding get_block get
none_there m lo hi = refl

some_saved : 1 < (ingest (pebble_storage memory) plain two_blocks fresh).current
unfolding ingest ingest_block parse_block_number trim_0x parse_uint16 scan_hex push_digit save_block
some_saved = omega arith

resume_block-ingest_example :
    resume_block
      (pebble_storage memory)
      (ingest (pebble_storage memory) plain two_blocks fresh).store
    ≡ (ingest (pebble_storage memory) plain two_blocks fresh).current
resume_block-ingest_example =
    resume_block-ingest memory plain two_blocks fresh (omega arith) nothing_stored none_there
      some_saved
