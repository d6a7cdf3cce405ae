-- ===== src/Subnet/Index.antt =====
-- indexing-subnet-evm/indexer.go: `indexBlock`, and the statistics of its log line. validate.go builds
-- the same text from the chain's API.
use l1_data_tools.Common.{
  ℕ, ◌+◌, List, [], ◌∷◌, Option, some, ◌>>=◌, Bytes, true, get_elem?, ltb, leb, ◌||◌, ◌==◌,
  if◌then◌else◌,
}
use l1_data_tools.Subnet.Types.{Block, Receipt, Entries}
use l1_data_tools.Subnet.Marshal.{Signers, rpc_marshal_block, marshal_receipt}

-- What subnet-evm answers: the chain and its receipts, the tracer if there is one, and the encoder of
-- the map with the block, the receipts and the traces. `none` is nil or an error.
pub record Chain : Type 1 where
  pub Traces : Type 0
  pub signers : Signers
  pub get_block_by_number : ℕ → Option Block
  pub get_receipts_by_hash : Bytes → Option (List Receipt)
  pub tracer : Option (ℕ → Option Traces)
  pub encode : Entries → List Entries → Traces → Option Bytes

module _ (c : Chain) where
  -- The loop over the receipts from the index `i` on; a receipt without a transaction is a panic.
  unfoldable pub marshal_receipts : Block → List Receipt → ℕ → Option (List Entries)
  marshal_receipts block [] i = some []
  marshal_receipts block (receipt ∷ receipts) i = do
    tx ← get_elem? block.transactions i
    rest ← marshal_receipts block receipts (i + 1)
    some (marshal_receipt c.signers receipt block.header.hash block.header.number i tx ∷ rest)

  -- The text that is stored for a block.
  unfoldable pub block_data : ℕ → Option Bytes
  block_data height = do
    block ← c.get_block_by_number height
    receipts ← c.get_receipts_by_hash block.header.hash
    receipts_rpc ← marshal_receipts block receipts 0
    trace ← c.tracer
    traces ← trace height
    c.encode (rpc_marshal_block c.signers block true true) receipts_rpc traces

-- The statistics: times in milliseconds and sizes in bytes, where the code keeps floats of both.
pub record Stats : Type 0 where
  pub blocks : ℕ
  pub min_ms : ℕ
  pub max_ms : ℕ
  pub total_ms : ℕ
  pub size : ℕ
  pub start : ℕ

-- `updateStats` at the time `now`, in milliseconds; a log line goes out where they are reset.
unfoldable pub update_stats : ℕ → ℕ → ℕ → Stats → Stats
update_stats now size ms s =
    let blocks_ = s.blocks + 1 in
    let updated : Stats = record {
      blocks = blocks_;
      min_ms = (if (s.min_ms == 0) || ltb ms s.min_ms then ms else s.min_ms);
      max_ms = (if ltb s.max_ms ms then ms else s.max_ms);
      total_ms = s.total_ms + ms;
      size = s.size + size;
      start = s.start;
    } in
    if leb 100 blocks_ || leb (s.start + 5000) now
    then record { blocks = 0; min_ms = 0; max_ms = 0; total_ms = 0; size = 0; start = now }
    else updated
