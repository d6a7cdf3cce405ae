-- ===== src/Rpc/Types.antt =====
-- evm-ingestion/rpc/types.go: the types of blocks, receipts and traces with their JSON names, as
-- encoding/json reads them by reflection.
pub mod Values
pub mod Unmarshal
pub mod Typed
pub mod Decoded
pub mod Places
pub mod Strict
pub mod Wire
pub mod RoundTrip
use l1_data_tools.Common.{ℕ, Bool, true, false, List, [], ◌∷◌, Bytes, codes}

pub data StructName : Type 0 where
  transaction block call_trace trace_result receipt log normalized_block : StructName

-- The types of the fields.
pub data GoType : Type 0 where
  string : GoType
  bool : GoType
  raw_message : GoType
  pointer : GoType → GoType
  slice : GoType → GoType
  struct : StructName → GoType

pub record Field : Type 0 where
  pub key : Bytes
  pub type : GoType
  pub omitempty : Bool

abbrev text : Bytes → Field
text key = record { key = key; type = string; omitempty = false }

abbrev optional : Bytes → Field
optional key = record { key = key; type = string; omitempty = true }

abbrev field : Bytes → GoType → Field
field key type = record { key = key; type = type; omitempty = false }

-- `Transaction`
abbrev transaction_fields : List Field
transaction_fields =
    text (codes "hash")
    ∷ text (codes "nonce")
    ∷ text (codes "blockHash")
    ∷ text (codes "blockNumber")
    ∷ text (codes "transactionIndex")
    ∷ text (codes "from")
    ∷ text (codes "to")
    ∷ text (codes "value")
    ∷ text (codes "gas")
    ∷ text (codes "gasPrice")
    ∷ text (codes "input")
    ∷ optional (codes "v")
    ∷ optional (codes "r")
    ∷ optional (codes "s")
    ∷ optional (codes "yParity")
    ∷ optional (codes "type")
    ∷ optional (codes "typeHex")
    ∷ optional (codes "chainId")
    ∷ optional (codes "maxFeePerGas")
    ∷ optional (codes "maxPriorityFeePerGas")
    ∷ record { key = codes "accessList"; type = raw_message; omitempty = true }
    ∷ []

-- `Block`
abbrev block_fields : List Field
block_fields =
    text (codes "number")
    ∷ text (codes "hash")
    ∷ text (codes "parentHash")
    ∷ text (codes "timestamp")
    ∷ text (codes "miner")
    ∷ text (codes "difficulty")
    ∷ text (codes "totalDifficulty")
    ∷ text (codes "size")
    ∷ text (codes "gasLimit")
    ∷ text (codes "gasUsed")
    ∷ optional (codes "baseFeePerGas")
    ∷ optional (codes "blockGasCost")
    ∷ field (codes "transactions") (slice (struct transaction))
    ∷ text (codes "stateRoot")
    ∷ text (codes "transactionsRoot")
    ∷ text (codes "receiptsRoot")
    ∷ optional (codes "extraData")
    ∷ optional (codes "blockExtraData")
    ∷ optional (codes "extDataHash")
    ∷ optional (codes "extDataGasUsed")
    ∷ text (codes "logsBloom")
    ∷ text (codes "mixHash")
    ∷ text (codes "nonce")
    ∷ text (codes "sha3Uncles")
    ∷ field (codes "uncles") (slice string)
    ∷ optional (codes "blobGasUsed")
    ∷ optional (codes "excessBlobGas")
    ∷ optional (codes "parentBeaconBlockRoot")
    ∷ optional (codes "minDelayExcess")
    ∷ optional (codes "timestampMilliseconds")
    ∷ []

-- `CallTrace`
abbrev call_trace_fields : List Field
call_trace_fields =
    text (codes "from")
    ∷ text (codes "gas")
    ∷ text (codes "gasUsed")
    ∷ text (codes "to")
    ∷ text (codes "input")
    ∷ optional (codes "output")
    ∷ optional (codes "error")
    ∷ optional (codes "revertReason")
    ∷ record { key = codes "calls"; type = slice (struct call_trace); omitempty = true }
    ∷ optional (codes "value")
    ∷ text (codes "type")
    ∷ []

-- `TraceResultOptional`
abbrev trace_result_fields : List Field
trace_result_fields =
    text (codes "txHash") ∷ field (codes "result") (pointer (struct call_trace)) ∷ []

-- `Receipt`
abbrev receipt_fields : List Field
receipt_fields =
    text (codes "blockHash")
    ∷ text (codes "blockNumber")
    ∷ field (codes "contractAddress") (pointer string)
    ∷ text (codes "cumulativeGasUsed")
    ∷ text (codes "effectiveGasPrice")
    ∷ text (codes "from")
    ∷ text (codes "gasUsed")
    ∷ field (codes "logs") (slice (struct log))
    ∷ text (codes "logsBloom")
    ∷ text (codes "status")
    ∷ text (codes "to")
    ∷ text (codes "transactionHash")
    ∷ text (codes "transactionIndex")
    ∷ text (codes "type")
    ∷ []

-- `Log`
abbrev log_fields : List Field
log_fields =
    text (codes "address")
    ∷ field (codes "topics") (slice string)
    ∷ text (codes "data")
    ∷ text (codes "blockNumber")
    ∷ text (codes "transactionHash")
    ∷ text (codes "transactionIndex")
    ∷ text (codes "blockHash")
    ∷ text (codes "logIndex")
    ∷ field (codes "removed") bool
    ∷ []

-- `NormalizedBlock`
abbrev normalized_block_fields : List Field
normalized_block_fields =
    field (codes "block") (struct block)
    ∷ field (codes "traces") (slice (struct trace_result))
    ∷ field (codes "receipts") (slice (struct receipt))
    ∷ []

-- Shut for proofs, which go by the struct's name.
unfoldable pub fields : StructName → List Field
fields transaction = transaction_fields
fields block = block_fields
fields call_trace = call_trace_fields
fields trace_result = trace_result_fields
fields receipt = receipt_fields
fields log = log_fields
fields normalized_block = normalized_block_fields
