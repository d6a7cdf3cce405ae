-- ===== src/Ingestion.antt =====
-- evm-ingestion/main.go: where the loop resumes, the saving of a stream of blocks, and the
-- figures of its log line.
pub mod Saves
pub mod Resume
pub mod Duration
pub mod Examples
use l1_data_tools.Common.{
  ℕ, ◌+◌, ◌-◌, ◌*◌, ◌/◌, ◌%◌, Bool, true, false, List, [], ◌∷◌, Option, none, some, ◌>>=◌, Bytes,
  add64, ltb, leb, ◌==◌, if◌then◌else◌,
}
use l1_data_tools.Hex.{trim_0x, parse_uint16}
use l1_data_tools.Storage.Interface.{Storage}
use l1_data_tools.Api.{update_latest_block}

unfoldable pub parse_block_number : Bytes → Option ℕ
parse_block_number hex_num = parse_uint16 (trim_0x hex_num)

-- `rpc.NormalizedBlock`: the text of its field `Block.Number`, and `json.Marshal`.
pub record Codec : Type 1 where
  pub Value : Type 0
  pub number : Value → Bytes
  pub marshal : Value → Option Bytes

module _ (st : Storage) where
  -- Individual blocks, else batches, else meta, else block 1.
  unfoldable pub resume_block : st.State → ℕ
  resume_block s = elim (st.latest_block s) [
    | some latest ↦ add64 latest 1
    | none ↦ elim (st.latest_batch s) [
      | some latest_batch ↦ add64 latest_batch 1
      | none ↦ (if ltb 0 (st.get_meta s) then add64 (st.get_meta s) 1 else 1)
    ]
  ]

  -- `store`, the number that the server announces, and `currentBlock`.
  pub record Ingest : Type 0 where
    pub store : st.State
    pub latest : ℕ
    pub current : ℕ

module _ (st : Storage) (c : Codec) where
  -- The body of the loop over `blocksCh`; `none` is a `break`. No other thread calls
  -- `UpdateLatestBlock`.
  unfoldable pub ingest_block : c.Value → Ingest st → Option (Ingest st)
  ingest_block block s = do
    block_num ← parse_block_number (c.number block)
    expected ← (if block_num == s.current then some block_num else none)
    data_ ← c.marshal block
    store ← st.save_block expected data_ s.store
    some (record {
      store = store;
      latest = update_latest_block [] expected s.latest;
      current = add64 s.current 1;
    })

  -- The stream ends with its last block, or at the first break.
  unfoldable pub ingest : List c.Value → Ingest st → Ingest st
  ingest [] s = s
  ingest (block ∷ blocks) s = elim (ingest_block block s) [ none ↦ s | some t ↦ ingest blocks t ]

  -- `runIngestion`: each round resumes from the store and reads what the fetcher streams from there.
  unfoldable pub run_ingestion : List (ℕ → List c.Value) → st.State → ℕ → Ingest st
  run_ingestion [] store latest = record {
    store = store;
    latest = latest;
    current = resume_block st store;
  }
  run_ingestion (stream ∷ streams) store latest =
      let current = resume_block st store in
      let t =
        ingest (stream current) (record { store = store; latest = latest; current = current }) in
      run_ingestion streams t.store t.latest

-- `blocksRemaining`, for numbers below 2^63, where int64 does not overflow.
unfoldable pub blocks_remaining : ℕ → ℕ → ℕ
blocks_remaining latest current = latest + 1 - current

-- `time.Duration` in nanoseconds.
abbrev pub second : ℕ
second = 1000000000

abbrev pub minute : ℕ
minute = 60000000000

abbrev pub hour : ℕ
hour = 3600000000000

-- `Duration.Round` of one that is not negative: half a unit rounds up.
abbrev pub round : ℕ → ℕ → ℕ
round d unit = (d + unit / 2) / unit * unit

pub data Shown : Type 0 where
  seconds : ℕ → Shown
  days : ℕ → ℕ → ℕ → Shown
  hours : ℕ → ℕ → Shown
  minutes : ℕ → Shown

-- `formatDuration`: the numbers that it prints. Below a minute it prints the rounded duration itself.
unfoldable pub format_duration : ℕ → Shown
format_duration d =
    let d1 = round d minute in
    let days_ = d1 / (24 * hour) in
    let d2 = d1 - days_ * (24 * hour) in
    let hours_ = d2 / hour in
    let d3 = d2 - hours_ * hour in
    let minutes_ = d3 / minute in
    if ltb d minute
    then seconds (round d second)
    else if ltb 0 days_
    then days days_ hours_ minutes_
    else if ltb 0 hours_
    then hours hours_ minutes_
    else minutes minutes_
