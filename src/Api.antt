-- ===== src/Api.antt =====
-- evm-ingestion/api/server.go: the latest block that the server knows, and the stream of frames to
-- one client.
pub mod Latest
use l1_data_tools.Common.{
  ℕ, ◌+◌, ◌≡◌, Bool, true, false, ◌&&◌, List, [], ◌∷◌, ◌++◌, Option, none, some, Bytes, add64,
  length, ltb, leb, ◌==◌, if◌then◌else◌,
}
use l1_data_tools.Storage.Keys.{parse_uint}
use l1_data_tools.Storage.Batch.{batch_size, batch_start, newline, Zstd}
use l1_data_tools.Storage.Interface.{Storage}

-- `UpdateLatestBlock`. Between the load and the swap another thread may store a larger number:
-- `others` are the numbers that the rounds of this loop find at the swap, which succeeds where that
-- is still the number that was loaded.
pub update_latest_block : List ℕ → ℕ → ℕ → ℕ
update_latest_block [] block_num latest = if leb block_num latest then latest else block_num
update_latest_block (other ∷ others) block_num latest =
    let retry = update_latest_block others block_num other in
    if leb block_num latest then latest else if other == latest then block_num else retry

-- The parameter `from` of `handleWS`: missing is 1, and so is 0; `none` is the status 400.
unfoldable pub from_block : Bytes → Option ℕ
from_block [] = some 1
from_block (c ∷ s) = elim (parse_uint (c ∷ s)) [
  | none ↦ none
  | some n ↦ some (if n == 0 then 1 else n)
]

-- One round of `streamBlocks`: a frame goes out and the position moves, or the server waits.
pub data Round : Type 0 where
  frame : Bytes → ℕ → Round
  wait : Round

module _ (z : Zstd) (st : Storage) where
  unfoldable pub send_batch : ℕ → Option Bytes → Round
  send_batch current none = wait
  send_batch current (some batch) =
      if ltb 0 (length batch) then frame batch (add64 (batch_start current) batch_size) else wait

  unfoldable pub send_block : ℕ → Option Bytes → Round → Round
  send_block current none batch = batch
  send_block current (some block) batch =
      if ltb 0 (length block)
      then frame (z.encode_all (block ++ newline ∷ [])) (add64 current 1)
      else batch

  unfoldable pub stream_round : ℕ → st.State → Round
  unfolding send_batch send_block
  stream_round current s =
      send_block current (st.get_block current s)
        (send_batch current (st.get_batch_compressed (batch_start current) s))
