-- ===== src/Client.antt =====
-- evm-ingestion-client/client.go: reading a frame as blocks, and the stream of packs to a handler.
pub mod Pack
pub mod Feed
pub mod Stream
pub mod Reconnect
pub mod Example
pub mod Sample
pub mod Examples
use l1_data_tools.Common.{
  ℕ, zero, suc, ◌+◌, ◌≡◌, Bool, true, false, List, [], ◌∷◌, ◌++◌, Option, none, some, ◌>>=◌, Bytes,
  codes, u64, add64, length, leb, ltb, ◌==◌, if◌then◌else◌, ◌-◌, ◌*◌, ◌&&◌,
}
use l1_data_tools.Hex.{trim_0x, parse_uint16}
use l1_data_tools.Storage.Batch.{Zstd, newline}
use l1_data_tools.Storage.Keys.{split}

unfoldable pub parse_hex : Bytes → Option ℕ
parse_hex s = parse_uint16 (trim_0x s)

-- `json.Unmarshal` into a NormalizedBlock, and the text of its field `block.number`.
pub record Json : Type 1 where
  pub Value : Type 0
  pub unmarshal : Bytes → Option Value
  pub number : Value → Bytes

module _ (j : Json) where
  pub record Block : Type 0 where
    pub number : ℕ
    pub content : j.Value

module _ (z : Zstd) (j : Json) where
  unfoldable pub parse_line : Bytes → Option (Block j)
  parse_line line = do
    nb ← j.unmarshal line
    block_num ← parse_hex (j.number nb)
    some (record { number = block_num; content = nb })

  -- Empty lines are skipped; one line that cannot be parsed fails the whole pack.
  pub parse_lines : List Bytes → Option (List (Block j))
  parse_lines [] = some []
  parse_lines (line ∷ lines) =
      let rest = parse_lines lines in
      if length line == 0
      then rest
      else (do block ← parse_line line; blocks ← rest; some (block ∷ blocks))

  pub read_pack : Bytes → Option (List (Block j))
  read_pack frame = do text ← z.decode frame; parse_lines (split text newline)

module _ (j : Json) where
  -- The blocks from `current` on.
  pub not_below : ℕ → List (Block j) → List (Block j)
  not_below current [] = []
  not_below current (b ∷ blocks) =
      let rest = not_below current blocks in if leb current b.number then b ∷ rest else rest

  -- One past the last block of a pack, or the old position if the pack is empty.
  pub next_block : ℕ → List (Block j) → ℕ
  next_block current [] = current
  next_block current (b ∷ []) = add64 b.number 1
  next_block current (b ∷ c ∷ blocks) = next_block current (c ∷ blocks)

  -- One pack in `Stream`: what the handler gets, and the next position.
  pub take_pack : ℕ → List (Block j) → List (Block j) × ℕ
  unfolding not_below next_block
  take_pack current blocks =
      let filtered = not_below current blocks in (filtered, next_block current filtered)
