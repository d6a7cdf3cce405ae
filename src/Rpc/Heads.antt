-- ===== src/Rpc/Heads.antt =====
-- evm-ingestion/rpc/heads.go: the address of the WebSocket, the block number over HTTP, and the loop
-- that reads new heads.
pub mod Latest
pub mod Address
use l1_data_tools.Common.{
  ℕ, zero, suc, Bool, true, false, ◌&&◌, ◌||◌, List, [], ◌∷◌, ◌++◌, Option, none, some, ◌>>=◌,
  Bytes, codes, bytes_eq, length, drop, ltb, ◌==◌, if◌then◌else◌,
}
use l1_data_tools.Hex.{trim_0x, parse_uint16}

-- `strings.HasPrefix`.
unfoldable pub has_prefix : Bytes → Bytes → Bool
has_prefix [] s = true
has_prefix (c ∷ prefix) [] = false
has_prefix (c ∷ prefix) (d ∷ s) = (c == d) && has_prefix prefix s

-- `strings.Contains`, of a text that is not empty.
unfoldable pub contains : Bytes → Bytes → Bool
contains old [] = false
contains old (c ∷ s) = has_prefix old (c ∷ s) || contains old s

-- `strings.Replace(s, old, new, 1)`, of a text that is not empty.
unfoldable pub replace_first : Bytes → Bytes → Bytes → Bytes
replace_first old new [] = []
replace_first old new (c ∷ s) =
    let later = replace_first old new s in
    if has_prefix old (c ∷ s) then new ++ drop (length old) (c ∷ s) else c ∷ later

-- `NewHeadTracker`: the address of the WebSocket; `none` is the error.
unfoldable pub ws_url : Bytes → Option Bytes
ws_url rpc_url =
    let path = replace_first (codes "/rpc") (codes "/ws") rpc_url in
    let plain = replace_first (codes "http://") (codes "ws://") path in
    if contains (codes "/rpc") rpc_url
    then some (replace_first (codes "https://") (codes "wss://") plain)
    else none

-- The answer to `eth_blockNumber`, decoded: the message of its error, and its result where that is a
-- text.
pub record Answer : Type 0 where
  pub error : Option Bytes
  pub result : Option Bytes

-- `fetchBlockNumberRPC`, of the answer, if one came.
unfoldable pub fetch_block_number : Option Answer → Option ℕ
fetch_block_number answer = do
  a ← answer
  text ← (elim a.error [ some message ↦ none | none ↦ a.result ])
  parse_uint16 (trim_0x text)

-- A message of the subscription: its fields `method` and `params.result.number`, empty where missing.
pub record Message : Type 0 where
  pub method : Bytes
  pub number : Bytes

-- The number that a message announces; the loop skips one that announces none.
unfoldable pub announced : Message → Option ℕ
announced msg =
    if bytes_eq msg.method (codes "eth_subscription")
    then (if ltb 0 (length msg.number) then parse_uint16 (trim_0x msg.number) else none)
    else none

-- The loop of `connectAndSubscribe`, over the messages that are read before an error, on
-- `latestBlock`.
unfoldable pub read_heads : List Message → ℕ → ℕ
read_heads [] latest = latest
read_heads (msg ∷ msgs) latest = elim (announced msg) [
  | none ↦ read_heads msgs latest
  | some block_num ↦ read_heads msgs (if ltb latest block_num then block_num else latest)
]

-- One connection of `connectAndSubscribe`: none where dialing or subscribing failed, else the
-- messages that were read.
abbrev pub Connection : Type 0
Connection = Option (List Message)

-- `Start` and `runWebSocket`: the first number over HTTP, then one connection after another.
unfoldable pub run_web_socket : List Connection → ℕ → ℕ
run_web_socket [] latest = latest
run_web_socket (none ∷ connections) latest = run_web_socket connections latest
run_web_socket (some msgs ∷ connections) latest =
    run_web_socket connections (read_heads msgs latest)

unfoldable pub start : Option Answer → List Connection → Option ℕ
start answer connections = do
  initial_block ← fetch_block_number answer
  some (run_web_socket connections initial_block)
