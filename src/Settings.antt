-- ===== src/Settings.antt =====
-- evm-ingestion/main.go: the settings that are read from the environment, the chain's id, and how far the
-- program comes with them.
pub mod Start
pub mod Examples
use l1_data_tools.Common.{
  ℕ, ◌+◌, ◌-◌, ◌^◌, ◌≡◌, Bool, true, false, List, [], ◌∷◌, Option, none, some, ◌>>=◌, Bytes, codes,
  length, ltb, leb, ◌==◌, if◌then◌else◌,
}
use l1_data_tools.Common.Int.{ℤ, pos, negsuc}
use l1_data_tools.Storage.Keys.{parse_uint}
use l1_data_tools.Ingestion.{parse_block_number}
use l1_data_tools.Rpc.Heads.{Answer, ws_url, fetch_block_number}
use l1_data_tools.Rpc.Controller.{ChainConfig, Controller, new_controller, default_max_parallelism}

-- `os.Getenv`: a name that is not set has the empty text.
abbrev pub Environment : Type 0
Environment = Bytes → Bytes

unfoldable pub get_env_or_default : Environment → Bytes → Bytes → Bytes
get_env_or_default env key default_value = if length (env key) == 0 then default_value else env key

-- `-n`, for one that is not above 2^63.
abbrev negative : ℕ → ℤ
negative ℕ.zero = pos 0
negative (ℕ.suc n) = negsuc n

abbrev signed : Bool → ℕ → Option ℤ
signed true n = if leb n (2 ^ 63) then some (negative n) else none
signed false n = if ltb n (2 ^ 63) then some (pos n) else none

-- `strconv.Atoi`, of an int of 64 bits: a sign, and decimal digits.
unfoldable pub atoi : Bytes → Option ℤ
atoi [] = none
atoi (c ∷ s) =
    if c == b'-'
    then (parse_uint s >>= signed true)
    else if c == b'+'
    then (parse_uint s >>= signed false)
    else (parse_uint (c ∷ s) >>= signed false)

-- A text that is no number counts as not set.
unfoldable pub get_env_int_or_default : Environment → Bytes → ℤ → ℤ
get_env_int_or_default env key default_value =
    if length (env key) == 0
    then default_value
    else elim (atoi (env key)) [ none ↦ default_value | some i ↦ i ]

-- `fetchChainID`, of the answer to `eth_chainId`, if one came.
unfoldable pub fetch_chain_id : Option Answer → Option ℕ
fetch_chain_id answer = do
  a ← answer
  hex_chain_id ← (elim a.error [ some message ↦ none | none ↦ a.result ])
  parse_block_number hex_chain_id

-- What `main` goes on with.
pub record Settings : Type 0 where
  pub rpc_url : Bytes
  pub chain_id : Bytes
  pub pebble_path : Bytes
  pub server_addr : Bytes
  pub max_parallelism : ℤ
  pub lookahead : ℤ

-- `none` is `log.Fatal`.
unfoldable pub read_settings : Environment → Option Settings
read_settings env =
    if length (env (codes "RPC_URL")) == 0
    then none
    else if length (env (codes "CHAIN_ID")) == 0
    then none
    else some (record {
      rpc_url = env (codes "RPC_URL");
      chain_id = env (codes "CHAIN_ID");
      pebble_path = get_env_or_default env (codes "PEBBLE_PATH") (codes "./data/pebble");
      server_addr = get_env_or_default env (codes "SERVER_ADDR") (codes ":9090");
      max_parallelism =
          get_env_int_or_default env (codes "MAX_PARALLELISM") (pos default_max_parallelism);
      lookahead = get_env_int_or_default env (codes "LOOKAHEAD") (pos 100);
    })

-- `NewFetcher`, of the answer to its first `eth_blockNumber`: it needs the address of the WebSocket and
-- the number of the newest block, with which it goes on.
unfoldable pub new_fetcher : Bytes → Option Answer → Option ℕ
new_fetcher rpc_url answer = do address ← ws_url rpc_url; fetch_block_number answer

-- How far the program comes: it ends with `log.Fatal`, it waits in `NewController` for ever, it ends with a
-- panic as `runIngestion` makes the channel for the blocks, or it streams with a window.
pub data Started : Type 0 where
  failed : Started
  waits : Started
  panics : Started
  streams : Controller → ℕ → Started

-- `make` panics for a size that is negative, or above the largest channel that Go can make.
unfoldable pub make_channel : ℕ → Controller → ℤ → Started
make_channel largest controller (pos n) = if leb n largest then streams controller n else panics
make_channel largest controller (negsuc n) = panics

-- `main` up to the first block, where the storage opens and the server finds its port.
unfoldable pub start : ℕ → Environment → Option Answer → Option Answer → Started
unfolding read_settings fetch_chain_id new_fetcher make_channel
start largest env chain_answer head_answer = elim (read_settings env) [
  | none ↦ failed
  | some settings ↦ elim (fetch_chain_id chain_answer) [
    | none ↦ failed
    | some evm_chain_id ↦
        elim (new_controller
          (record { max_parallelism = settings.max_parallelism; max_latency_ms = pos 0 })) [
            | none ↦ waits
            | some controller ↦ elim (new_fetcher settings.rpc_url head_answer) [
              | none ↦ failed
              | some head ↦ make_channel largest controller settings.lookahead
            ]
          ]
  ]
]
