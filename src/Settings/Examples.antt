-- ===== src/Settings/Examples.antt =====
-- The start of the program with settings by which it streams nothing.
use l1_data_tools.Common.{
  ℕ, ◌≡◌, refl, List, [], none, some, codes, bytes_eq, compare_bytes, if◌then◌else◌,
}
use l1_data_tools.Common.Int.{pos, negsuc}
use l1_data_tools.Hex.{trim_0x, parse_uint16, scan_hex, push_digit}
use l1_data_tools.Storage.Keys.{parse_uint, scan_uint}
use l1_data_tools.Ingestion.{parse_block_number}
use l1_data_tools.Rpc.Heads.{Answer}
use l1_data_tools.Rpc.Fetcher.Window.{Tick, stream_blocks}
use l1_data_tools.Settings.{
  Environment, get_env_or_default, get_env_int_or_default, atoi, fetch_chain_id, Settings,
  read_settings, new_fetcher, start,
}
use l1_data_tools.Settings.Start.{Course, start_lem}

abbrev no_window : Environment
no_window key =
    if bytes_eq key (codes "RPC_URL")
    then codes "http://node/rpc"
    else if bytes_eq key (codes "CHAIN_ID")
    then codes "2q9e"
    else if bytes_eq key (codes "LOOKAHEAD")
    then codes "0"
    else []

abbrev settings : Settings
settings = record {
  rpc_url = codes "http://node/rpc";
  chain_id = codes "2q9e";
  pebble_path = codes "./data/pebble";
  server_addr = codes ":9090";
  max_parallelism = pos 200;
  lookahead = pos 0;
}

settings_read : read_settings no_window ≡ some settings
unfolding read_settings get_env_or_default get_env_int_or_default atoi parse_uint scan_uint
    compare_bytes
settings_read = refl

abbrev chain_answer : Answer
chain_answer = record { error = none; result = some (codes "0xa867") }

chain_id_read : fetch_chain_id (some chain_answer) ≡ some 43111
unfolding fetch_chain_id parse_block_number trim_0x parse_uint16 scan_hex push_digit
chain_id_read = refl

negative_read : atoi (codes "-12") ≡ some (negsuc 11)
unfolding atoi parse_uint scan_uint
negative_read = refl

abbrev head_answer : Answer
head_answer = record { error = none; result = some (codes "0x10") }

start_lem_example :
    Course 1000 settings
      (new_fetcher settings.rpc_url (some head_answer))
      (start 1000 no_window (some chain_answer) (some head_answer))
    × ((from first : ℕ) (ticks : List Tick) → (stream_blocks 0 from first ticks).0 ≡ [])
start_lem_example =
    start_lem 1000 no_window (some chain_answer) (some head_answer) settings 43111 settings_read
      chain_id_read
