-- ===== src/Rpc/Examples.antt =====
-- Examples for the head tracker and the fetcher.
pub mod Slots
pub mod Fetched
pub mod Documents
use l1_data_tools.Common.{
  ℕ, ◌≤◌, ◌≡◌, ◌≢◌, ◌⊎◌, refl, Bool, true, false, List, [], ◌∷◌, ◌++◌, Option, none, some, arith,
  Bytes, codes, compare_bytes, length, inl, inr, All,
}
use l1_data_tools.Common.Int.{ℤ, pos, negsuc}
use l1_data_tools.Hex.{trim_0x, parse_uint16, scan_hex, push_digit}
use l1_data_tools.Rpc.Heads.{
  Answer, Message, announced, Connection, fetch_block_number, start, has_prefix, contains, ws_url,
}
use l1_data_tools.Rpc.Heads.Latest.{Hears, start_highest}
use l1_data_tools.Rpc.Heads.Address.{ws_url_lem, ws_url-rpc_host}
use l1_data_tools.Rpc.Fetcher.Call.{
  Request, Response, Reply, failed, garbled, answered, batch_rpc_call, batch_rpc_call_debug,
  attempts, settle, judge, sort_responses, insert_response, validate, Element, absent, leave, read,
  merge_all, sorted_slice,
}
use l1_data_tools.Rpc.Fetcher.Calls.{Matches, Answered, batch_rpc_call-Matches}
use l1_data_tools.Rpc.Fetcher.Calls.Stale.{bare, resulting, complaining}
use l1_data_tools.Rpc.Fetcher.Calls.Retries.{Ascending, batch_rpc_call-slept}
use l1_data_tools.Rpc.Fetcher.Chunks.{chunks_of, flatten, chunks_of-flatten}
use l1_data_tools.Rpc.Fetcher.Window.{Window, Tick, cancelled, newest, rounds, stream_blocks}
use l1_data_tools.Rpc.Fetcher.Flight.{IsFull, IsRun}
use l1_data_tools.Rpc.Fetcher.Order.{InOrder, stream_blocks-InOrder}
use l1_data_tools.Rpc.Fetcher.Progress.{rounds_progress}

abbrev first_answer : Option Answer
first_answer = some (record { error = none; result = some (codes "0x10") })

abbrev head_18 : Message
head_18 = record { method = codes "eth_subscription"; number = codes "0x12" }

-- A confirmation with no number, then a head; the second connection fails, the third hears an older
-- head.
abbrev connections : List Connection
connections =
    some (record { method = []; number = [] } ∷ head_18 ∷ [])
    ∷ none
    ∷ some (record { method = codes "eth_subscription"; number = codes "0x11" } ∷ [])
    ∷ []

first_number : fetch_block_number first_answer ≡ some 16
unfolding fetch_block_number trim_0x parse_uint16 scan_hex push_digit
first_number = refl

Hears-18 : Hears connections 18
unfolding announced trim_0x parse_uint16 scan_hex push_digit compare_bytes
Hears-18 = Hears.next (Hears.here {msg = head_18} refl)

start_highest_example :
    (r : ℕ) × (start first_answer connections ≡ some r)
    × (16 ≤ r)
    × (18 ≤ r)
    × ((r ≡ 16) ⊎ Hears connections r)
start_highest_example = start_highest first_answer connections 16 18 first_number Hears-18

host_fine : has_prefix (codes "rpc") (codes "node.net") ≡ false
unfolding has_prefix
host_fine = refl

rest_plain : contains (codes "http://") (codes "node.net" ++ codes "/ws" ++ codes "/v1") ≡ false
unfolding contains has_prefix
rest_plain = refl

rest_plain_tls :
    contains (codes "https://") (codes "node.net" ++ codes "/ws" ++ codes "/v1") ≡ false
unfolding contains has_prefix
rest_plain_tls = refl

mangled : contains (codes "http://") (codes ".net/rpc") ≡ false
unfolding contains has_prefix
mangled = refl

mangled_tls : contains (codes "https://") (codes ".net/rpc") ≡ false
unfolding contains has_prefix
mangled_tls = refl

ws_url-rpc_host_example :
    (ws_url (codes "http://rpc" ++ codes ".net/rpc") ≡ some (codes "ws://ws" ++ codes ".net/rpc"))
    × (ws_url (codes "https://rpc" ++ codes ".net/rpc")
        ≡ some (codes "wss://ws" ++ codes ".net/rpc"))
ws_url-rpc_host_example = ws_url-rpc_host (codes ".net/rpc") mangled mangled_tls

abbrev request : ℕ → Request
request n = record { id = n; method = codes "eth_chainId"; params = [] }

abbrev response : ℕ → Response
response n = record { id = pos n; error = none; result = codes "{}" }

abbrev message : ℕ → Element
message n = record { id = some (pos n); error = absent; result = some (codes "{}") }

-- No answer, then one element only, then two answers in the wrong order.
abbrev flaky : ℕ → Reply
flaky ℕ.zero = failed
flaky (ℕ.suc ℕ.zero) = answered (message 1 ∷ [])
flaky (ℕ.suc (ℕ.suc n)) = answered (message 1 ∷ message 0 ∷ [])

flaky_call :
    (batch_rpc_call (request 0 ∷ request 1 ∷ []) flaky).responses
    ≡ some (response 0 ∷ response 1 ∷ [])
unfolding batch_rpc_call attempts settle judge leave read merge_all sorted_slice sort_responses
    insert_response validate
flaky_call = refl

batch_rpc_call-Matches_example :
    Matches (request 0 ∷ request 1 ∷ []) (response 0 ∷ response 1 ∷ [])
    × Answered (request 0 ∷ request 1 ∷ []) flaky (response 0 ∷ response 1 ∷ [])
batch_rpc_call-Matches_example =
    batch_rpc_call-Matches (request 0) (request 1 ∷ []) flaky (response 0 ∷ response 1 ∷ [])
      flaky_call

-- One element, then two; in the first network the second answer leaves the result of the first out.
abbrev forgetful : ℕ → Reply
forgetful ℕ.zero = answered (resulting (request 0) (codes "[]") ∷ [])
forgetful (ℕ.suc n) = answered (bare (request 0) ∷ resulting (request 1) (codes "{}") ∷ [])

abbrev complains_once : ℕ → Reply
complains_once ℕ.zero = answered (complaining (request 0) (codes "busy") ∷ [])
complains_once (ℕ.suc n) =
    answered (resulting (request 0) (codes "[]") ∷ resulting (request 1) (codes "{}") ∷ [])

stream_blocks-InOrder_example :
    InOrder 3 5 9 (stream_blocks 3 5 6 (newest 6 ∷ newest 9 ∷ newest 9 ∷ cancelled ∷ []))
stream_blocks-InOrder_example =
    stream_blocks-InOrder 3 5 6 9 (newest 6 ∷ newest 9 ∷ newest 9 ∷ cancelled ∷ []) (omega arith)
      (omega arith, (omega arith, (omega arith, (tt, tt))))

abbrev at_tip : Window
at_tip = record { pending = []; next_to_send = 5; latest_block = 4 }

at_tip-IsFull : IsFull 3 at_tip
at_tip-IsFull = record {
  run = record { count = 0; pending_eq = refl; bounded = omega arith; known = inl refl };
  full = inr (omega arith);
}

rounds_progress_example :
    (rest : List ℕ) × ((rounds 3 (newest 5 ∷ newest 5 ∷ []) at_tip).0 ≡ 5 ∷ rest)
rounds_progress_example = rounds_progress 3 5 5 [] at_tip at_tip-IsFull (omega arith) (omega arith)
