-- ===== src/Settings/Start.antt =====
-- On `main` of evm-ingestion/main.go: with which settings the program streams, and what it streams with a
-- window of no blocks.
use l1_data_tools.Common.{
  ℕ, zero, suc, ◌≤◌, ◌<◌, ◌≡◌, ◌≢◌, leb, Bool-cases, refl, sym, ap, ◌∙◌, true, List, [], ◌∷◌,
  Option, none, some, arith, length, ◌==◌, Option-cases, inl, inr,
}
use l1_data_tools.Common.Int.{ℤ, pos, negsuc}
use l1_data_tools.Rpc.Heads.{Answer}
use l1_data_tools.Rpc.Controller.{ChainConfig, Controller, new_controller}
use l1_data_tools.Rpc.Controller.Bounds.{new_controller_blocks}
use l1_data_tools.Rpc.Fetcher.Window.{
  Window, Tick, cancelled, newest, fill_from, fill_window, refresh_and_fill, round, rounds,
  continue_, stream_blocks,
}
use l1_data_tools.Settings.{
  Environment, fetch_chain_id, Settings, read_settings, new_fetcher, Started, failed, waits, panics,
  streams, make_channel, start,
}

-- A window of no blocks stays empty.
fill_from-zero : (latest rounds block_num : ℕ) → fill_from 0 latest rounds block_num [] ≡ []
unfolding fill_from
fill_from-zero latest zero block_num = refl
fill_from-zero latest (suc rounds) block_num = ground arith

refresh-zero : (n : ℕ) (w : Window) → w.pending ≡ [] → (refresh_and_fill 0 n w).pending ≡ []
unfolding refresh_and_fill fill_window
refresh-zero n w e = rw e (fill_from-zero _ _ _)

rounds-zero : (ticks : List Tick) (w : Window) → w.pending ≡ [] → (rounds 0 ticks w).0 ≡ []
unfolding rounds continue_ round
rounds-zero [] w e = refl
rounds-zero (cancelled ∷ ticks) w e = refl
rounds-zero (newest n ∷ ticks) w e =
    let idle : (length w.pending == 0) ≡ true = ap (λ (l : List ℕ). length l == 0) e in
    rw idle (rounds-zero ticks (refresh_and_fill 0 n w) (refresh-zero n w e))

abbrev configured : Settings → ChainConfig
configured settings = record { max_parallelism = settings.max_parallelism; max_latency_ms = pos 0 }

-- The sizes for which `make` panics.
pub data Refused (largest : ℕ) : ℤ → Type 0 where
  below_zero : (n : ℕ) → Refused largest (negsuc n)
  too_large : (n : ℕ) → largest < n → Refused largest (pos n)

-- With a window of no blocks nothing is sent, whatever the head is and
-- however long the loop runs.
stream_blocks-zero :
    (from first : ℕ) (ticks : List Tick) → (stream_blocks 0 from first ticks).0 ≡ []
unfolding stream_blocks
stream_blocks-zero from first ticks =
    rounds-zero ticks
      (refresh_and_fill 0 first (record { pending = []; next_to_send = from; latest_block = 0 }))
      (refresh-zero first _ refl)

-- What `make_channel` ends with: a panic for the sizes that are refused, and else a window of that size.
data Made (largest : ℕ) (controller : Controller) (lookahead : ℤ) (r : Started) : Type 0 where
  refused : Refused largest lookahead → r ≡ panics → Made largest controller lookahead r
  made :
      (n : ℕ)
      → lookahead ≡ pos n
      → n ≤ largest
      → r ≡ streams controller n
      → Made largest controller lookahead r

make_channel-Made :
    (largest : ℕ) (controller : Controller) (lookahead : ℤ)
    → Made largest controller lookahead (make_channel largest controller lookahead)
unfolding make_channel
make_channel-Made largest controller (negsuc n) = refused (below_zero n) refl
make_channel-Made largest controller (pos n) = elim (Bool-cases (leb n largest)) [
  | inl fits ↦ made n refl (ground arith) (rw fits refl)
  | inr high ↦ refused (too_large n (ground arith)) (rw high refl)
]

-- What the settings make of the start, once there is a fetcher or none.
pub data Course (largest : ℕ) (settings : Settings) (fetcher : Option ℕ) (r : Started)
    : Type 0 where
  stuck : settings.max_parallelism ≡ pos 1 → r ≡ waits → Course largest settings fetcher r
  no_fetcher :
      settings.max_parallelism ≢ pos 1
      → fetcher ≡ none
      → r ≡ failed
      → Course largest settings fetcher r
  no_channel :
      settings.max_parallelism ≢ pos 1
      → fetcher ≢ none
      → Refused largest settings.lookahead
      → r ≡ panics
      → Course largest settings fetcher r
  streaming :
      (controller : Controller) (size : ℕ)
      → settings.max_parallelism ≢ pos 1
      → fetcher ≢ none
      → settings.lookahead ≡ pos size
      → size ≤ largest
      → r ≡ streams controller size
      → Course largest settings fetcher r

start-Course :
    (largest : ℕ) (env : Environment) (chain_answer head_answer : Option Answer)
    (settings : Settings) (evm_chain_id : ℕ)
    → read_settings env ≡ some settings
    → fetch_chain_id chain_answer ≡ some evm_chain_id
    → Course largest settings
        (new_fetcher settings.rpc_url head_answer)
        (start largest env chain_answer head_answer)
unfolding start
start-Course largest env chain_answer head_answer settings evm_chain_id found answered =
    let blocks = new_controller_blocks (configured settings) in
    rw (found, start)
      (rw (answered, start)
        (elim (Option-cases (new_controller (configured settings))) [
          | inl none_yet ↦ rw (none_yet, start) (stuck (blocks.0 none_yet) refl)
          | inr (controller, ready) ↦
              let other : settings.max_parallelism ≢ pos 1 =
                λ one. cc (sym (blocks.1 one) ∙ ready) in
              elim (Option-cases (new_fetcher settings.rpc_url head_answer)) [
                | inl failing ↦ rw (ready, start) (rw (failing, start) (no_fetcher other refl refl))
                | inr (head, tracked) ↦
                    let there : some head ≢ none = λ e. cc e in
                    rw (ready, start)
                      (rw (tracked, start)
                        (elim (make_channel-Made largest controller settings.lookahead) [
                          | refused bad e ↦ no_channel other there bad e
                          | made n e h e' ↦ streaming controller n other there e h e'
                        ]))
              ]
        ]))

-- With its settings and the chain's id the program does one of four things. With a MAX_PARALLELISM of
-- 1 it waits in NewController for ever; else, without a fetcher, it ends with `log.Fatal`; else, for a
-- LOOKAHEAD that is negative or above the largest channel, it panics; else it streams, with LOOKAHEAD as the
-- size of its window. And with a window of size 0 nothing is sent, whatever the head is and however long
-- the loop runs.
pub start_lem :
    (largest : ℕ) (env : Environment) (chain_answer head_answer : Option Answer)
    (settings : Settings) (evm_chain_id : ℕ)
    → read_settings env ≡ some settings
    → fetch_chain_id chain_answer ≡ some evm_chain_id
    → Course largest settings
        (new_fetcher settings.rpc_url head_answer)
        (start largest env chain_answer head_answer)
      × ((from first : ℕ) (ticks : List Tick) → (stream_blocks 0 from first ticks).0 ≡ [])
start_lem largest env chain_answer head_answer settings evm_chain_id found answered = (
  start-Course largest env chain_answer head_answer settings evm_chain_id found answered,
  stream_blocks-zero,
)
