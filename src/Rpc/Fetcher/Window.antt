-- ===== src/Rpc/Fetcher/Window.antt =====
-- `StreamBlocks`: which fetches are in flight, and what is sent. Block numbers stay below 2^64.
use l1_data_tools.Common.{
  ℕ, zero, suc, ◌+◌, ◌-◌, Bool, false, ◌&&◌, ◌||◌, List, [], ◌∷◌, ◌++◌, length, leb, ltb, ◌==◌,
  if◌then◌else◌,
}

-- `pending` holds the numbers whose fetch was started and is not taken yet, in the order of the
-- starts; each fetch is tried until it succeeds or the context is cancelled.
pub record Window : Type 0 where
  pub pending : List ℕ
  pub next_to_send : ℕ
  pub latest_block : ℕ

abbrev pub is_pending : ℕ → List ℕ → Bool
is_pending n [] = false
is_pending n (m ∷ ms) = (n == m) || is_pending n ms

abbrev pub delete : ℕ → List ℕ → List ℕ
delete n [] = []
delete n (m ∷ ms) = if n == m then ms else m ∷ delete n ms

-- The loop that fills the window from `block_num` on, which ends past `latest` at the latest.
unfoldable pub fill_from : ℕ → ℕ → ℕ → ℕ → List ℕ → List ℕ
fill_from size latest zero block_num pending = pending
fill_from size latest (suc rounds) block_num pending =
    let more =
      fill_from size latest rounds (block_num + 1)
        (if is_pending block_num pending then pending else pending ++ block_num ∷ []) in
    if leb block_num latest && ltb (length pending) size then more else pending

unfoldable pub fill_window : ℕ → Window → Window
fill_window size w =
    let start = w.next_to_send + length w.pending in
    record w {
      pending = fill_from size w.latest_block (w.latest_block + 1 - start) start w.pending;
    }

-- `refreshAndFill`, with the number that the head tracker holds; `GetLatestBlock` never fails.
unfoldable pub refresh_and_fill : ℕ → ℕ → Window → Window
refresh_and_fill size newest w =
    fill_window size
      (record w { latest_block = (if ltb w.latest_block newest then newest else w.latest_block) })

-- What one round of the loop meets: the context is cancelled, or not before the round ends, and the
-- tracker's number.
pub data Tick : Type 0 where
  cancelled : Tick
  newest : ℕ → Tick

-- One round: it polls at the tip, it sends the block of a number, or the stream ends, by
-- cancellation or because the next fetch is missing.
pub data Round : Type 0 where
  polled : Window → Round
  sent : ℕ → Window → Round
  ended : Round
  missing : Round

unfoldable pub round : ℕ → Tick → Window → Round
round size cancelled w = ended
round size (newest n) w =
    let rest = record w {
      pending = delete w.next_to_send w.pending;
      next_to_send = w.next_to_send + 1;
    } in
    let filled = fill_window size rest in
    let after =
      (if ltb (length filled.pending) size then refresh_and_fill size n filled else filled) in
    if length w.pending == 0
    then polled (refresh_and_fill size n w)
    else if is_pending w.next_to_send w.pending
    then sent w.next_to_send after
    else missing

-- How a stream ends: still running, cancelled, or with the error of a missing fetch.
pub data End : Type 0 where
  running : Window → End
  stopped : End
  broken : End

module _ (size : ℕ) where
  unfoldable pub continue_ : Round → (Window → List ℕ × End) → List ℕ × End
  continue_ (polled w) rest = rest w
  continue_ (sent n w) rest = (n ∷ (rest w).0, (rest w).1)
  continue_ ended rest = ([], stopped)
  continue_ missing rest = ([], broken)

  -- The numbers whose blocks are sent, over a sequence of rounds.
  unfoldable pub rounds : List Tick → Window → List ℕ × End
  rounds [] w = ([], running w)
  rounds (tick ∷ ticks) w = continue_ (round size tick w) (rounds ticks)

-- The stream from a block on; `first` is the tracker's number at its start.
unfoldable pub stream_blocks : ℕ → ℕ → ℕ → List Tick → List ℕ × End
stream_blocks size from first ticks =
    rounds size ticks
      (refresh_and_fill size first (record { pending = []; next_to_send = from; latest_block = 0 }))
