-- ===== src/Rpc/Fetcher/Progress.antt =====
-- On `StreamBlocks` of evm-ingestion/rpc/fetcher.go: when it sends the next block.
use l1_data_tools.Common.{
  ℕ, zero, suc, ◌≤◌, ◌<◌, ◌≡◌, ◌≢◌, refl, sym, ap, ◌∙◌, List, [], ◌∷◌, arith, inl, inr,
}
use l1_data_tools.Rpc.Fetcher.Window.{
  Window, Tick, newest, Round, polled, sent, ended, missing, round, continue_, rounds,
}
use l1_data_tools.Rpc.Fetcher.Flight.{run_of, IsFull}
use l1_data_tools.Rpc.Fetcher.Steps.{Goes, polls, sends, round-Goes}

-- A round that is not cancelled, where a fetch is in flight.
sends_next :
    (size n : ℕ) (ticks : List Tick) (w : Window)
    → IsFull size w
    → w.pending ≢ []
    → (rest : List ℕ) × ((rounds size (newest n ∷ ticks) w).0 ≡ w.next_to_send ∷ rest)
unfolding rounds continue_
sends_next size n ticks w full busy = go (round size (newest n) w) (round-Goes size n w full.run)
  where
    go :
        (r : Round)
        → Goes size n w r
        → (rest : List ℕ) × ((continue_ size r (rounds size ticks)).0 ≡ w.next_to_send ∷ rest)
    go (polled v) (polls e _ _ _) = absurd (busy e)
    go (sent m v) (sends _ _ _ _) = ((rounds size ticks v).0, refl)
    go ended goes = elim goes [ ]
    go missing goes = elim goes [ ]

busy_window :
    (size : ℕ) (w : Window)
    → IsFull size w
    → 0 < size
    → w.next_to_send ≤ w.latest_block
    → w.pending ≢ []
busy_window size w full some_size below e =
    by_count full.run.count (sym e ∙ full.run.pending_eq) (elim full.full [
      | inl whole ↦ omega (arith, whole, some_size)
      | inr beyond ↦ omega (arith, beyond, below)
    ])
  where
    by_count : (count : ℕ) → [] ≡ run_of w.next_to_send count → 0 < count → ⊥
    by_count zero e h = omega (arith, h)
    by_count (suc count) e h = cc

-- With a window of a size above 0, once the head has the next block, the second round from then on at
-- the latest sends it, in any state of the stream.
pub rounds_progress :
    (size a b : ℕ) (ticks : List Tick) (w : Window)
    → IsFull size w
    → 0 < size
    → w.next_to_send ≤ a
    → (rest : List ℕ) × ((rounds size (newest a ∷ newest b ∷ ticks) w).0 ≡ w.next_to_send ∷ rest)
unfolding rounds continue_
rounds_progress size a b ticks w full some_size known =
    go (round size (newest a) w) (round-Goes size a w full.run)
  where
    go :
        (r : Round)
        → Goes size a w r
        → (rest : List ℕ) × ((continue_ size r (rounds size (newest b ∷ ticks))).0
            ≡ w.next_to_send ∷ rest)
    go (polled v) (polls e next latest full') =
        let (rest, same) =
          sends_next size b ticks v full'
            (busy_window size v full' some_size (omega (arith, next, latest, known))) in
        (rest, same ∙ ap (λ m. m ∷ rest) next)
    go (sent m v) (sends _ _ _ _) = ((rounds size (newest b ∷ ticks) v).0, refl)
    go ended goes = elim goes [ ]
    go missing goes = elim goes [ ]
