-- ===== src/Rpc/Fetcher/Order.antt =====
-- On `StreamBlocks` of evm-ingestion/rpc/fetcher.go: which blocks it sends, and how it ends.
use l1_data_tools.Common.{
  ℕ, suc, ◌+◌, ◌≤◌, ◌≡◌, ◌⊎◌, refl, List, [], ◌∷◌, arith, inl, inr, All, subst,
}
use l1_data_tools.Rpc.Fetcher.Window.{
  Window, refresh_and_fill, Tick, cancelled, newest, Round, polled, sent, ended, missing, round,
  End, running, stopped, continue_, rounds, stream_blocks,
}
use l1_data_tools.Rpc.Fetcher.Flight.{run_of, IsRun, IsFull, refresh_and_fill-IsFull}
use l1_data_tools.Rpc.Fetcher.Steps.{Goes, polls, sends, refresh_keeps, round-Goes}

-- `InOrder size from top (numbers, end)`: the numbers are those from `from` on, without a gap, none
-- beyond `top`, and the stream runs on, with its window full, or was cancelled.
pub data InOrder (size from top : ℕ) : List ℕ × End → Type 0 where
  runs :
      (k : ℕ) (w : Window)
      → (k ≡ 0) ⊎ (from + k ≤ top + 1)
      → w.next_to_send ≡ from + k
      → IsFull size w
      → InOrder size from top (run_of from k, running w)
  stops : (k : ℕ) → (k ≡ 0) ⊎ (from + k ≤ top + 1) → InOrder size from top (run_of from k, stopped)

abbrev pub Below : ℕ → Tick → Type 0
Below top cancelled = Unit
Below top (newest n) = n ≤ top

one_before :
    (size from top : ℕ) (rest : List ℕ × End)
    → from ≤ top
    → InOrder size (from + 1) top rest
    → InOrder size from top (from ∷ rest.0, rest.1)
one_before size from top rest h (runs k w known next full) =
    runs (suc k) w
      (elim known [
        | inl none_ ↦ inr (omega (arith, none_, h))
        | inr below ↦ inr (omega (arith, below))
      ])
      (omega (arith, next)) full
one_before size from top rest h (stops k known) = stops (suc k) (elim known [
  | inl none_ ↦ inr (omega (arith, none_, h))
  | inr below ↦ inr (omega (arith, below))
])

rounds-InOrder :
    (size top : ℕ) (ticks : List Tick) (w : Window)
    → IsFull size w
    → w.latest_block ≤ top
    → All (Below top) ticks
    → InOrder size w.next_to_send top (rounds size ticks w)
unfolding rounds continue_
rounds-InOrder size top [] w full h _ = runs 0 w (inl refl) (omega arith) full
rounds-InOrder size top (cancelled ∷ ticks) w full h hs = unfold round in stops 0 (inl refl)
rounds-InOrder size top (newest n ∷ ticks) w full h (less, hs) =
    go (round size (newest n) w) (round-Goes size n w full.run)
      (λ v. rounds-InOrder size top ticks v)
  where
    go :
        (r : Round)
        → Goes size n w r
        → ((v : Window)
            → IsFull size v
            → v.latest_block ≤ top
            → All (Below top) ticks
            → InOrder size v.next_to_send top (rounds size ticks v))
        → InOrder size w.next_to_send top (continue_ size r (rounds size ticks))
    go (polled v) (polls _ next latest full') later =
        subst (λ m. InOrder size m top (rounds size ticks v)) next
          (later v full' (omega (arith, latest, less, h)) hs)
    go (sent m v) (sends within next latest full') later =
        one_before size w.next_to_send top (rounds size ticks v) (omega (arith, within, h)) (
          subst (λ m. InOrder size m top (rounds size ticks v)) next
            (later v full' (omega (arith, latest, less, h)) hs))
    go ended goes later = elim goes [ ]
    go missing goes later = elim goes [ ]

-- Whatever the rounds meet, the stream sends the blocks from its start on, in order and without a
-- gap, none beyond the largest head that was seen, and it never ends with a missing fetch: it runs
-- on, with as many fetches in flight as the window and the head allow, or was cancelled.
pub stream_blocks-InOrder :
    (size from first top : ℕ) (ticks : List Tick)
    → first ≤ top
    → All (Below top) ticks
    → InOrder size from top (stream_blocks size from first ticks)
unfolding stream_blocks
stream_blocks-InOrder size from first top ticks h hs =
    let empty : Window = record { pending = []; next_to_send = from; latest_block = 0 } in
    let start = refresh_and_fill size first empty in
    let none_yet : IsRun size empty = record {
      count = 0;
      pending_eq = refl;
      bounded = omega arith;
      known = inl refl;
    } in
    let (next, latest) = refresh_keeps size first empty in
    subst (λ m. InOrder size m top (rounds size ticks start)) next
      (rounds-InOrder size top ticks start (refresh_and_fill-IsFull size first empty none_yet)
        (omega (arith, latest, h)) hs)
