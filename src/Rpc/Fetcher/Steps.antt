-- ===== src/Rpc/Fetcher/Steps.antt =====
-- On `StreamBlocks` of evm-ingestion/rpc/fetcher.go: what one round does.
use l1_data_tools.Common.{
  ℕ, zero, suc, ◌+◌, ◌≤◌, ◌≡◌, ◌⊎◌, refl, ap, ◌∙◌, true, false, [], arith, length, ltb, ◌==◌,
  if◌then◌else◌, Bool-cases, inl, inr, ==_refl, max, subst,
}
use l1_data_tools.Rpc.Fetcher.Window.{
  Window, is_pending, delete, fill_window, refresh_and_fill, newest, Round, polled, sent, round,
}
use l1_data_tools.Rpc.Fetcher.Flight.{
  run_of, IsRun, IsFull, fill_window-IsFull, refresh_and_fill-IsFull,
}

-- What a round that is not cancelled does.
pub data Goes (size n : ℕ) (w : Window) : Round → Type 0 where
  polls :
      {v : Window}
      → w.pending ≡ []
      → v.next_to_send ≡ w.next_to_send
      → v.latest_block ≡ max w.latest_block n
      → IsFull size v
      → Goes size n w (polled v)
  sends :
      {v : Window}
      → w.next_to_send ≤ w.latest_block
      → v.next_to_send ≡ w.next_to_send + 1
      → v.latest_block ≤ max w.latest_block n
      → IsFull size v
      → Goes size n w (sent w.next_to_send v)

IsRun-rest :
    (size k : ℕ) (w : Window)
    → suc k ≤ size
    → w.next_to_send + suc k ≤ w.latest_block + 1
    → w.pending ≡ run_of w.next_to_send (suc k)
    → IsRun size
        (record w { pending = delete w.next_to_send w.pending; next_to_send = w.next_to_send + 1 })
IsRun-rest size k w h below e = record {
  count = k;
  pending_eq = ap (delete w.next_to_send) e ∙ (rw (==_refl w.next_to_send) refl);
  bounded = omega (arith, h);
  known = inr (omega (arith, below));
}

pub refresh_keeps :
    (size n : ℕ) (w : Window)
    → ((refresh_and_fill size n w).next_to_send ≡ w.next_to_send)
      × ((refresh_and_fill size n w).latest_block ≡ max w.latest_block n)
unfolding refresh_and_fill fill_window
refresh_keeps size n w = (refl, ground arith)

fill_keeps :
    (size : ℕ) (w : Window)
    → ((fill_window size w).next_to_send ≡ w.next_to_send)
      × ((fill_window size w).latest_block ≡ w.latest_block)
unfolding fill_window
fill_keeps size w = (refl, refl)

-- The end of a round that sent a block.
after_send :
    (size n : ℕ) (v : Window)
    → IsFull size v
    → (u : Window) × (u ≡ (if ltb (length v.pending) size then refresh_and_fill size n v else v))
      × (u.next_to_send ≡ v.next_to_send)
      × (u.latest_block ≤ max v.latest_block n)
      × IsFull size u
after_send size n v full = elim (Bool-cases (ltb (length v.pending) size)) [
  | inl room ↦
      let (same, raised) = refresh_keeps size n v in
      (
        refresh_and_fill size n v,
        (rw room refl),
        same,
        omega (arith, raised),
        refresh_and_fill-IsFull size n v full.run,
      )
  | inr no_room ↦ (v, (rw no_room refl), refl, omega arith, full)
]

pub round-Goes : (size n : ℕ) (w : Window) → IsRun size w → Goes size n w (round size (newest n) w)
unfolding round
round-Goes size n w run = by_count run.count run.pending_eq run.bounded run.known
  where
    by_count :
        (count : ℕ)
        → w.pending ≡ run_of w.next_to_send count
        → count ≤ size
        → (count ≡ 0) ⊎ (w.next_to_send + count ≤ w.latest_block + 1)
        → Goes size n w (round size (newest n) w)
    by_count zero e h known =
        let empty : (length w.pending == 0) ≡ true = ap (λ ms. length ms == 0) e in
        rw empty (
          polls e ((refresh_keeps size n w).0) ((refresh_keeps size n w).1)
            (refresh_and_fill-IsFull size n w run))
    by_count (suc k) e h known =
        let below : w.next_to_send + suc k ≤ w.latest_block + 1 = elim known [
          | inl none_ ↦ absurd (omega (arith, none_))
          | inr fine ↦ fine
        ] in
        let filled : (length w.pending == 0) ≡ false = ap (λ ms. length ms == 0) e ∙ ground arith in
        let there : is_pending w.next_to_send w.pending ≡ true =
          ap (is_pending w.next_to_send) e ∙ (rw (==_refl w.next_to_send) refl) in
        let rest = record w {
          pending = delete w.next_to_send w.pending;
          next_to_send = w.next_to_send + 1;
        } in
        let filled_full = fill_window-IsFull size rest (IsRun-rest size k w h below e) in
        let (u, is_after, next, latest, full) =
          after_send size n (fill_window size rest) filled_full in
        rw (filled, there)
          (subst (λ v. Goes size n w (sent w.next_to_send v)) is_after
            (sends (omega (arith, below)) (next ∙ (fill_keeps size rest).0)
              (omega (arith, latest, (fill_keeps size rest).1)) full))
