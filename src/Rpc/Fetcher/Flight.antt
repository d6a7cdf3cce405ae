-- ===== src/Rpc/Fetcher/Flight.antt =====
-- On `StreamBlocks` of evm-ingestion/rpc/fetcher.go: which fetches are in flight.
use l1_data_tools.Common.{
  ℕ, zero, suc, ◌+◌, ◌-◌, ◌≤◌, ◌<◌, ◌≡◌, ◌⊎◌, refl, ap, ◌∙◌, true, false, ◌&&◌, List, [], ◌∷◌, ◌++◌,
  arith, length, leb, ltb, if◌then◌else◌, Bool-cases, inl, inr, subst,
}
use l1_data_tools.Rpc.Fetcher.Window.{
  Window, is_pending, fill_from, fill_window, refresh_and_fill, rounds,
}

-- The numbers from `n` on, as many as `count`.
abbrev pub run_of : ℕ → ℕ → List ℕ
run_of n zero = []
run_of n (suc count) = n ∷ run_of (n + 1) count

length-run_of : (n count : ℕ) → length (run_of n count) ≡ count
length-run_of n zero = refl
length-run_of n (suc count) = ap suc (length-run_of (n + 1) count)

run_of-snoc : (n count : ℕ) → run_of n count ++ (n + count) ∷ [] ≡ run_of n (suc count)
run_of-snoc n zero = ap (λ k. k ∷ []) {x = n + 0} (omega arith)
run_of-snoc n (suc count) =
    ap (λ ms. n ∷ ms)
      (ap (λ k. run_of (n + 1) count ++ k ∷ []) {x = n + suc count} (omega arith)
        ∙ run_of-snoc (n + 1) count)

beyond_run : (n count k : ℕ) → n + count ≤ k → is_pending k (run_of n count) ≡ false
beyond_run n zero k h = refl
beyond_run n (suc count) k h = ground (arith, beyond_run (n + 1) count k (omega (arith, h)))

-- The fetches in flight are those of the next numbers, without a gap, at most as many as the window
-- holds, and none is beyond the head.
pub record IsRun (size : ℕ) (w : Window) : Type 0 where
  pub count : ℕ
  pub pending_eq : w.pending ≡ run_of w.next_to_send count
  pub bounded : count ≤ size
  pub known : (count ≡ 0) ⊎ (w.next_to_send + count ≤ w.latest_block + 1)

-- And as many are in flight as can be.
pub record IsFull (size : ℕ) (w : Window) : Type 0 where
  pub run : IsRun size w
  pub full : (run.count ≡ size) ⊎ (w.latest_block < w.next_to_send + run.count)

at : List ℕ → ℕ → ℕ → Window
at pending next latest = record { pending = pending; next_to_send = next; latest_block = latest }

fill_from-IsFull :
    (size latest rounds next count : ℕ)
    → count ≤ size
    → (count ≡ 0) ⊎ (next + count ≤ latest + 1)
    → latest + 1 ≤ next + count + rounds
    → IsFull size (at (fill_from size latest rounds (next + count) (run_of next count)) next latest)
unfolding fill_from at
fill_from-IsFull size latest zero next count h known enough = record {
  run = record { count = count; pending_eq = refl; bounded = h; known = known };
  full = inr (omega (arith, enough));
}
fill_from-IsFull size latest (suc rounds) next count h known enough =
    elim (Bool-cases (leb (next + count) latest && ltb (length (run_of next count)) size)) [
      | inr no_room ↦ rw no_room (record {
        run = record { count = count; pending_eq = refl; bounded = h; known = known };
        full = stuck (Bool-cases (leb (next + count) latest)) no_room;
      })
      | inl room ↦
          let fits : suc count ≤ size = ground (arith, length-run_of next count) in
          let below : next + suc count ≤ latest + 1 = ground arith in
          let later =
            fill_from-IsFull size latest rounds next (suc count) fits (inr below)
              (omega (arith, enough)) in
          let one_on : next + suc count ≡ next + count + 1 = omega arith in
          rw (room, beyond_run next count (next + count) (omega arith), run_of-snoc next count)
            (subst
              (λ k.
                IsFull size
                  (at (fill_from size latest rounds k (run_of next (suc count))) next latest))
              one_on later)
    ]
  where
    stuck :
        (leb (next + count) latest ≡ true) ⊎ (leb (next + count) latest ≡ false)
        → (leb (next + count) latest && ltb (length (run_of next count)) size) ≡ false
        → (count ≡ size) ⊎ (latest < next + count)
    stuck (inl e) no_room = inl (ground (arith, length-run_of next count, h))
    stuck (inr e) no_room = inr (ground arith)

pub fill_window-IsFull : (size : ℕ) (w : Window) → IsRun size w → IsFull size (fill_window size w)
unfolding fill_window at
fill_window-IsFull size w run =
    let len : length w.pending ≡ run.count =
      ap length run.pending_eq ∙ length-run_of w.next_to_send run.count in
    rw (len, run.pending_eq)
      (fill_from-IsFull size w.latest_block (w.latest_block + 1 - (w.next_to_send + run.count))
        w.next_to_send run.count run.bounded run.known (omega arith))

refresh-IsRun :
    (size n : ℕ) (w : Window)
    → IsRun size w
    → IsRun size (record w { latest_block = (if ltb w.latest_block n then n else w.latest_block) })
refresh-IsRun size n w run = record {
  count = run.count;
  pending_eq = run.pending_eq;
  bounded = run.bounded;
  known = elim run.known [ inl none_ ↦ inl none_ | inr below ↦ inr (ground arith) ];
}

pub refresh_and_fill-IsFull :
    (size n : ℕ) (w : Window) → IsRun size w → IsFull size (refresh_and_fill size n w)
unfolding refresh_and_fill
refresh_and_fill-IsFull size n w run = fill_window-IsFull size _ (refresh-IsRun size n w run)
