-- ===== src/Rpc/Controller/Window.antt =====
-- On evm-ingestion/rpc/controller.go, `adjust`: which metrics it keeps.
use l1_data_tools.Common.{
  ℕ, ◌+◌, ◌≤◌, ◌≡◌, refl, sym, ap, ◌∙◌, true, List, [], ◌∷◌, arith, All, if◌then◌else◌, Bool-cases,
  inl, inr,
}
use native.Mathlib.Numerals.{add-one}
use l1_data_tools.Rpc.Controller.{RequestMetric, in_window, valid_start, prune}

-- The metrics stand in the order of their timestamps.
abbrev pub Ordered : List RequestMetric → Type 0
Ordered [] = Unit
Ordered (m ∷ ms) = All (λ (n : RequestMetric). m.timestamp ≤ n.timestamp) ms × Ordered ms

-- The metrics of the window, by the test on each.
pub recent : ℕ → List RequestMetric → List RequestMetric
recent now [] = []
recent now (m ∷ ms) = let rest = recent now ms in if in_window now m then m ∷ rest else rest

valid_start_shift :
    (now i : ℕ) (m : RequestMetric) (ms : List RequestMetric)
    → valid_start now (i + 1) (m ∷ ms) ≡ valid_start now i (m ∷ ms) + 1
unfolding valid_start
valid_start_shift now i m [] = ground arith
valid_start_shift now i m (n ∷ ms) = ground (arith, valid_start_shift now (i + 1) n ms)

prune-cons :
    (now : ℕ) (m : RequestMetric) (ms : List RequestMetric)
    → prune now (m ∷ ms) ≡ (if in_window now m then m ∷ ms else prune now ms)
unfolding prune
prune-cons now m [] = elim (Bool-cases (in_window now m)) [
  | inl e ↦ rw (e, valid_start) refl
  | inr e ↦ rw (e, valid_start) refl
]
prune-cons now m (n ∷ ms) = elim (Bool-cases (in_window now m)) [
  | inl e ↦ rw (e, valid_start) refl
  | inr e ↦ rw (e, valid_start) (rw (valid_start_shift now 0 n ms, add-one) refl)
]

recent_all :
    (now : ℕ) (m : RequestMetric) (ms : List RequestMetric)
    → in_window now m ≡ true
    → All (λ (n : RequestMetric). m.timestamp ≤ n.timestamp) ms
    → recent now ms ≡ ms
unfolding recent
recent_all now m [] h low = refl
recent_all now m (n ∷ ms) h (le, low) = ground (arith, recent_all now m ms h low)

-- On metrics in the order of their timestamps the loop keeps exactly the metrics of the window.
pub prune-recent : (now : ℕ) (ms : List RequestMetric) → Ordered ms → prune now ms ≡ recent now ms
unfolding recent
prune-recent now [] h = unfold prune in refl
prune-recent now (m ∷ ms) (low, h) = prune-cons now m ms ∙ elim (Bool-cases (in_window now m)) [
  | inl e ↦ rw e (ap (λ l. m ∷ l) (sym (recent_all now m ms e low)))
  | inr e ↦ rw e (prune-recent now ms h)
]
