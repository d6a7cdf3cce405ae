-- ===== src/Rpc/Controller/Moves.antt =====
-- On evm-ingestion/rpc/controller.go, `adjust`: how it moves the parallelism.
use l1_data_tools.Common.{
  ℕ, ◌+◌, ◌-◌, ◌/◌, ◌≤◌, ◌<◌, ◌≡◌, refl, ap, ◌∙◌, false, List, arith, max, min, length, ltb,
}
use native.Mathlib.Decide.{dec_lt}
use l1_data_tools.Rpc.Controller.{
  RequestMetric, Controller, Floats, p95_of, prune, count_errors, proposed, clamped, adjust,
  max_errors_per_min, load,
}
use l1_data_tools.Rpc.Controller.Bounds.{IsValid, set_parallel_lem, load_lem, clamped_bounds}

-- The metrics themselves have no part in the decision, given their errors and their quantile.
decision_same :
    (f : Floats) (errors p95 : ℕ) (c : Controller) (ms : List RequestMetric)
    → clamped (proposed f errors p95 (record c { metrics = ms })) (record c { metrics = ms })
      ≡ clamped (proposed f errors p95 c) c
unfolding clamped proposed load
decision_same f errors p95 c ms = refl

-- The parallelism after an adjustment with enough metrics is the clamped proposal.
adjust_parallel :
    (f : Floats) (now : ℕ) (c : Controller)
    → IsValid c
    → 10 ≤ length (prune now c.metrics)
    → (adjust f now c).current_parallel
      ≡ clamped
          (proposed f (count_errors (prune now c.metrics)) (p95_of f (prune now c.metrics)) c)
          c
unfolding adjust
adjust_parallel f now c v enough =
    let many : ltb (length (prune now c.metrics)) 10 ≡ false = ground arith in
    rw many (
      ap (λ (x : Controller). x.current_parallel)
        (set_parallel_lem _ (record c { metrics = prune now c.metrics }) v.room
          (omega (arith, v.below, v.fits))
          (omega (
            arith,
            v.fits,
            (clamped_bounds _ (record c { metrics = prune now c.metrics }) v.ordered).1,
          )))
      ∙ decision_same f _ _ c (prune now c.metrics))

module _ (f : Floats) (errors p95 : ℕ) (c : Controller) (v : IsValid c) where
  proposed_errors :
      max_errors_per_min < errors
      → clamped (proposed f errors p95 c) c ≡ max c.min_parallelism (c.current_parallel / 2)
  unfolding clamped proposed
  proposed_errors h =
      rw (load_lem c (omega (arith, v.below, v.fits))) (ground (arith, v.ordered, v.above, v.below))

  proposed_slow :
      errors ≤ max_errors_per_min
      → c.max_latency < p95
      → clamped (proposed f errors p95 c) c ≡ max c.min_parallelism (c.current_parallel - 2)
  unfolding clamped proposed
  proposed_slow h k =
      rw (load_lem c (omega (arith, v.below, v.fits))) (ground (arith, v.ordered, v.above, v.below))

  proposed_fast :
      errors ≤ max_errors_per_min
      → p95 ≤ c.max_latency
      → p95 < c.target_latency
      → (min (c.current_parallel + 1) c.max_parallelism ≤ clamped (proposed f errors p95 c) c)
        × (clamped (proposed f errors p95 c) c ≤ min (c.current_parallel + 20) c.max_parallelism)
  unfolding clamped proposed
  proposed_fast h k l =
      rw (load_lem c (omega (arith, v.below, v.fits))) (ground (arith, v.ordered, v.above, v.below))

  proposed_same :
      errors ≤ max_errors_per_min
      → p95 ≤ c.max_latency
      → c.target_latency ≤ p95
      → clamped (proposed f errors p95 c) c ≡ c.current_parallel
  unfolding clamped proposed
  proposed_same h k l =
      rw (load_lem c (omega (arith, v.below, v.fits))) (ground (arith, v.ordered, v.above, v.below))

-- How an adjustment moves the parallelism from `c` to `n`, for the metrics `ms` in the window.
pub data Moved (f : Floats) (ms : List RequestMetric) (c : Controller) (n : ℕ) : Type 0 where
  backed_off :
      max_errors_per_min < count_errors ms
      → n ≡ max c.min_parallelism (c.current_parallel / 2)
      → Moved f ms c n
  slowed :
      count_errors ms ≤ max_errors_per_min
      → c.max_latency < p95_of f ms
      → n ≡ max c.min_parallelism (c.current_parallel - 2)
      → Moved f ms c n
  grown :
      count_errors ms ≤ max_errors_per_min
      → p95_of f ms ≤ c.max_latency
      → p95_of f ms < c.target_latency
      → min (c.current_parallel + 1) c.max_parallelism ≤ n
      → n ≤ min (c.current_parallel + 20) c.max_parallelism
      → Moved f ms c n
  steady :
      count_errors ms ≤ max_errors_per_min
      → p95_of f ms ≤ c.max_latency
      → c.target_latency ≤ p95_of f ms
      → n ≡ c.current_parallel
      → Moved f ms c n

-- Given ten metrics in the window, more than ten errors halve the parallelism, a high latency
-- lowers it by two, and a low one raises it by 1 to 20, each within the bounds; otherwise it stays.
-- The controller is within its bounds.
pub adjust_moves :
    (f : Floats) (now : ℕ) (c : Controller)
    → IsValid c
    → 10 ≤ length (prune now c.metrics)
    → Moved f (prune now c.metrics) c (adjust f now c).current_parallel
adjust_moves f now c v enough =
    let ms = prune now c.metrics in
    rw (adjust_parallel f now c v enough) (elim (dec_lt max_errors_per_min (count_errors ms)) [
      | yes many ↦ backed_off many (proposed_errors f _ _ c v many)
      | no few ↦ elim (dec_lt c.max_latency (p95_of f ms)) [
        | yes slow ↦ slowed (omega arith) slow (proposed_slow f _ _ c v (omega arith) slow)
        | no fast ↦ elim (dec_lt (p95_of f ms) c.target_latency) [
          | yes low ↦
              let ok : count_errors ms ≤ max_errors_per_min = omega arith in
              let fine : p95_of f ms ≤ c.max_latency = omega arith in
              let range = proposed_fast f _ _ c v ok fine low in grown ok fine low range.0 range.1
          | no high ↦
              steady (omega arith) (omega arith) (omega arith)
                (proposed_same f _ _ c v (omega arith) (omega arith) (omega arith))
        ]
      ]
    ])
