-- ===== src/Rpc/Controller/Bounds.antt =====
-- On evm-ingestion/rpc/controller.go: the bounds of the parallelism and of the channel.
use l1_data_tools.Common.{
  ℕ, zero, suc, ◌+◌, ◌-◌, ◌/◌, ◌%◌, ◌^◌, true, ◌≤◌, ◌<◌, ◌≡◌, ◌↔◌, refl, sym, ap, ap₂, ◌∙◌, List,
  none, some, arith, max, min, length, ltb, leb, ◌==◌, if◌then◌else◌, Bool-cases, inl, inr,
}
use l1_data_tools.Common.Int.{ℤ, pos, negsuc}
use l1_data_tools.Rpc.Controller.{
  RequestMetric, ChainConfig, Controller, or_default, fill, new_controller, Floats, p95_of, prune,
  count_errors, proposed, clamped, add_slots, set_parallel, adjust, load,
}

pub record IsValid (c : Controller) : Type 0 where
  pub least : 2 ≤ c.min_parallelism
  pub ordered : c.min_parallelism ≤ c.max_parallelism
  pub above : c.min_parallelism ≤ c.current_parallel
  pub below : c.current_parallel ≤ c.max_parallelism
  pub room : c.semaphore ≤ c.max_parallelism
  pub fits : c.max_parallelism < 2 ^ 31

-- Below 2^31 the bits are the number.
pub load_lem : (c : Controller) → c.current_parallel < 2 ^ 31 → load c ≡ pos c.current_parallel
unfolding load
load_lem c h = let small : ltb c.current_parallel (2 ^ 31) ≡ true = ground arith in rw small refl

fill_lem :
    (capacity count tokens : ℕ)
    → tokens ≤ capacity
    → fill capacity count tokens
      ≡ (if leb (tokens + count) capacity then some (tokens + count) else none)
unfolding fill
fill_lem capacity zero tokens h = ground arith
fill_lem capacity (suc count) tokens h = ground (arith, fill_lem capacity count (tokens + 1))

-- A controller that starts with a setting below 2^31 has its bounds in order and as many tokens as its
-- parallelism.
pub new_controller-IsValid :
    (cfg : ChainConfig) (c : Controller)
    → or_default 200 cfg.max_parallelism < 2 ^ 31
    → new_controller cfg ≡ some c
    → IsValid c × (c.semaphore ≡ c.current_parallel)
unfolding new_controller
new_controller-IsValid cfg c fits h = ground (
  arith,
  fill_lem (or_default 200 cfg.max_parallelism) (max 2 (or_default 200 cfg.max_parallelism / 10)) 0,
)

small_max : (p : ℤ) → or_default 200 p < max 2 (or_default 200 p / 10) → p ≡ pos 1
unfolding or_default
small_max (pos zero) h = absurd (omega arith)
small_max (pos (suc zero)) h = refl
small_max (pos (suc (suc n))) h = absurd (omega arith)
small_max (negsuc n) h = absurd (omega arith)

small_max_conv : (p : ℤ) → p ≡ pos 1 → or_default 200 p < max 2 (or_default 200 p / 10)
small_max_conv p e = rw e (unfold or_default in omega arith)

-- `NewController` blocks forever exactly if the configured parallelism is 1: the lower bound is 2,
-- and the second token does not fit into the channel.
pub new_controller_blocks :
    (cfg : ChainConfig) → (new_controller cfg ≡ none) ↔ (cfg.max_parallelism ≡ pos 1)
unfolding new_controller
new_controller_blocks cfg =
    let max_p = or_default 200 cfg.max_parallelism in
    let filled = fill_lem max_p (max 2 (max_p / 10)) 0 (omega arith) in
    (
      λ h. small_max cfg.max_parallelism (ground (arith, filled)),
      λ h. ground (arith, filled, small_max_conv cfg.max_parallelism h),
    )

add_slots_lem :
    (count : ℕ) (c : Controller)
    → c.semaphore ≤ c.max_parallelism
    → add_slots count c ≡ record c { semaphore = min (c.semaphore + count) c.max_parallelism }
unfolding add_slots
add_slots_lem zero c h =
    let e : c.semaphore ≡ min (c.semaphore + 0) c.max_parallelism = omega arith in
    ap (λ n. record c { semaphore = n }) e
add_slots_lem (suc count) c h = elim (Bool-cases (ltb c.semaphore c.max_parallelism)) [
  | inl free ↦
      let e : min (c.semaphore + 1 + count) c.max_parallelism
          ≡ min (c.semaphore + suc count) c.max_parallelism =
        omega arith in
      rw free (
        add_slots_lem count (record c { semaphore = c.semaphore + 1 }) (ground arith)
        ∙ ap (λ n. record c { semaphore = n }) e)
  | inr full ↦
      let e : min (c.semaphore + count) c.max_parallelism
          ≡ min (c.semaphore + suc count) c.max_parallelism =
        ground arith in
      rw full (add_slots_lem count c h ∙ ap (λ n. record c { semaphore = n }) e)
]

pub clamped_bounds :
    (n : ℕ) (c : Controller)
    → c.min_parallelism ≤ c.max_parallelism
    → (c.min_parallelism ≤ clamped n c) × (clamped n c ≤ c.max_parallelism)
unfolding clamped
clamped_bounds n c h = ground arith

-- What `set_parallel` leaves: the new value, and as many tokens more as fit.
pub set_parallel_lem :
    (n : ℕ) (c : Controller)
    → c.semaphore ≤ c.max_parallelism
    → c.current_parallel < 2 ^ 31
    → n < 2 ^ 31
    → set_parallel n c ≡ record c {
      current_parallel = n;
      semaphore = min (c.semaphore + (n - c.current_parallel)) c.max_parallelism;
    }
unfolding set_parallel
set_parallel_lem n c h k l =
    let slots = add_slots_lem (n - c.current_parallel) (record c { current_parallel = n }) h in
    let bits : n % 2 ^ 32 ≡ n = omega arith in
    rw (load_lem c k, bits)
      (elim (Bool-cases (n == c.current_parallel)) [
        | inl same ↦
            let e : n ≡ c.current_parallel = ground arith in
            let tokens : c.semaphore
                ≡ min (c.semaphore + (n - c.current_parallel)) c.max_parallelism =
              omega arith in
            rw same (ap₂ (λ m t. record c { current_parallel = m; semaphore = t }) (sym e) tokens)
        | inr other ↦ rw other slots
      ])

pub keep_metrics :
    (c : Controller) (ms : List RequestMetric) → IsValid c → IsValid (record c { metrics = ms })
keep_metrics c ms v = record {
  least = v.least;
  ordered = v.ordered;
  above = v.above;
  below = v.below;
  room = v.room;
  fits = v.fits;
}

set_parallel-IsValid :
    (n : ℕ) (c : Controller)
    → IsValid c
    → (c.min_parallelism ≤ n) × (n ≤ c.max_parallelism)
    → IsValid (set_parallel n c)
set_parallel-IsValid n c v (lo, hi) =
    rw (set_parallel_lem n c v.room (omega (arith, v.below, v.fits)) (omega (arith, hi, v.fits)))
      (omega (arith, v.least, v.ordered, v.fits))

-- An adjustment keeps the controller within its bounds, whatever the metrics and the floats are.
pub adjust-IsValid : (f : Floats) (now : ℕ) (c : Controller) → IsValid c → IsValid (adjust f now c)
unfolding adjust
adjust-IsValid f now c v =
    let kept = record c { metrics = prune now c.metrics } in
    elim (Bool-cases (ltb (length (prune now c.metrics)) 10)) [
      | inl few ↦ rw few (keep_metrics c (prune now c.metrics) v)
      | inr many ↦ rw many (
          set_parallel-IsValid
            (clamped (proposed f (count_errors kept.metrics) (p95_of f kept.metrics) kept) kept)
            kept (keep_metrics c (prune now c.metrics) v) (clamped_bounds _ kept v.ordered))
    ]
