-- ===== src/Rpc/Controller/Slots.antt =====
-- Tokens and requests in flight, over any sequence of steps of the controller and its callers.
use l1_data_tools.Common.{
  ℕ, ◌^◌, ◌+◌, ◌-◌, ◌≤◌, ◌<◌, ◌≡◌, refl, sym, ap, ◌∙◌, Bool, true, [], ◌∷◌, some, arith, min,
  length, length-append, ◌++◌, ltb, Bool-cases, inl, inr, ◌⊎◌, subst, ltb→lt,
}
use l1_data_tools.Rpc.Controller.{
  ChainConfig, Controller, new_controller, Floats, prune, adjust, acquire, release, record_metric,
  execute, RequestMetric, or_default,
}
use l1_data_tools.Rpc.Controller.Bounds.{
  IsValid, new_controller-IsValid, adjust-IsValid, set_parallel_lem, keep_metrics, clamped_bounds,
}

-- The controller, and how many callers hold a token.
pub record Pool : Type 0 where
  pub controller : Controller
  pub in_flight : ℕ

-- What can happen: a caller takes a token, or gives its own back when its request has ended, the
-- result of a request is recorded, and the controller adjusts itself.
pub data Step (p q : Pool) : Type 0 where
  acquired : acquire p.controller ≡ some q.controller → q.in_flight ≡ p.in_flight + 1 → Step p q
  released : q.controller ≡ release p.controller → p.in_flight ≡ q.in_flight + 1 → Step p q
  recorded :
      (now duration : ℕ) (success : Bool)
      → q.controller ≡ record_metric now duration success p.controller
      → q.in_flight ≡ p.in_flight
      → Step p q
  adjusted :
      (f : Floats) (now : ℕ)
      → q.controller ≡ adjust f now p.controller
      → q.in_flight ≡ p.in_flight
      → Step p q

pub data Reach (p : Pool) : Pool → Type 0 where
  here : Reach p p
  next : {q r : Pool} → Reach p q → Step q r → Reach p r

-- How many requests can run at once: those in flight and the free tokens.
abbrev pub slots : Pool → ℕ
slots p = p.controller.semaphore + p.in_flight

-- An adjustment adds a token for each unit by which it raises the parallelism, up to the capacity,
-- and takes none away.
adjust_tokens :
    (f : Floats) (now : ℕ) (c : Controller)
    → IsValid c
    → (adjust f now c).semaphore
      ≡ min
          (c.semaphore + ((adjust f now c).current_parallel - c.current_parallel))
          c.max_parallelism
unfolding adjust
adjust_tokens f now c v = elim (Bool-cases (ltb (length (prune now c.metrics)) 10)) [
  | inl few ↦ rw few (omega (arith, v.room))
  | inr many ↦ rw many (
      subst
        (λ (x : Controller).
          x.semaphore
          ≡ min (c.semaphore + (x.current_parallel - c.current_parallel)) c.max_parallelism)
        (sym (
          set_parallel_lem _ (record c { metrics = prune now c.metrics }) v.room
            (omega (arith, v.below, v.fits))
            (omega (
              arith,
              v.fits,
              (clamped_bounds _ (record c { metrics = prune now c.metrics }) v.ordered).1,
            ))))
        refl)
]

acquire_lem :
    (c d : Controller)
    → acquire c ≡ some d
    → IsValid c
    → IsValid d × (c.semaphore ≡ d.semaphore + 1) × (d.max_parallelism ≡ c.max_parallelism)
unfolding acquire
acquire_lem c d h v = ground arith

-- A token that is given back is discarded only where the channel is full.
release_lem :
    (c : Controller)
    → IsValid c
    → IsValid (release c)
      × (((release c).semaphore ≡ c.semaphore + 1)
          ⊎ ((c.semaphore ≡ c.max_parallelism) × ((release c).semaphore ≡ c.semaphore)))
unfolding release
release_lem c v = elim (Bool-cases (ltb c.semaphore c.max_parallelism)) [
  | inl free ↦ rw free (
    omega (
      arith,
      v.least,
      v.ordered,
      v.above,
      v.below,
      v.fits,
      ltb→lt c.semaphore c.max_parallelism free,
    ),
    inl refl,
  )
  | inr full ↦ rw full (v, inr (ground (arith, v.room), refl))
]

record_lem :
    (now duration : ℕ) (success : Bool) (c : Controller)
    → IsValid c
    → IsValid (record_metric now duration success c)
      × ((record_metric now duration success c).semaphore ≡ c.semaphore)
      × ((record_metric now duration success c).max_parallelism ≡ c.max_parallelism)
unfolding record_metric
record_lem now duration success c v = (keep_metrics c _ v, refl, refl)

Step-IsValid : (p q : Pool) → Step p q → IsValid p.controller → IsValid q.controller
Step-IsValid p q (acquired e n) v = (acquire_lem p.controller q.controller e v).0
Step-IsValid p q (released e n) v = subst IsValid (sym e) (release_lem p.controller v).0
Step-IsValid p q (recorded now duration success e n) v =
    subst IsValid (sym e) (record_lem now duration success p.controller v).0
Step-IsValid p q (adjusted f now e n) v =
    subst IsValid (sym e) (adjust-IsValid f now p.controller v)

-- From the start of a controller on, with a maximum below 2^31, whatever happens, the parallelism
-- stays within its bounds and the channel within its capacity.
pub Reach-IsValid :
    (cfg : ChainConfig) (c : Controller) {q : Pool}
    → or_default 200 cfg.max_parallelism < 2 ^ 31
    → new_controller cfg ≡ some c
    → Reach (record { controller = c; in_flight = 0 }) q
    → IsValid q.controller
Reach-IsValid cfg c fits e here = (new_controller-IsValid cfg c fits e).0
Reach-IsValid cfg c fits e (next r st) = Step-IsValid _ _ st (Reach-IsValid cfg c fits e r)

-- The number of requests that can run at once falls only where a token comes back to a channel that
-- is full, and then by one. The controller is within its bounds.
pub Step-slots :
    (p q : Pool)
    → Step p q
    → IsValid p.controller
    → (slots p ≤ slots q)
      ⊎ ((p.controller.semaphore ≡ p.controller.max_parallelism) × (slots p ≡ slots q + 1))
Step-slots p q (acquired e n) v =
    let (_, tokens, _) = acquire_lem p.controller q.controller e v in inl (omega arith)
Step-slots p q (released e n) v =
    let tokens = ap (λ (c : Controller). c.semaphore) e in
    elim (release_lem p.controller v).1 [
      | inl back ↦ inl (omega (arith, tokens, back))
      | inr full ↦ inr (full.0, omega (arith, tokens, full.1))
    ]
Step-slots p q (recorded now duration success e n) v =
    let tokens =
      ap (λ (c : Controller). c.semaphore) e ∙ (record_lem now duration success p.controller v).1 in
    inl (omega arith)
Step-slots p q (adjusted f now e n) v =
    let tokens = ap (λ (c : Controller). c.semaphore) e in
    inl (omega (arith, tokens, adjust_tokens f now p.controller v, v.room))

-- With every slot in use at the maximum, an adjustment that raises the parallelism again puts new
-- tokens into the channel, so that more than the maximum can run at once.
pub adjust_exceeds :
    (f : Floats) (now : ℕ) (p : Pool)
    → IsValid p.controller
    → p.controller.semaphore ≡ 0
    → p.in_flight ≡ p.controller.max_parallelism
    → p.controller.current_parallel < (adjust f now p.controller).current_parallel
    → p.controller.max_parallelism
      < slots (record { controller = adjust f now p.controller; in_flight = p.in_flight })
adjust_exceeds f now p v none_free all_used raised =
    omega (arith, adjust_tokens f now p.controller v, v.least, v.ordered)

-- With a token free, a request that runs through `Execute` gives its token back, leaves the
-- parallelism as it was, and adds one metric.
pub execute_lem :
    (now duration : ℕ) (success : Bool) (c : Controller)
    → IsValid c
    → 0 < c.semaphore
    → (d : Controller) × (execute now duration success c ≡ some d)
      × IsValid d
      × (d.semaphore ≡ c.semaphore)
      × (d.current_parallel ≡ c.current_parallel)
      × (length d.metrics ≡ length c.metrics + 1)
unfolding execute acquire release record_metric
execute_lem now duration success c v free =
    let some_free : ltb 0 c.semaphore ≡ true = ground arith in
    let room : ltb (c.semaphore - 1) c.max_parallelism ≡ true = ground (arith, v.room) in
    let m : RequestMetric = record { timestamp = now; duration = duration; success = success } in
    (
      record c { semaphore = c.semaphore - 1 + 1; metrics = c.metrics ++ m ∷ [] },
      (rw (some_free, acquire) (rw (room, release) refl)),
      record {
        least = v.least;
        ordered = v.ordered;
        above = v.above;
        below = v.below;
        room = omega (arith, v.room, free);
        fits = v.fits;
      },
      omega (arith, free),
      refl,
      length-append c.metrics (m ∷ []),
    )
