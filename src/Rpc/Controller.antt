-- ===== src/Rpc/Controller.antt =====
-- evm-ingestion/rpc/controller.go: adaptive parallelism. Times and durations are in nanoseconds.
pub mod Bounds
pub mod Moves
pub mod Slots
pub mod Window
use l1_data_tools.Common.{
  ℕ, zero, suc, ◌+◌, ◌-◌, ◌*◌, ◌/◌, ◌%◌, ◌^◌, ◌≤◌, ◌<◌, ◌≡◌, Bool, true, false, not, ◌&&◌, List, [],
  ◌∷◌, ◌++◌, Option, none, some, ◌>>=◌, max, min, length, drop, map, get_elem?, ltb, leb, ◌==◌,
  if◌then◌else◌,
}
use l1_data_tools.Common.Int.{ℤ, pos, negsuc}

pub record RequestMetric : Type 0 where
  pub timestamp : ℕ
  pub duration : ℕ
  pub success : Bool

-- The fields of `ChainConfig` that the controller reads.
pub record ChainConfig : Type 0 where
  pub max_parallelism : ℤ
  pub max_latency_ms : ℤ

pub record Controller : Type 0 where
  pub max_parallelism : ℕ
  pub min_parallelism : ℕ
  pub target_latency : ℕ
  pub max_latency : ℕ
  -- the 32 bits of the atomic int32
  pub current_parallel : ℕ
  -- how many tokens lie in the channel, whose capacity is `max_parallelism`
  pub semaphore : ℕ
  pub metrics : List RequestMetric

abbrev pub millisecond : ℕ
millisecond = 10 ^ 6

-- consts.RPCDefaultMaxParallelism, RPCMaxLatency, RPCMaxErrorsPerMinute and RPCMetricsWindow
abbrev pub default_max_parallelism : ℕ
default_max_parallelism = 200

abbrev pub default_max_latency_ms : ℕ
default_max_latency_ms = 1000

abbrev pub max_errors_per_min : ℕ
max_errors_per_min = 10

abbrev pub metrics_window : ℕ
metrics_window = 60000 * millisecond

-- `int32(n)`: the lower 32 bits.
abbrev pub int32 : ℕ → ℕ
int32 n = n % 2 ^ 32

-- `int(c.currentParallel.Load())`, where the highest of the 32 bits is the sign.
unfoldable pub load : Controller → ℤ
load c =
    if ltb c.current_parallel (2 ^ 31)
    then pos c.current_parallel
    else negsuc (2 ^ 32 - 1 - c.current_parallel)

-- A setting that is not positive is replaced by its default.
unfoldable pub or_default : ℕ → ℤ → ℕ
or_default default (pos zero) = default
or_default default (pos (suc n)) = suc n
or_default default (negsuc n) = default

-- The sends of the loop that fills the channel; `none`: a send on the full channel blocks forever,
-- since nobody receives yet.
unfoldable pub fill : ℕ → ℕ → ℕ → Option ℕ
fill capacity zero tokens = some tokens
fill capacity (suc count) tokens =
    let rest = fill capacity count (tokens + 1) in if ltb tokens capacity then rest else none

unfoldable pub new_controller : ChainConfig → Option Controller
unfolding or_default fill
new_controller cfg =
    let max_p = or_default default_max_parallelism cfg.max_parallelism in
    let max_latency = or_default default_max_latency_ms cfg.max_latency_ms * millisecond in
    let min_p = max 2 (max_p / 10) in
    do
      tokens ← fill max_p min_p 0
      some (record {
        max_parallelism = max_p;
        min_parallelism = min_p;
        target_latency = max_latency / 2;
        max_latency = max_latency;
        current_parallel = int32 min_p;
        semaphore = tokens;
        metrics = [];
      })

-- `sort.Slice` on durations.
unfoldable pub insert_sorted : ℕ → List ℕ → List ℕ
insert_sorted x [] = x ∷ []
insert_sorted x (y ∷ ys) = let rest = insert_sorted x ys in if leb x y then x ∷ y ∷ ys else y ∷ rest

unfoldable pub sort : List ℕ → List ℕ
unfolding insert_sorted
sort [] = []
sort (x ∷ xs) = insert_sorted x (sort xs)

-- What the code computes with floats: `int(float64(n) * 0.95)`, and `int(1.0 / (ratio + 0.1))` for
-- the ratio of two latencies. The theorems hold whatever the rounding gives.
pub record Floats : Type 0 where
  pub p95_index : ℕ → ℕ
  pub raw_growth : ℕ → ℕ → ℕ

unfoldable pub at_or_zero : Option ℕ → ℕ
at_or_zero none = 0
at_or_zero (some d) = d

unfoldable pub p95_of : Floats → List RequestMetric → ℕ
unfolding sort at_or_zero
p95_of f metrics =
    let durations = sort (map (λ (m : RequestMetric). m.duration) metrics) in
    let idx = f.p95_index (length durations) in
    at_or_zero
      (get_elem? durations (if leb (length durations) idx then length durations - 1 else idx))

unfoldable pub p95_latency : Floats → Controller → ℕ
p95_latency f c = if ltb (length c.metrics) 10 then 0 else p95_of f c.metrics

-- `Acquire` takes a token, or waits (`none`) while there is none.
unfoldable pub acquire : Controller → Option Controller
acquire c = if ltb 0 c.semaphore then some (record c { semaphore = c.semaphore - 1 }) else none

-- A token is put back unless the channel is full.
unfoldable pub release : Controller → Controller
release c =
    if ltb c.semaphore c.max_parallelism then record c { semaphore = c.semaphore + 1 } else c

unfoldable pub record_metric : ℕ → ℕ → Bool → Controller → Controller
record_metric now duration success c = record c {
  metrics = c.metrics ++ (record { timestamp = now; duration = duration; success = success }) ∷ [];
}

-- `Execute`, with nobody else at work: a token is taken, the function runs, its result is recorded,
-- and the token is given back, as `defer` has it, at the end. `none`: it waits for a token.
unfoldable pub execute : ℕ → ℕ → Bool → Controller → Option Controller
execute now duration success c = do
  holding ← acquire c
  some (release (record_metric now duration success holding))

-- `m.Timestamp.After(cutoff)` with the cutoff a window before `now`.
abbrev pub in_window : ℕ → RequestMetric → Bool
in_window now m = ltb now (m.timestamp + metrics_window)

-- The loop that finds the first metric to keep; `i` is the index of the head.
unfoldable pub valid_start : ℕ → ℕ → List RequestMetric → ℕ
valid_start now i [] = 0
valid_start now i (m ∷ []) = if in_window now m then i else i + 1
valid_start now i (m ∷ n ∷ metrics) =
    let rest = valid_start now (i + 1) (n ∷ metrics) in if in_window now m then i else rest

unfoldable pub prune : ℕ → List RequestMetric → List RequestMetric
unfolding valid_start
prune now metrics = drop (valid_start now 0 metrics) metrics

unfoldable pub count_errors : List RequestMetric → ℕ
count_errors [] = 0
count_errors (m ∷ metrics) = count_errors metrics + (if m.success then 0 else 1)

-- What the decision makes of the current value. The results may be negative in the source; the lower
-- bound, at least 2, then replaces them, as it does 0 here.
abbrev pub halved : ℤ → ℕ
halved (pos n) = n / 2
halved (negsuc n) = 0

abbrev pub lowered : ℤ → ℕ
lowered (pos n) = n - 2
lowered (negsuc n) = 0

abbrev pub raised : ℤ → ℕ → ℕ
raised (pos n) growth = n + growth
raised (negsuc n) growth = growth - suc n

-- The decision.
unfoldable pub proposed : Floats → ℕ → ℕ → Controller → ℕ
unfolding load
proposed f errors p95 c =
    let growth = f.raw_growth p95 c.target_latency in
    let at_least = if ltb growth 1 then 1 else growth in
    let at_most = if ltb 20 at_least then 20 else at_least in
    if ltb max_errors_per_min errors
    then halved (load c)
    else if ltb c.max_latency p95
    then lowered (load c)
    else if ltb p95 c.target_latency
    then raised (load c) at_most
    else raised (load c) 0

unfoldable pub clamped : ℕ → Controller → ℕ
clamped new_parallel c =
    let raised = if ltb new_parallel c.min_parallelism then c.min_parallelism else new_parallel in
    if ltb c.max_parallelism raised then c.max_parallelism else raised

-- `count` sends that are skipped while the channel is full.
unfoldable pub add_slots : ℕ → Controller → Controller
add_slots zero c = c
add_slots (suc count) c =
    add_slots count
      (if ltb c.semaphore c.max_parallelism then record c { semaphore = c.semaphore + 1 } else c)

abbrev pub is_now : ℕ → ℤ → Bool
is_now n (pos m) = n == m
is_now n (negsuc m) = false

-- `newParallel - current`, where it is positive, and 0 elsewhere.
abbrev pub above_now : ℕ → ℤ → ℕ
above_now n (pos m) = n - m
above_now n (negsuc m) = n + suc m

-- A lower value takes no token out of the channel.
unfoldable pub set_parallel : ℕ → Controller → Controller
unfolding add_slots load
set_parallel new_parallel c =
    let updated = record c { current_parallel = int32 new_parallel } in
    if is_now new_parallel (load c) then c else add_slots (above_now new_parallel (load c)) updated

unfoldable pub adjust : Floats → ℕ → Controller → Controller
adjust f now c =
    let kept = record c { metrics = prune now c.metrics } in
    if ltb (length kept.metrics) 10
    then kept
    else set_parallel
        (clamped (proposed f (count_errors kept.metrics) (p95_of f kept.metrics) kept) kept) kept
