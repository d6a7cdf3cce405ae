-- ===== src/Rpc/Examples/Slots.antt =====
-- Examples for the controller.
use l1_data_tools.Common.{
  ◌^◌, ◌≤◌, ◌<◌, ◌+◌, ◌≡◌, ◌⊎◌, refl, true, List, [], ◌∷◌, some, arith, length,
}
use l1_data_tools.Common.Int.{pos}
use l1_data_tools.Rpc.Controller.{
  RequestMetric, ChainConfig, Controller, Floats, new_controller, or_default, fill, prune,
  valid_start, adjust, acquire, release, set_parallel, add_slots, clamped, proposed, count_errors,
  p95_of, sort, insert_sorted, at_or_zero, load,
}
use l1_data_tools.Rpc.Controller.Bounds.{IsValid, new_controller-IsValid}
use l1_data_tools.Rpc.Controller.Moves.{Moved, adjust_moves}
use l1_data_tools.Rpc.Controller.Slots.{
  Step, Reach, Reach-IsValid, Step-slots, slots, adjust_exceeds,
}

abbrev config : ChainConfig
config = record { max_parallelism = pos 30; max_latency_ms = pos 0 }

abbrev started : Controller
started = record {
  max_parallelism = 30;
  min_parallelism = 3;
  target_latency = 500000000;
  max_latency = 1000000000;
  current_parallel = 3;
  semaphore = 3;
  metrics = [];
}

fits_config : or_default 200 config.max_parallelism < 2 ^ 31
unfolding or_default
fits_config = omega arith

config_starts : new_controller config ≡ some started
unfolding new_controller or_default fill
config_starts = refl

abbrev whole : Floats
whole = record { p95_index = λ n. n; raw_growth = λ p95 target. 1 }

abbrev metric : RequestMetric
metric = record { timestamp = 7; duration = 1000; success = true }

-- Ten quick requests, with every token in use.
abbrev all_used : Controller
all_used = record {
  max_parallelism = 30;
  min_parallelism = 3;
  target_latency = 500000000;
  max_latency = 1000000000;
  current_parallel = 10;
  semaphore = 0;
  metrics =
      metric ∷ metric ∷ metric ∷ metric ∷ metric ∷ metric ∷ metric ∷ metric ∷ metric ∷ metric ∷ [];
}

all_used-IsValid : IsValid all_used
all_used-IsValid = record {
  least = omega arith;
  ordered = omega arith;
  above = omega arith;
  below = omega arith;
  room = omega arith;
  fits = omega arith;
}

ten_kept : 10 ≤ length (prune 8 all_used.metrics)
unfolding prune valid_start
ten_kept = omega arith

adjust_moves_example :
    Moved whole (prune 8 all_used.metrics) all_used (adjust whole 8 all_used).current_parallel
adjust_moves_example = adjust_moves whole 8 all_used all_used-IsValid ten_kept

raised : 10 < (adjust whole 8 all_used).current_parallel
unfolding adjust load prune valid_start set_parallel add_slots clamped proposed count_errors p95_of
    sort insert_sorted at_or_zero
raised = omega arith

adjust_exceeds_example :
    30 < slots (record { controller = adjust whole 8 all_used; in_flight = 30 })
adjust_exceeds_example =
    adjust_exceeds whole 8 (record { controller = all_used; in_flight = 30 }) all_used-IsValid refl
      refl raised

abbrev two_free : Controller
two_free = record started { semaphore = 2 }

-- A request starts and ends.
one_request :
    Reach
      (record { controller = started; in_flight = 0 })
      (record { controller = release two_free; in_flight = 0 })
unfolding acquire
one_request =
    Reach.next {q = record { controller = two_free; in_flight = 1 }}
      (Reach.next Reach.here (Step.acquired refl refl)) (Step.released refl refl)

Reach-IsValid_example : IsValid (release two_free)
Reach-IsValid_example = Reach-IsValid config started fits_config config_starts one_request

Step-slots_example :
    (0 + 30 ≤ slots (record { controller = release all_used; in_flight = 29 }))
    ⊎ ((all_used.semaphore ≡ all_used.max_parallelism)
        × (0 + 30 ≡ slots (record { controller = release all_used; in_flight = 29 }) + 1))
Step-slots_example =
    Step-slots (record { controller = all_used; in_flight = 30 })
      (record { controller = release all_used; in_flight = 29 }) (Step.released refl refl)
      all_used-IsValid

abbrev two_metrics : List RequestMetric
two_metrics = metric ∷ record metric { timestamp = 9 } ∷ []

started-IsValid : IsValid started
started-IsValid = (new_controller-IsValid config started fits_config config_starts).0
