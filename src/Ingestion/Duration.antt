-- ===== src/Ingestion/Duration.antt =====
-- On evm-ingestion/main.go, `formatDuration`: the numbers that it prints.
use l1_data_tools.Common.{ℕ, ◌+◌, ◌-◌, ◌*◌, ◌/◌, ◌≤◌, ◌<◌, ltb, Bool-cases, inl, inr, arith}
use l1_data_tools.Ingestion.{
  round, second, minute, hour, Shown, seconds, days, hours, minutes, format_duration,
}

-- `Shows d s`: each number of `s` is within its clock range, from a minute on the first is not zero,
-- and together they are `d` to within half of the unit.
pub data Shows (d : ℕ) : Shown → Type 0 where
  by_seconds :
      (n : ℕ) → n ≤ 60 * second → n ≤ d + second / 2 → d ≤ n + second / 2 → Shows d (seconds n)
  by_days :
      (x y z : ℕ)
      → 0 < x
      → y < 24
      → z < 60
      → x * (24 * hour) + y * hour + z * minute ≤ d + minute / 2
      → d ≤ x * (24 * hour) + y * hour + z * minute + minute / 2
      → Shows d (days x y z)
  by_hours :
      (y z : ℕ)
      → 0 < y
      → y < 24
      → z < 60
      → y * hour + z * minute ≤ d + minute / 2
      → d ≤ y * hour + z * minute + minute / 2
      → Shows d (hours y z)
  by_minutes :
      (z : ℕ)
      → 0 < z
      → z < 60
      → z * minute ≤ d + minute / 2
      → d ≤ z * minute + minute / 2
      → Shows d (minutes z)

-- The numbers that are printed for a duration that is not negative are in their clock ranges, and
-- together they give the duration to within half of the smallest unit.
pub format_duration-Shows : (d : ℕ) → Shows d (format_duration d)
unfolding format_duration
format_duration-Shows d = elim (Bool-cases (ltb d minute)) [
  | inl short ↦ rw short (by_seconds (round d second) (ground arith) (omega arith) (omega arith))
  | inr long ↦
      let h : minute ≤ d = ground arith in
      let d1 = round d minute in
      let d2 = d1 - d1 / (24 * hour) * (24 * hour) in
      let d3 = d2 - d2 / hour * hour in
      elim (Bool-cases (ltb 0 (d1 / (24 * hour)))) [
        | inl some_days ↦
            rw (long, some_days)
              (by_days (d1 / (24 * hour)) (d2 / hour) (d3 / minute) (ground arith) (omega arith)
                (omega arith) (omega arith) (omega arith))
        | inr no_days ↦ elim (Bool-cases (ltb 0 (d2 / hour))) [
          | inl some_hours ↦
              rw (long, no_days, some_hours)
                (by_hours (d2 / hour) (d3 / minute) (ground arith) (omega arith) (omega arith)
                  (ground arith) (ground arith))
          | inr no_hours ↦
              rw (long, no_days, no_hours)
                (by_minutes (d3 / minute) (ground arith) (omega arith) (ground arith)
                  (ground arith))
        ]
      ]
]
