-- ===== src/Storage/Batch/Bounds.antt =====
-- Which blocks a batch holds, with the wrap-around of uint64.
use l1_data_tools.Common.{ℕ, ◌+◌, ◌-◌, ◌*◌, ◌/◌, ◌≤◌, ◌<◌, ◌≡◌, ◌↔◌, arith, u64}
use l1_data_tools.Storage.Batch.{batch_start, batch_end}

pub batch_start_closed : (n : ℕ) → 1 ≤ n → n < u64 → batch_start n ≡ (n - 1) / 100 * 100 + 1
unfolding batch_start
batch_start_closed n hn nf = ground arith

-- The batches partition the block numbers from 1 on: a block lies in the batch that it is assigned
-- to, and the blocks assigned to that batch are the ones that lie in it.
batch_start_partition :
    (n m : ℕ)
    → 1 ≤ n
    → n < u64
    → 1 ≤ m
    → m < u64
    → (batch_start n ≤ n)
      × (n ≤ batch_start n + 99)
      × (((batch_start n ≤ m) × (m ≤ batch_start n + 99)) ↔ (batch_start m ≡ batch_start n))
batch_start_partition n m hn nf hm mf =
    let e = batch_start_closed n hn nf in
    let e' = batch_start_closed m hm mf in
    (omega arith, omega arith, (λ h. omega arith, λ h. (omega arith, omega arith)))

-- The end of a batch does not wrap around while the batch fits into uint64.
pub batch_end_lem : (n : ℕ) → n + 99 < u64 → batch_end n ≡ n + 99
unfolding batch_end
batch_end_lem n h = omega arith
