-- ===== src/Storage/Compactor/Reads.antt =====
-- What a reader gets for a block number, before and after a compaction.
use l1_data_tools.Common.{
  ℕ, zero, suc, ◌+◌, ◌≤◌, ◌<◌, ◌≡◌, refl, sym, inl, inr, some, arith, u64, Option-cases, subst,
}
use l1_data_tools.Storage.Batch.{batch_start, Zstd}
use l1_data_tools.Storage.Batch.Bounds.{batch_start_closed, batch_end_lem}
use l1_data_tools.Storage.Interface.{Storage, IsStorage}
use l1_data_tools.Storage.Compactor.{compact_batch, compact_from, compact_one_batch}
use l1_data_tools.Storage.Compactor.Runs.{HasLines}
use l1_data_tools.Storage.Compactor.ReadBack.{read_back, IsStart, read_back-compact_batch}

batch_start_zero : batch_start 0 ≡ 1
unfolding batch_start
batch_start_zero = refl

IsStart-batch_start : (f : ℕ) → f + 1200 < u64 → IsStart (batch_start f)
IsStart-batch_start zero h = record {
  positive = rw batch_start_zero (omega arith);
  aligned = rw batch_start_zero refl;
  room = rw batch_start_zero (omega arith);
}
IsStart-batch_start (suc f) h =
    let e = batch_start_closed (suc f) (omega arith) (omega arith) in
    record { positive = omega arith; aligned = omega arith; room = omega arith }

module _ (z : Zstd) (st : Storage) (laws : IsStorage st) where
  read_back-compact_from :
      (first latest n : ℕ) (s : st.State)
      → HasLines st s
      → first + 1200 < u64
      → 1 ≤ n
      → n + 99 < u64
      → read_back z st n (compact_from z st first latest s).1 ≡ read_back z st n s
  unfolding compact_from
  read_back-compact_from first latest n s lines room hn hu =
      let start = IsStart-batch_start first room in
      let same =
        subst
          (λ e.
            read_back z st n (compact_batch z st (batch_start first) e s).1 ≡ read_back z st n s)
          (sym (batch_end_lem (batch_start first) (omega (arith, start.room))))
          (read_back-compact_batch z st laws (batch_start first) n s lines start hn hu) in
      ground (arith, same)

  -- Whatever step of a compaction fails, and if none does, each block number from 1 on reads as it
  -- did before: no block is lost and none changes. The hypotheses are that each stored block is one
  -- line of JSON and that the first one is away from the wrap-around.
  pub read_back-compact_one_batch :
      (n : ℕ) (s : st.State)
      → HasLines st s
      → ((first : ℕ) → st.first_block s ≡ some first → first + 1200 < u64)
      → 1 ≤ n
      → n + 99 < u64
      → read_back z st n (compact_one_batch z st s).1 ≡ read_back z st n s
  unfolding compact_one_batch
  read_back-compact_one_batch n s lines room hn hu = elim (Option-cases (st.first_block s)) [
    | inl e ↦ rw (e, compact_one_batch) refl
    | inr (first, e) ↦ elim (Option-cases (st.latest_block s)) [
      | inl e' ↦ rw (e, compact_one_batch) (rw (e', compact_one_batch) refl)
      | inr (latest, e') ↦
          rw (e, compact_one_batch)
            (rw (e', compact_one_batch)
              (read_back-compact_from first latest n s lines (room first e) hn hu))
    ]
  ]
