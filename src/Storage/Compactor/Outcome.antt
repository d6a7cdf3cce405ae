-- ===== src/Storage/Compactor/Outcome.antt =====
-- The ways in which a compaction can end: each guard, each failing write, and success.
use l1_data_tools.Common.{
  ℕ, ◌+◌, ◌≡◌, refl, sym, inl, inr, Bool, true, false, List, none, some, ◌>>=◌, Bytes, add64, sub64,
  ltb, Bool-cases, Option-cases, >>=-eq-some, subst,
}
use l1_data_tools.Storage.Batch.{batch_size, batch_start, batch_end, Zstd, compress_blocks}
use l1_data_tools.Storage.Interface.{Storage}
use l1_data_tools.Storage.Compactor.{
  min_blocks, read_blocks, delete_blocks, save_compacted, compact_batch, compact_from,
  compact_one_batch,
}

module _ (z : Zstd) (st : Storage) where
  -- How the three writes of a compaction can end.
  pub data Outcome (a b : ℕ) (frame : Bytes) (s : st.State) (r : Bool × st.State) : Type 0 where
    batch_failed : st.save_batch a b frame s ≡ none → r ≡ (false, s) → Outcome a b frame s r
    meta_failed :
        (t : st.State)
        → st.save_batch a b frame s ≡ some t
        → st.save_meta b t ≡ none
        → r ≡ (false, t)
        → Outcome a b frame s r
    delete_failed :
        (t u : st.State)
        → st.save_batch a b frame s ≡ some t
        → st.save_meta b t ≡ some u
        → st.delete_block_range a b u ≡ none
        → r ≡ (true, u)
        → Outcome a b frame s r
    done :
        (t u v : st.State)
        → st.save_batch a b frame s ≡ some t
        → st.save_meta b t ≡ some u
        → st.delete_block_range a b u ≡ some v
        → r ≡ (true, v)
        → Outcome a b frame s r

  outcome :
      (a b : ℕ) (frame : Bytes) (s : st.State)
      → Outcome a b frame s (save_compacted z st a b frame s)
  unfolding save_compacted delete_blocks
  outcome a b frame s = elim (Option-cases (st.save_batch a b frame s)) [
    | inl e ↦ batch_failed e (rw (e, save_compacted) refl)
    | inr (t, e) ↦ elim (Option-cases (st.save_meta b t)) [
      | inl e' ↦ meta_failed t e e' (rw (e, save_compacted) (rw (e', save_compacted) refl))
      | inr (u, e') ↦ elim (Option-cases (st.delete_block_range a b u)) [
        | inl e'' ↦
            delete_failed t u e e' e''
              (rw (e, save_compacted) (rw (e', save_compacted) (rw (e'', delete_blocks) refl)))
        | inr (v, e'') ↦
            done t u v e e' e''
              (rw (e, save_compacted) (rw (e', save_compacted) (rw (e'', delete_blocks) refl)))
      ]
    ]
  ]

  -- The run that a compaction reads, and the frame that it makes of it.
  pub record Run (a : ℕ) (s : st.State) (frame : Bytes) : Type 0 where
    pub blocks : List Bytes
    pub read : read_blocks z st a batch_size s ≡ some blocks
    pub encoded : compress_blocks z blocks ≡ some frame

  -- How a compaction can end.
  pub data Attempt (s : st.State) (r : Bool × st.State) : Type 0 where
    skipped : r ≡ (false, s) → Attempt s r
    wrote :
        (first latest : ℕ) (frame : Bytes)
        → st.first_block s ≡ some first
        → st.latest_block s ≡ some latest
        → ltb latest (add64 (batch_end (batch_start first)) min_blocks) ≡ false
        → Run (batch_start first) s frame
        → Outcome (batch_start first) (batch_end (batch_start first)) frame s r
        → Attempt s r

  attempt_batch :
      (first latest : ℕ) (s : st.State)
      → st.first_block s ≡ some first
      → st.latest_block s ≡ some latest
      → ltb latest (add64 (batch_end (batch_start first)) min_blocks) ≡ false
      → Attempt s (compact_batch z st (batch_start first) (batch_end (batch_start first)) s)
  unfolding compact_batch
  attempt_batch first latest s e e' far =
      elim (Option-cases
        (read_blocks z st (batch_start first) batch_size s >>= compress_blocks z)) [
          | inl e'' ↦ skipped (rw (e'', compact_batch) refl)
          | inr (frame, e'') ↦
              let (blocks, read, encoded) =
                >>=-eq-some (read_blocks z st (batch_start first) batch_size s) _ e'' in
              wrote first latest frame e e' far
                (record { blocks = blocks; read = read; encoded = encoded })
                (subst (Outcome _ _ frame s) (sym (rw (e'', compact_batch) refl))
                  (outcome _ _ frame s))
        ]

  attempt_from :
      (first latest : ℕ) (s : st.State)
      → st.first_block s ≡ some first
      → st.latest_block s ≡ some latest
      → Attempt s (compact_from z st first latest s)
  unfolding compact_from
  attempt_from first latest s e e' =
      elim (Bool-cases (ltb (add64 (sub64 latest first) 1) (min_blocks + batch_size))) [
        | inl few ↦ skipped (rw few refl)
        | inr many ↦
            elim (Bool-cases (ltb latest (add64 (batch_end (batch_start first)) min_blocks))) [
              | inl close ↦ skipped (rw (many, close) refl)
              | inr far ↦ rw (many, far) (attempt_batch first latest s e e' far)
            ]
      ]

  pub attempt : (s : st.State) → Attempt s (compact_one_batch z st s)
  unfolding compact_one_batch
  attempt s = elim (Option-cases (st.first_block s)) [
    | inl e ↦ skipped (rw (e, compact_one_batch) refl)
    | inr (first, e) ↦ elim (Option-cases (st.latest_block s)) [
      | inl e' ↦ skipped (rw (e, compact_one_batch) (rw (e', compact_one_batch) refl))
      | inr (latest, e') ↦
          rw (e, compact_one_batch) (rw (e', compact_one_batch) (attempt_from first latest s e e'))
    ]
  ]
