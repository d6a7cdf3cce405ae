-- ===== src/Ingestion/Resume.antt =====
-- On evm-ingestion/main.go, `runIngestion` over pebble: where it resumes after a stream.
use l1_data_tools.Common.{
  ℕ, ◌+◌, ◌-◌, ◌≤◌, ◌<◌, ◌≡◌, List, [], ◌∷◌, none, u64, length, ltb, Bool-cases, Option-cases, inl,
  inr, arith,
}
use l1_data_tools.Storage.Pebble.{Pebble, pebble_storage, get_block}
use l1_data_tools.Storage.Pebble.Laws.{pebble_storage-IsStorage}
use l1_data_tools.Storage.Pebble.Scan.{IsOwn, save_block-IsOwn, latest_block_greatest}
use l1_data_tools.Ingestion.{Codec, Ingest, ingest_block, ingest, resume_block}
use l1_data_tools.Ingestion.Saves.{
  ingest_block-Saved, ingest-current, get_block-ingest, ingest_stores_last,
}

module _ (p : Pebble) (c : Codec) where
  ingest-IsOwn :
      (blocks : List c.Value) (s : Ingest (pebble_storage p))
      → s.current + length blocks < u64
      → IsOwn p s.store
      → IsOwn p (ingest (pebble_storage p) c blocks s).store
  unfolding ingest
  ingest-IsOwn [] s h own = own
  ingest-IsOwn (block ∷ blocks) s h own =
      elim (Option-cases (ingest_block (pebble_storage p) c block s)) [
        | inl stopped ↦ rw (stopped, ingest) own
        | inr (t, went_on) ↦
            let saved = ingest_block-Saved (pebble_storage p) c block s t went_on in
            rw (went_on, ingest)
              (ingest-IsOwn blocks t (omega (arith, saved.current_eq)) (
                save_block-IsOwn p s.current saved.data_ s.store t.store (omega arith) own
                  saved.save_eq))
      ]

  -- A stream that saves a block and stops, at whatever block: the next round resumes at the block
  -- that the loop would have saved next. The database holds the program's own keys, with no block
  -- at the first position or beyond, and the numbers stay below 2^64.
  pub resume_block-ingest :
      (blocks : List c.Value) (s : Ingest (pebble_storage p))
      → s.current + length blocks < u64
      → IsOwn p s.store
      → ((m : ℕ) → s.current ≤ m → m < u64 → get_block p m s.store ≡ none)
      → s.current < (ingest (pebble_storage p) c blocks s).current
      → resume_block (pebble_storage p) (ingest (pebble_storage p) c blocks s).store
        ≡ (ingest (pebble_storage p) c blocks s).current
  unfolding resume_block
  resume_block-ingest blocks s h own empty moved =
      let t = ingest (pebble_storage p) c blocks s in
      let (first, last) = ingest-current (pebble_storage p) c blocks s h in
      let (d, stored) =
        ingest_stores_last (pebble_storage p) c blocks s (pebble_storage-IsStorage p) h moved in
      let (n, small, latest, above, e, there) =
        latest_block_greatest p t.store (t.current - 1) d (ingest-IsOwn blocks s h own)
          (omega arith) stored in
      let kept =
        get_block-ingest (pebble_storage p) c blocks s n (pebble_storage-IsStorage p) h small in
      rw (latest, resume_block)
        (elim (Bool-cases (ltb n t.current)) [
          | inl before ↦ ground arith
          | inr beyond ↦
              let none_there : get_block p n s.store ≡ none = empty n (ground arith) small in
              absurd (ground (arith, kept, there, none_there))
        ])
