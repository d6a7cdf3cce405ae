-- ===== src/Pipeline/Compaction.antt =====
-- On `compactOneBatch` of evm-ingestion/storage/compactor.go: a compaction that nothing comes between,
-- as steps.
use l1_data_tools.Common.{ℕ, ◌≡◌, refl, sym, Bool, Bytes, subst}
use l1_data_tools.Storage.Batch.{Zstd, batch_start, batch_end}
use l1_data_tools.Storage.Interface.{Storage}
use l1_data_tools.Storage.Compactor.{compact_one_batch}
use l1_data_tools.Storage.Compactor.Outcome.{
  Outcome, batch_failed, meta_failed, delete_failed, done, Attempt, skipped, wrote, attempt,
}
use l1_data_tools.Ingestion.{Codec}
use l1_data_tools.Pipeline.{
  idle, compressed, batch_saved, meta_saved, Config, with_store, compresses, saves_batch,
  saves_meta, deletes, stops, Steps, here, next,
}

module _ (z : Zstd) (st : Storage) (c : Codec) (text_of : ℕ → Bytes) (top : ℕ) where
  outcome-Steps :
      (a : ℕ) (frame : Bytes) (p q : Config st) (r : Bool × st.State)
      → Steps z st c text_of top p q
      → q.phase ≡ compressed a frame
      → Outcome z st a (batch_end a) frame q.ingest.store r
      → Steps z st c text_of top p (with_store st r.1 idle q)
  outcome-Steps a frame p q r steps was (batch_failed e out) =
      subst (λ (x : Bool × st.State). Steps z st c text_of top p (with_store st x.1 idle q))
        (sym out) (next q _ steps stops)
  outcome-Steps a frame p q r steps was (meta_failed t e1 e2 out) =
      let saved = with_store st t (batch_saved a) q in
      subst (λ (x : Bool × st.State). Steps z st c text_of top p (with_store st x.1 idle q))
        (sym out) (next saved _ (next q saved steps (saves_batch a frame t was e1)) stops)
  outcome-Steps a frame p q r steps was (delete_failed t u e1 e2 e3 out) =
      let saved = with_store st t (batch_saved a) q in
      let marked = with_store st u (meta_saved a) saved in
      subst (λ (x : Bool × st.State). Steps z st c text_of top p (with_store st x.1 idle q))
        (sym out)
        (next marked _
          (next saved marked (next q saved steps (saves_batch a frame t was e1))
            (saves_meta a u refl e2))
          stops)
  outcome-Steps a frame p q r steps was (done t u v e1 e2 e3 out) =
      let saved = with_store st t (batch_saved a) q in
      let marked = with_store st u (meta_saved a) saved in
      subst (λ (x : Bool × st.State). Steps z st c text_of top p (with_store st x.1 idle q))
        (sym out)
        (next marked _
          (next saved marked (next q saved steps (saves_batch a frame t was e1))
            (saves_meta a u refl e2))
          (deletes a v refl e3))

  -- A compaction that no other write comes between, however it ends, is a run of the compactor's steps.
  pub compact_one_batch-Steps :
      (p : Config st)
      → p.phase ≡ idle
      → Steps z st c text_of top p (with_store st (compact_one_batch z st p.ingest.store).1 idle p)
  compact_one_batch-Steps p was = steps _ (attempt z st p.ingest.store)
    where
      steps :
          (r : Bool × st.State)
          → Attempt z st p.ingest.store r
          → Steps z st c text_of top p (with_store st r.1 idle p)
      steps r (skipped e) =
          subst (λ (x : Bool × st.State). Steps z st c text_of top p (with_store st x.1 idle p))
            (sym e) (next p _ here stops)
      steps r (wrote first latest frame e e' far run out) =
          let begun = record p { phase = compressed (batch_start first) frame } in
          outcome-Steps (batch_start first) frame p begun r
            (next p begun here (compresses first latest frame was e e' far run)) refl out
