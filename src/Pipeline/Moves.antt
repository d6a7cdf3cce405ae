-- ===== src/Pipeline/Moves.antt =====
-- On evm-ingestion/main.go with evm-ingestion/storage/compactor.go: each step of the loop and of the
-- compactor keeps what the storage holds.
use l1_data_tools.Common.{ℕ, ◌+◌, ◌≤◌, ◌<◌, ◌≡◌, refl, sym, ap, ◌∙◌, some, arith, Bytes, u64, subst}
use mathlib.Core.Option.{some_inj}
use l1_data_tools.Storage.Batch.{Zstd, batch_start, batch_end}
use l1_data_tools.Storage.Batch.Bounds.{batch_end_lem}
use l1_data_tools.Storage.Interface.{Storage, IsStorage}
use l1_data_tools.Storage.Compactor.ReadBack.{IsStart}
use l1_data_tools.Ingestion.{Codec}
use l1_data_tools.Ingestion.Saves.{ingest_block-Saved}
use l1_data_tools.Client.{Json, Block}
use l1_data_tools.Pipeline.{
  idle, compressed, batch_saved, meta_saved, Config, Step, saved, compresses, saves_batch,
  saves_meta, deletes, stops,
}
use l1_data_tools.Pipeline.Sound.{Run-IsFrame, batch_start_aligned}
use l1_data_tools.Pipeline.Kept.{
  Sound, save_block-IsSound, same-IsSound, save_batch-IsSound, delete_block_range-IsSound,
}

module _ (z : Zstd) (st : Storage) (laws : IsStorage st) (j : Json) (text_of : ℕ → Bytes)
    (block_of : ℕ → Block j) where
  whole : (a : ℕ) → IsStart a → batch_end a ≡ a + 99
  whole a start = batch_end_lem a (omega (arith, start.room))

  -- Each step keeps the storage sound, while the numbers are away from the wrap-around.
  pub Step-IsSound :
      (c : Codec) (top : ℕ) (p q : Config st)
      → p.ingest.current + 1300 < u64
      → Step z st c text_of top p q
      → Sound z st laws j text_of block_of p.ingest.store p.phase p.ingest.current
      → Sound z st laws j text_of block_of q.ingest.store q.phase q.ingest.current
  Step-IsSound c top p q room (saved block t chain marshalled e) h =
      let one = ingest_block-Saved st c block p.ingest t e in
      let text : one.data_ ≡ text_of p.ingest.current =
        some_inj.0 (sym one.marshal_eq ∙ marshalled) in
      let stored : st.save_block p.ingest.current (text_of p.ingest.current) p.ingest.store
          ≡ some t.store =
        ap (λ d. st.save_block p.ingest.current d p.ingest.store) (sym text) ∙ one.save_eq in
      let moved : p.ingest.current + 1 ≡ t.current = omega (arith, one.current_eq) in
      subst (Sound z st laws j text_of block_of t.store p.phase) moved (
        save_block-IsSound z st laws j text_of block_of p.ingest.current p.ingest.store t.store room
          stored p.phase h)
  Step-IsSound c top p q room (compresses first latest frame was e e' far run) h =
      let (lo, aligned, hi) = batch_start_aligned z st j text_of block_of first in
      same-IsSound z st laws j text_of block_of p.ingest.store p.ingest.store p.phase
        (compressed (batch_start first) frame) p.ingest.current (λ n. refl) (λ a. refl)
        (Run-IsFrame z st j text_of block_of (batch_start first) p.ingest.current p.ingest.store
          frame room hi lo aligned h.blocks run)
        h
  Step-IsSound c top p q room (saves_batch a frame t was e) h =
      let now =
        subst (λ ph. Sound z st laws j text_of block_of p.ingest.store ph p.ingest.current) was h in
      let (start, f) = now.ready in
      save_batch-IsSound z st laws j text_of block_of a p.ingest.current frame p.ingest.store t room
        start f (ap (λ b. st.save_batch a b frame p.ingest.store) (sym (whole a start)) ∙ e) now
  Step-IsSound c top p q room (saves_meta a t was e) h =
      let now =
        subst (λ ph. Sound z st laws j text_of block_of p.ingest.store ph p.ingest.current) was h in
      let (start, (frame, there)) = now.ready in
      same-IsSound z st laws j text_of block_of p.ingest.store t (batch_saved a) (meta_saved a)
        p.ingest.current (λ n. laws.get_block-save_meta (batch_end a) n p.ingest.store t e)
        (λ b. laws.get_batch-save_meta (batch_end a) b p.ingest.store t e)
        (start, (frame, laws.get_batch-save_meta (batch_end a) a p.ingest.store t e ∙ there)) now
  Step-IsSound c top p q room (deletes a t was e) h =
      let now =
        subst (λ ph. Sound z st laws j text_of block_of p.ingest.store ph p.ingest.current) was h in
      let (start, there) = now.ready in
      delete_block_range-IsSound z st laws j text_of block_of a p.ingest.current p.ingest.store t
        room start there
        (ap (λ b. st.delete_block_range a b p.ingest.store) (sym (whole a start)) ∙ e) now
  Step-IsSound c top p q room stops h =
      same-IsSound z st laws j text_of block_of p.ingest.store p.ingest.store p.phase idle
        p.ingest.current (λ n. refl) (λ a. refl) tt h

  -- The position of the loop does not move back, and ends behind the chain.
  pub Step-current :
      (c : Codec) (top : ℕ) (p q : Config st)
      → top + 1 < u64
      → p.ingest.current ≤ top + 1
      → Step z st c text_of top p q
      → (p.ingest.current ≤ q.ingest.current) × (q.ingest.current ≤ top + 1)
  Step-current c top p q room hi (saved block t chain marshalled e) =
      omega (arith, (ingest_block-Saved st c block p.ingest t e).current_eq)
  Step-current c top p q room hi (compresses first latest frame was e e' far run) = omega arith
  Step-current c top p q room hi (saves_batch a frame t was e) = omega arith
  Step-current c top p q room hi (saves_meta a t was e) = omega arith
  Step-current c top p q room hi (deletes a t was e) = omega arith
  Step-current c top p q room hi stops = omega arith
