-- ===== src/Pipeline/Kept.antt =====
-- On evm-ingestion/main.go with evm-ingestion/storage/compactor.go: each write of the loop and of the
-- compactor keeps what the storage holds.
use l1_data_tools.Common.{
  ℕ, ◌+◌, ◌<◌, ◌≡◌, refl, sym, ap, ◌∙◌, inl, inr, none, some, arith, Bytes, u64, leb, ◌&&◌, ◌==◌,
  if◌then◌else◌, Bool-cases, subst, ==_refl, kept_if,
}
use mathlib.Core.Option.{some_inj}
use l1_data_tools.Storage.Batch.{Zstd, batch_start}
use l1_data_tools.Storage.Interface.{Storage, IsStorage}
use l1_data_tools.Storage.Compactor.ReadBack.{IsStart, outside_test, batch_start_room}
use l1_data_tools.Client.{Json, Block}
use l1_data_tools.Pipeline.{Phase, idle, compressed, batch_saved, meta_saved}
use l1_data_tools.Pipeline.Sound.{IsFrame, IsReady, IsSound}

module _ (z : Zstd) (st : Storage) (laws : IsStorage st) (j : Json) (text_of : ℕ → Bytes)
    (block_of : ℕ → Block j) where
  abbrev pub Sound : st.State → Phase → ℕ → Type 0
  Sound s phase current = IsSound z st j text_of block_of s phase current

  later :
      (current a : ℕ) (frame : Bytes)
      → IsFrame z st j text_of block_of current a frame
      → IsFrame z st j text_of block_of (current + 1) a frame
  later current a frame f = record {
    full = f.full;
    decoded = f.decoded;
    behind = omega (arith, f.behind);
  }

  -- The loop saves block `n`.
  module _ (n : ℕ) (s t : st.State) (fits : n + 1300 < u64)
      (e : st.save_block n (text_of n) s ≡ some t) where
    block_after :
        (m : ℕ)
        → m < u64
        → st.get_block m t ≡ (if n == m then some (text_of n) else st.get_block m s)
    block_after m hm = laws.get_block-save_block n m (text_of n) s t (omega arith) hm e

    batch_after : (a : ℕ) → st.get_batch_compressed a t ≡ st.get_batch_compressed a s
    batch_after a = laws.get_batch-save_block n a (text_of n) s t e

    IsReady-after :
        (phase : Phase)
        → IsReady z st j text_of block_of phase s n
        → IsReady z st j text_of block_of phase t (n + 1)
    IsReady-after idle h = tt
    IsReady-after (compressed a frame) (start, f) = (start, later n a frame f)
    IsReady-after (batch_saved a) (start, (frame, there)) = (start, (frame, batch_after a ∙ there))
    IsReady-after (meta_saved a) (start, (frame, there)) = (start, (frame, batch_after a ∙ there))

    pub save_block-IsSound : (phase : Phase) → Sound s phase n → Sound t phase (n + 1)
    save_block-IsSound phase h = record {
      blocks = λ m d hm found. elim (Bool-cases (n == m)) [
        | inl same ↦
            let number : n ≡ m = ground arith in
            let text : some (text_of n) ≡ some d =
              sym (block_after m hm ∙ (rw same refl)) ∙ found in
            (
              omega (arith, number, h.positive),
              omega (arith, number),
              sym (some_inj.0 text) ∙ ap text_of number,
            )
        | inr other ↦
            let (lo, hi, text) =
              h.blocks m d hm (sym (block_after m hm ∙ (rw other refl)) ∙ found) in
            (lo, omega arith, text)
      ];
      batches =
          λ a frame ha found. later n a frame (h.batches a frame ha (sym (batch_after a) ∙ found));
      found = λ m lo hi. elim (Bool-cases (n == m)) [
        | inl same ↦
            let number : n ≡ m = ground arith in
            inl (block_after m (omega arith) ∙ (rw same (ap (λ k. some (text_of k)) number)))
        | inr other ↦ elim (h.found m lo (ground arith)) [
          | inl by_itself ↦ inl (block_after m (omega arith) ∙ (rw other by_itself))
          | inr (frame, there) ↦ inr (frame, batch_after (batch_start m) ∙ there)
        ]
      ];
      ready = IsReady-after phase h.ready;
      positive = omega arith;
    }

  -- A write that leaves blocks and batches alone.
  pub same-IsSound :
      (s t : st.State) (before after : Phase) (current : ℕ)
      → ((n : ℕ) → st.get_block n t ≡ st.get_block n s)
      → ((a : ℕ) → st.get_batch_compressed a t ≡ st.get_batch_compressed a s)
      → IsReady z st j text_of block_of after t current
      → Sound s before current
      → Sound t after current
  same-IsSound s t before after current same_block same_batch ready h = record {
    blocks = λ n d hn found. h.blocks n d hn (sym (same_block n) ∙ found);
    batches = λ a frame ha found. h.batches a frame ha (sym (same_batch a) ∙ found);
    found = λ n lo hi. elim (h.found n lo hi) [
      | inl by_itself ↦ inl (same_block n ∙ by_itself)
      | inr (frame, there) ↦ inr (frame, same_batch (batch_start n) ∙ there)
    ];
    ready = ready;
    positive = h.positive;
  }

  pub save_batch-IsSound :
      (a current : ℕ) (frame : Bytes) (s t : st.State)
      → current + 1300 < u64
      → IsStart a
      → IsFrame z st j text_of block_of current a frame
      → st.save_batch a (a + 99) frame s ≡ some t
      → Sound s (compressed a frame) current
      → Sound t (batch_saved a) current
  save_batch-IsSound a current frame s t top start f e h = record {
    blocks = λ n d hn found.
        h.blocks n d hn (sym (laws.get_block-save_batch a (a + 99) n frame s t e) ∙ found);
    batches = λ b g hb found. elim (Bool-cases (a == b)) [
      | inl same ↦
          let number : a ≡ b = ground arith in
          let there : some frame ≡ some g = sym (after b hb ∙ (rw same refl)) ∙ found in
          subst (λ x. IsFrame z st j text_of block_of current x g) number
            (subst (IsFrame z st j text_of block_of current a) (some_inj.0 there) f)
      | inr other ↦ h.batches b g hb (sym (after b hb ∙ (rw other refl)) ∙ found)
    ];
    found = λ n lo hi. elim (h.found n lo hi) [
      | inl by_itself ↦ inl (laws.get_block-save_batch a (a + 99) n frame s t e ∙ by_itself)
      | inr (g, there) ↦ inr (elim (Bool-cases (a == batch_start n)) [
        | inl same ↦
            (frame, after (batch_start n) (batch_start_room n lo (omega arith)) ∙ (rw same refl))
        | inr other ↦
            (g, after (batch_start n) (batch_start_room n lo (omega arith)) ∙ (rw other there))
      ])
    ];
    ready = (start, (frame, after a (omega (arith, start.room)) ∙ (rw (==_refl a) refl)));
    positive = h.positive;
  }
    where
      after :
          (b : ℕ)
          → b + 99 < u64
          → st.get_batch_compressed b t
            ≡ (if a == b then some frame else st.get_batch_compressed b s)
      after b hb = laws.get_batch-save_batch a b frame s t (omega (arith, start.room)) hb e

  -- The deleted blocks are those of the batch.
  pub delete_block_range-IsSound :
      (a current : ℕ) (s t : st.State)
      → current + 1300 < u64
      → IsStart a
      → (frame : Bytes) × (st.get_batch_compressed a s ≡ some frame)
      → st.delete_block_range a (a + 99) s ≡ some t
      → Sound s (meta_saved a) current
      → Sound t idle current
  delete_block_range-IsSound a current s t top start (frame, there) e h = record {
    blocks = λ n d hn found. h.blocks n d hn (kept_if _ _ _ d (after n hn) found);
    batches = λ b g hb found. h.batches b g hb (sym (batch b) ∙ found);
    found = λ n lo hi. elim (Bool-cases (a == batch_start n)) [
      | inl same ↦
          let number : a ≡ batch_start n = ground arith in
          inr (
            frame,
            batch (batch_start n) ∙ ap (λ k. st.get_batch_compressed k s) (sym number) ∙ there,
          )
      | inr other ↦ elim (h.found n lo hi) [
        | inl by_itself ↦
            inl (
              after n (omega arith)
              ∙ (rw (outside_test a n start lo (omega arith) other) by_itself))
        | inr (g, old) ↦ inr (g, batch (batch_start n) ∙ old)
      ]
    ];
    ready = tt;
    positive = h.positive;
  }
    where
      after :
          (n : ℕ)
          → n < u64
          → st.get_block n t ≡ (if leb a n && leb n (a + 99) then none else st.get_block n s)
      after n hn =
          laws.get_block-delete_block_range a (a + 99) n s t (omega (arith, start.room))
            (omega (arith, start.room)) hn e

      batch : (b : ℕ) → st.get_batch_compressed b t ≡ st.get_batch_compressed b s
      batch b =
          laws.get_batch-delete_block_range a (a + 99) b s t (omega (arith, start.room))
            (omega (arith, start.room)) e
