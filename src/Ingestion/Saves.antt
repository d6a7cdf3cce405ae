-- ===== src/Ingestion/Saves.antt =====
-- On evm-ingestion/main.go, `runIngestion`: what the loop over a stream saves.
use l1_data_tools.Common.{
  ℕ, suc, ◌+◌, ◌-◌, ◌≤◌, ◌<◌, ◌≡◌, refl, sym, ap, ◌∙◌, ◌&&◌, List, [], ◌∷◌, Option, none, some,
  ◌>>=◌, >>=-eq-some, Bytes, u64, add64, length, get_elem?, ltb, leb, ◌==◌, if◌then◌else◌,
  Bool-cases, Option-cases, inl, inr, arith, max,
}
use mathlib.Core.Option.{some_inj}
use l1_data_tools.Storage.Interface.{Storage, IsStorage}
use l1_data_tools.Api.Latest.{update_latest_block_alone}
use l1_data_tools.Ingestion.{parse_block_number, Codec, Ingest, ingest_block, ingest}

module _ (st : Storage) (c : Codec) where
  -- One block that is not a break.
  pub record Saved (block : c.Value) (s t : Ingest st) : Type 0 where
    pub number_eq : parse_block_number (c.number block) ≡ some s.current
    pub data_ : Bytes
    pub marshal_eq : c.marshal block ≡ some data_
    pub save_eq : st.save_block s.current data_ s.store ≡ some t.store
    pub latest_eq : t.latest ≡ max s.current s.latest
    pub current_eq : t.current ≡ add64 s.current 1

  same_number : (n m k : ℕ) → (if n == m then some n else none) ≡ some k → (n ≡ m) × (k ≡ m)
  same_number n m k h = ground arith

  pub ingest_block-Saved :
      (block : c.Value) (s t : Ingest st) → ingest_block st c block s ≡ some t → Saved block s t
  unfolding ingest_block
  ingest_block-Saved block s t h =
      let (n, number_eq, h1) = >>=-eq-some (parse_block_number (c.number block)) _ h in
      let (k, checked, h2) = >>=-eq-some (if n == s.current then some n else none) _ h1 in
      let (d, marshal_eq, h3) = >>=-eq-some (c.marshal block) _ h2 in
      let (store, save_eq, h4) = >>=-eq-some (st.save_block k d s.store) _ h3 in
      let (n_eq, k_eq) = same_number n s.current k checked in
      let t_eq = (some_inj.0) h4 in
      record {
        number_eq = number_eq ∙ ap some n_eq;
        data_ = d;
        marshal_eq = marshal_eq;
        save_eq =
            ap (λ x. st.save_block x d s.store) (sym k_eq)
            ∙ save_eq
            ∙ ap (λ x. some (x.store)) t_eq;
        latest_eq =
            ap (λ x. x.latest) (sym t_eq)
            ∙ update_latest_block_alone k s.latest
            ∙ ap (λ x. max x s.latest) k_eq;
        current_eq = ap (λ x. x.current) (sym t_eq);
      }

  -- The position moves by one for each block that is saved, at most to the end of the stream.
  pub ingest-current :
      (blocks : List c.Value) (s : Ingest st)
      → s.current + length blocks < u64
      → (s.current ≤ (ingest st c blocks s).current)
        × ((ingest st c blocks s).current ≤ s.current + length blocks)
  unfolding ingest
  ingest-current [] s h = omega arith
  ingest-current (block ∷ blocks) s h = elim (Option-cases (ingest_block st c block s)) [
    | inl stopped ↦ rw (stopped, ingest) (omega arith)
    | inr (t, went_on) ↦
        let saved = ingest_block-Saved block s t went_on in
        let moved : t.current ≡ s.current + 1 = omega (arith, saved.current_eq) in
        rw (went_on, ingest) (omega (arith, ingest-current blocks t (omega arith)))
  ]

  -- The server announces what it did before until a block is saved, then the last saved block, where
  -- that is larger. The numbers stay below 2^64.
  pub ingest-latest :
      (blocks : List c.Value) (s : Ingest st)
      → s.current + length blocks < u64
      → (ingest st c blocks s).latest ≡ (
          if (ingest st c blocks s).current == s.current
          then s.latest
          else max ((ingest st c blocks s).current - 1) s.latest)
  unfolding ingest
  ingest-latest [] s h = ground arith
  ingest-latest (block ∷ blocks) s h = elim (Option-cases (ingest_block st c block s)) [
    | inl stopped ↦ rw (stopped, ingest) (ground arith)
    | inr (t, went_on) ↦
        let saved = ingest_block-Saved block s t went_on in
        let moved : t.current ≡ s.current + 1 = omega (arith, saved.current_eq) in
        let latest : t.latest ≡ max s.current s.latest = saved.latest_eq in
        rw (went_on, ingest)
          (ground
            (arith, ingest-latest blocks t (omega arith), ingest-current blocks t (omega arith)))
  ]

  one_more :
      (a b m : ℕ) (whole rest : ℕ → Option Bytes) {d : Bytes} (old : Option Bytes)
      {now after : Option Bytes}
      → a + 1 ≤ b
      → whole 0 ≡ some d
      → ((i : ℕ) → whole (suc i) ≡ rest i)
      → after ≡ (if leb (a + 1) m && ltb m b then rest (m - (a + 1)) else now)
      → now ≡ (if a == m then some d else old)
      → after ≡ (if leb a m && ltb m b then whole (m - a) else old)
  one_more a b m whole rest old h first next later here = elim (Bool-cases (leb (a + 1) m)) [
    | inl beyond ↦
        let shift : m - a ≡ suc (m - (a + 1)) = ground arith in
        rw shift (ground (arith, next (m - (a + 1))))
    | inr not_beyond ↦ elim (Bool-cases (a == m)) [
      | inl same ↦ let none_left : m - a ≡ 0 = ground arith in rw none_left (ground arith)
      | inr other ↦ ground arith
    ]
  ]

  -- After a stream, each number from the first position to the last has the block that stood there in
  -- the stream, marshalled, and all other blocks are as they were. The store keeps the laws of
  -- `Storage`, and the numbers stay below 2^64.
  pub get_block-ingest :
      (blocks : List c.Value) (s : Ingest st) (m : ℕ)
      → IsStorage st
      → s.current + length blocks < u64
      → m < u64
      → st.get_block m (ingest st c blocks s).store ≡ (
          if leb s.current m && ltb m (ingest st c blocks s).current
          then get_elem? blocks (m - s.current) >>= c.marshal
          else st.get_block m s.store)
  unfolding ingest
  get_block-ingest [] s m laws h hm = ground arith
  get_block-ingest (block ∷ blocks) s m laws h hm =
      elim (Option-cases (ingest_block st c block s)) [
        | inl stopped ↦ rw (stopped, ingest) (ground arith)
        | inr (t, went_on) ↦
            let saved = ingest_block-Saved block s t went_on in
            let moved : t.current ≡ s.current + 1 = omega (arith, saved.current_eq) in
            let (first, last) = ingest-current blocks t (omega arith) in
            let later = get_block-ingest blocks t m laws (omega arith) hm in
            let now =
              laws.get_block-save_block s.current m saved.data_ s.store t.store (omega arith) hm
                saved.save_eq in
            let whole : ℕ → Option Bytes = λ i. get_elem? (block ∷ blocks) i >>= c.marshal in
            rw (went_on, ingest)
              (one_more s.current (ingest st c blocks t).current m whole
                (λ i. get_elem? blocks i >>= c.marshal) (st.get_block m s.store) (omega arith)
                saved.marshal_eq (λ i. refl)
                (later
                  ∙ ap
                      (λ x.
                        if leb x m && ltb m (ingest st c blocks t).current
                        then get_elem? blocks (m - x) >>= c.marshal
                        else st.get_block m t.store)
                      moved)
                now)
      ]

  -- If any block was saved, the last of them is stored.
  pub ingest_stores_last :
      (blocks : List c.Value) (s : Ingest st)
      → IsStorage st
      → s.current + length blocks < u64
      → s.current < (ingest st c blocks s).current
      → (d : Bytes) × (st.get_block
            ((ingest st c blocks s).current - 1)
            (ingest st c blocks s).store
          ≡ some d)
  unfolding ingest
  ingest_stores_last [] s laws h moved = absurd ((omega arith))
  ingest_stores_last (block ∷ blocks) s laws h moved =
      elim (Option-cases (ingest_block st c block s)) [
        | inl stopped ↦
            let same : (ingest st c (block ∷ blocks) s).current ≡ s.current =
              rw (stopped, ingest) refl in
            absurd (omega (arith, moved, same))
        | inr (t, went_on) ↦
            let saved = ingest_block-Saved block s t went_on in
            let one : t.current ≡ s.current + 1 = omega (arith, saved.current_eq) in
            let rest : ingest st c (block ∷ blocks) s ≡ ingest st c blocks t =
              rw (went_on, ingest) refl in
            rw (went_on, ingest)
              (elim (Bool-cases (ltb t.current (ingest st c blocks t).current)) [
                | inl more ↦ ingest_stores_last blocks t laws (omega arith) (ground arith)
                | inr last ↦
                    let here : (ingest st c blocks t).current ≡ s.current + 1 =
                      ground (arith, ingest-current blocks t (omega arith)) in
                    let later =
                      get_block-ingest blocks t s.current laws (omega arith) (omega arith) in
                    let now =
                      laws.get_block-save_block s.current s.current saved.data_ s.store t.store
                        (omega arith) (omega arith) saved.save_eq in
                    let before : (ingest st c blocks t).current - 1 ≡ s.current =
                      omega (arith, here) in
                    (saved.data_, rw before (ground (arith, later, now)))
              ])
      ]
