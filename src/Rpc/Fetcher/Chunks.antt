-- ===== src/Rpc/Fetcher/Chunks.antt =====
-- evm-ingestion/rpc/fetcher.go: `chunksOf`.
use l1_data_tools.Common.{
  ℕ, zero, suc, ◌+◌, ◌-◌, ◌≤◌, ◌<◌, ◌≡◌, refl, sym, ap, ◌∙◌, List, [], ◌∷◌, ◌++◌, Option, none,
  some, arith, length, take, drop, take-append-drop, length-take, length-drop, ltb, if◌then◌else◌,
  All, Bool-cases, inl, inr,
}

module _ {ℓ} {A : Type ℓ} where
  -- The loop from the position `i` on. Each round moves it, so that as many rounds as there are items
  -- are enough.
  unfoldable pub chunks_from : List A → ℕ → ℕ → ℕ → List (List A)
  chunks_from items size zero i = []
  chunks_from items size (suc rounds) i =
      let rest = chunks_from items size rounds (i + size) in
      let end_ = (if ltb (length items) (i + size) then length items else i + size) in
      if ltb i (length items) then take (end_ - i) (drop i items) ∷ rest else []

  -- `none` is the panic.
  unfoldable pub chunks_of : List A → ℕ → Option (List (List A))
  unfolding chunks_from
  chunks_of items zero = none
  chunks_of items (suc size) = some (chunks_from items (suc size) (length items) 0)

  abbrev pub flatten : List (List A) → List A
  flatten [] = []
  flatten (xs ∷ xss) = xs ++ flatten xss

  drop_past : (xs : List A) (n : ℕ) → length xs ≤ n → drop n xs ≡ []
  drop_past [] zero h = refl
  drop_past [] (suc n) h = refl
  drop_past (x ∷ xs) zero h = absurd (omega (arith, h))
  drop_past (x ∷ xs) (suc n) h = drop_past xs n (omega (arith, h))

  drop_nil : (n : ℕ) → drop {A = A} n [] ≡ []
  drop_nil zero = refl
  drop_nil (suc n) = refl

  drop-drop : (xs : List A) (m n : ℕ) → drop m (drop n xs) ≡ drop (n + m) xs
  drop-drop xs m zero = ap (λ i. drop i xs) {x = m} (omega arith)
  drop-drop [] m (suc n) = drop_nil m ∙ sym (drop_nil (suc n + m))
  drop-drop (x ∷ xs) m (suc n) =
      drop-drop xs m n ∙ ap (λ i. drop i (x ∷ xs)) {x = suc (n + m)} (omega arith)

  chunk_end : List A → ℕ → ℕ → ℕ
  chunk_end items size i = if ltb (length items) (i + size) then length items else i + size

  -- What is left behind a chunk.
  drop-chunk :
      (items : List A) (size i : ℕ)
      → i < length items
      → drop (chunk_end items size i - i) (drop i items) ≡ drop (i + size) items
  unfolding chunk_end
  drop-chunk items size i h = elim (Bool-cases (ltb (length items) (i + size))) [
    | inl last ↦ rw last (
        drop-drop items (length items - i) i
        ∙ drop_past items (i + (length items - i)) (omega (arith, h))
        ∙ sym (drop_past items (i + size) (ground arith)))
    | inr more ↦ rw more (
        drop-drop items (i + size - i) i
        ∙ ap (λ k. drop k items) {x = i + (i + size - i)} (omega arith))
  ]

  length-chunk :
      (items : List A) (size i : ℕ)
      → 0 < size
      → i < length items
      → (0 < length (take (chunk_end items size i - i) (drop i items)))
        × (length (take (chunk_end items size i - i) (drop i items)) ≤ size)
  unfolding chunk_end
  length-chunk items size i h k =
      ground (arith, length-take (chunk_end items size i - i) (drop i items), length-drop i items)

  -- The chunks of a list that are not empty, in order, are the list again, none is empty and none is
  -- longer than asked for.
  chunks_from-flatten :
      (items : List A) (size rounds i : ℕ)
      → 0 < size
      → length items ≤ i + rounds
      → (flatten (chunks_from items size rounds i) ≡ drop i items)
        × All
            (λ chunk. (0 < length chunk) × (length chunk ≤ size))
            (chunks_from items size rounds i)
  unfolding chunks_from chunk_end
  chunks_from-flatten items size zero i h k = (sym (drop_past items i (omega (arith, k))), tt)
  chunks_from-flatten items size (suc rounds) i h k = elim (Bool-cases (ltb i (length items))) [
    | inr past ↦ rw past (sym (drop_past items i (ground arith)), tt)
    | inl within ↦
        let less : i < length items = ground arith in
        let (whole, sizes) =
          chunks_from-flatten items size rounds (i + size) h (omega (arith, k, h)) in
        let chunk = chunk_end items size i - i in
        rw within (
          ap (λ later. take chunk (drop i items) ++ later)
                (whole ∙ sym (drop-chunk items size i less))
              ∙ take-append-drop chunk (drop i items),
          (length-chunk items size i h less, sizes),
        )
  ]

  -- For a positive size the chunks, in order, are the list again, none is empty, and none is longer
  -- than the size.
  pub chunks_of-flatten :
      (items : List A) (size : ℕ)
      → 0 < size
      → (chunks : List (List A)) × (chunks_of items size ≡ some chunks)
        × (flatten chunks ≡ items)
        × All (λ chunk. (0 < length chunk) × (length chunk ≤ size)) chunks
  unfolding chunks_of
  chunks_of-flatten items zero h = absurd (omega (arith, h))
  chunks_of-flatten items (suc size) h =
      let (whole, sizes) = chunks_from-flatten items (suc size) (length items) 0 h (omega arith) in
      (chunks_from items (suc size) (length items) 0, refl, whole, sizes)
