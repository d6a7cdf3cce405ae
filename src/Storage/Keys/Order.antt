-- ===== src/Storage/Keys/Order.antt =====
-- The order of the database keys of evm-ingestion/storage/pebble.go.
use l1_data_tools.Common.{
  ℕ, zero, suc, ◌+◌, ◌/◌, ◌%◌, ◌<◌, ◌≡◌, refl, sym, ap, ◌∙◌, [], ◌∷◌, ◌++◌, arith, Bytes,
  compare_bytes, compare, Ordering, u64, length, length-append,
}
use l1_data_tools.Storage.Keys.{pad, block_key, batch_key, meta_key}

-- The first order decides, the second breaks ties.
abbrev pub and_then : Ordering → Ordering → Ordering
and_then Ordering.lt o = Ordering.lt
and_then Ordering.gt o = Ordering.gt
and_then Ordering.eq o = o

-- `n` has at most `k` decimal digits.
abbrev Fits : ℕ → ℕ → Type 0
Fits zero n = n ≡ 0
Fits (suc k) n = Fits k (n / 10)

pub length-pad : (k n : ℕ) → length (pad k n) ≡ k
unfolding pad
length-pad zero n = refl
length-pad (suc k) n =
    omega (arith, length-append {0} (pad k (n / 10)) ((b'0' + n % 10) ∷ []), length-pad k (n / 10))

compare_bytes-append :
    (xs ys : Bytes) (us vs : Bytes)
    → length xs ≡ length ys
    → compare_bytes (xs ++ us) (ys ++ vs) ≡ and_then (compare_bytes xs ys) (compare_bytes us vs)
unfolding compare_bytes
compare_bytes-append [] [] us vs h = refl
compare_bytes-append [] (y ∷ ys) us vs h = absurd (omega arith)
compare_bytes-append (x ∷ xs) [] us vs h = absurd (omega arith)
compare_bytes-append (x ∷ xs) (y ∷ ys) us vs h = ground (arith, compare_bytes-append xs ys us vs)

compare_last :
    (m n : ℕ)
    → and_then
        (compare (m / 10) (n / 10))
        (compare_bytes ((b'0' + m % 10) ∷ []) ((b'0' + n % 10) ∷ []))
      ≡ compare m n
unfolding compare_bytes
compare_last m n = ground arith

compare_bytes-pad :
    (k m n : ℕ) → Fits k m → Fits k n → compare_bytes (pad k m) (pad k n) ≡ compare m n
unfolding pad compare_bytes
compare_bytes-pad zero m n hm hn = ground arith
compare_bytes-pad (suc k) m n hm hn =
    compare_bytes-append (pad k (m / 10)) (pad k (n / 10)) _ _
      (length-pad k _ ∙ sym (length-pad k _))
    ∙ ap (λ o. and_then o (compare_bytes ((b'0' + m % 10) ∷ []) ((b'0' + n % 10) ∷ [])))
        (compare_bytes-pad k (m / 10) (n / 10) hm hn)
    ∙ compare_last m n

Fits-u64 : (n : ℕ) → n < u64 → Fits 20 n
Fits-u64 n h = omega arith

-- Two padded uint64s compare as the numbers do, and what follows breaks ties.
compare_pad20 :
    (m n : ℕ) (us vs : Bytes)
    → m < u64
    → n < u64
    → compare_bytes (pad 20 m ++ us) (pad 20 n ++ vs) ≡ and_then (compare m n) (compare_bytes us vs)
compare_pad20 m n us vs hm hn =
    compare_bytes-append (pad 20 m) (pad 20 n) us vs (length-pad 20 m ∙ sym (length-pad 20 n))
    ∙ ap (λ o. and_then o (compare_bytes us vs))
        (compare_bytes-pad 20 m n (Fits-u64 m hm) (Fits-u64 n hn))

-- The order of the block keys is the order of the block numbers.
pub compare-block_key :
    (m n : ℕ) → m < u64 → n < u64 → compare_bytes (block_key m) (block_key n) ≡ compare m n
unfolding block_key compare_bytes
compare-block_key m n hm hn = compare_bytes-pad 20 m n (Fits-u64 m hm) (Fits-u64 n hn)

-- Batch keys are ordered by their start, then by their end.
pub compare-batch_key :
    (a b c d : ℕ)
    → a < u64
    → b < u64
    → c < u64
    → d < u64
    → compare_bytes (batch_key a b) (batch_key c d) ≡ and_then (compare a c) (compare b d)
unfolding batch_key compare_bytes
compare-batch_key a b c d ha hb hc hd =
    compare_pad20 a c _ _ ha hc
    ∙ ap (and_then (compare a c)) (compare_bytes-pad 20 b d (Fits-u64 b hb) (Fits-u64 d hd))

-- Keys of different kinds: every batch key is below every block key, and both are below `meta`.
pub compare_block_batch : (n a b : ℕ) → compare_bytes (block_key n) (batch_key a b) ≡ Ordering.gt
unfolding block_key batch_key compare_bytes
compare_block_batch n a b = refl

pub compare_batch_block : (n a b : ℕ) → compare_bytes (batch_key a b) (block_key n) ≡ Ordering.lt
unfolding block_key batch_key compare_bytes
compare_batch_block n a b = refl

pub compare_block_meta : (n : ℕ) → compare_bytes (block_key n) meta_key ≡ Ordering.lt
unfolding block_key compare_bytes
compare_block_meta n = refl

pub compare_batch_meta : (a b : ℕ) → compare_bytes (batch_key a b) meta_key ≡ Ordering.lt
unfolding batch_key compare_bytes
compare_batch_meta a b = refl

pub compare_meta_block : (n : ℕ) → compare_bytes meta_key (block_key n) ≡ Ordering.gt
unfolding block_key compare_bytes
compare_meta_block n = refl

pub compare_meta_batch : (a b : ℕ) → compare_bytes meta_key (batch_key a b) ≡ Ordering.gt
unfolding batch_key compare_bytes
compare_meta_batch a b = refl
