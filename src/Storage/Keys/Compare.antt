-- ===== src/Storage/Keys/Compare.antt =====
-- The tests that a database makes on the keys, in terms of the block numbers.
use l1_data_tools.Common.{
  ℕ, ◌+◌, ◌<◌, ◌≡◌, ap, ◌∙◌, Bool, true, false, arith, bytes_eq, bytes_lt, bytes_le, Ordering, u64,
  ltb, leb, ◌==◌, compare_bytes_refl,
}
use l1_data_tools.Storage.Keys.{block_key, batch_key, meta_key}
use l1_data_tools.Storage.Keys.Order.{
  compare-block_key, compare-batch_key, compare_block_batch, compare_batch_block,
  compare_block_meta, compare_meta_block, compare_meta_batch, compare_batch_meta,
}

abbrev is_eq : Ordering → Bool
is_eq o = elim o [ Ordering.eq ↦ true | _ ↦ false ]

abbrev is_lt : Ordering → Bool
is_lt o = elim o [ Ordering.lt ↦ true | _ ↦ false ]

abbrev is_le : Ordering → Bool
is_le o = elim o [ Ordering.gt ↦ false | _ ↦ true ]

module _ (n m : ℕ) (hn : n < u64) (hm : m < u64) where
  pub block_key_eq : bytes_eq (block_key n) (block_key m) ≡ (n == m)
  block_key_eq = ap is_eq (compare-block_key n m hn hm)

  pub block_key_lt : bytes_lt (block_key n) (block_key m) ≡ ltb n m
  block_key_lt = ap is_lt (compare-block_key n m hn hm)

  pub block_key_le : bytes_le (block_key n) (block_key m) ≡ leb n m
  block_key_le = ap is_le (compare-block_key n m hn hm)

pub batch_key_eq :
    (a c : ℕ)
    → a + 99 < u64
    → c + 99 < u64
    → bytes_eq (batch_key a (a + 99)) (batch_key c (c + 99)) ≡ (a == c)
batch_key_eq a c ha hc =
    ap is_eq (compare-batch_key a (a + 99) c (c + 99) (omega arith) ha (omega arith) hc)
    ∙ ground arith

pub batch_ne_block : (n a b : ℕ) → bytes_eq (batch_key a b) (block_key n) ≡ false
batch_ne_block n a b = ap is_eq (compare_batch_block n a b)

pub block_ne_batch : (n a b : ℕ) → bytes_eq (block_key n) (batch_key a b) ≡ false
block_ne_batch n a b = ap is_eq (compare_block_batch n a b)

pub meta_ne_block : (n : ℕ) → bytes_eq meta_key (block_key n) ≡ false
meta_ne_block n = ap is_eq (compare_meta_block n)

pub meta_ne_batch : (a b : ℕ) → bytes_eq meta_key (batch_key a b) ≡ false
meta_ne_batch a b = ap is_eq (compare_meta_batch a b)

pub batch_ne_meta : (a b : ℕ) → bytes_eq (batch_key a b) meta_key ≡ false
batch_ne_meta a b = ap is_eq (compare_batch_meta a b)

pub meta_eq_meta : bytes_eq meta_key meta_key ≡ true
meta_eq_meta = ap is_eq (compare_bytes_refl meta_key)

pub block_le_batch : (n a b : ℕ) → bytes_le (block_key n) (batch_key a b) ≡ false
block_le_batch n a b = ap is_le (compare_block_batch n a b)

pub block_le_meta : (n : ℕ) → bytes_lt meta_key (block_key n) ≡ false
block_le_meta n = ap is_lt (compare_meta_block n)

pub block_ne_meta : (n : ℕ) → bytes_eq (block_key n) meta_key ≡ false
block_ne_meta n = ap is_eq (compare_block_meta n)
