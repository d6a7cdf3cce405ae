-- ===== src/Storage/Pebble/Laws.antt =====
-- On evm-ingestion/storage/pebble.go: the laws of `Storage`.
use l1_data_tools.Common.{
  ℕ, zero, suc, ◌+◌, ◌*◌, ◌/◌, ◌%◌, ◌<◌, ◌≡◌, refl, sym, ap, ◌∙◌, ◌&&◌, [], ◌∷◌, ◌++◌, none, some,
  arith, Bytes, u64, add64, sub64, length, length-append, leb, ◌==◌, if◌then◌else◌,
}
use l1_data_tools.Storage.Keys.{block_key, batch_key, meta_key}
use l1_data_tools.Storage.Keys.Compare.{
  block_key_eq, block_key_lt, block_key_le, batch_key_eq, batch_ne_block, block_ne_batch,
  meta_ne_block, meta_ne_batch, meta_eq_meta, block_le_batch, block_le_meta, block_ne_meta,
  batch_ne_meta,
}
use l1_data_tools.Storage.Batch.{batch_size}
use l1_data_tools.Storage.Interface.{IsStorage}
use l1_data_tools.Storage.Pebble.{
  Pebble, put_uint, read_uint, decode_meta, save_block, get_block, delete_block_range, save_batch,
  get_batch_compressed, get_meta, save_meta, pebble_storage,
}

read_uint-append :
    (k : ℕ) (xs : Bytes) (c n : ℕ)
    → length xs ≡ k
    → read_uint (suc k) n (xs ++ c ∷ []) ≡ read_uint k n xs * 256 + c
unfolding read_uint
read_uint-append zero [] c n h = refl
read_uint-append zero (x ∷ xs) c n h = absurd (omega arith)
read_uint-append (suc k) [] c n h = absurd (omega arith)
read_uint-append (suc k) (x ∷ xs) c n h = read_uint-append k xs c (n * 256 + x) (omega arith)

length-put_uint : (k n : ℕ) → length (put_uint k n) ≡ k
unfolding put_uint
length-put_uint zero n = refl
length-put_uint (suc k) n =
    omega (
      arith,
      length-append {0} (put_uint k (n / 256)) ((n % 256) ∷ []),
      length-put_uint k (n / 256),
    )

abbrev FitsBytes : ℕ → ℕ → Type 0
FitsBytes zero n = n ≡ 0
FitsBytes (suc k) n = FitsBytes k (n / 256)

read_uint-put_uint : (k n : ℕ) → FitsBytes k n → read_uint k 0 (put_uint k n) ≡ n
unfolding put_uint
read_uint-put_uint zero n h = unfold read_uint in sym h
read_uint-put_uint (suc k) n h =
    read_uint-append k (put_uint k (n / 256)) (n % 256) 0 (length-put_uint k (n / 256))
    ∙ ap (λ m. m * 256 + n % 256) (read_uint-put_uint k (n / 256) h)
    ∙ omega arith

-- Every uint64 is read back from the eight bytes of the meta value.
pub decode_meta-put_uint : (n : ℕ) → n < u64 → decode_meta (some (put_uint 8 n)) ≡ n
unfolding decode_meta
decode_meta-put_uint n h = rw (length-put_uint 8 n) (read_uint-put_uint 8 n (omega arith))

module _ (p : Pebble) where
  get_block-save_block :
      (n m : ℕ) (d : Bytes) (s t : p.Db)
      → n < u64
      → m < u64
      → save_block p n d s ≡ some t
      → get_block p m t ≡ (if n == m then some d else get_block p m s)
  unfolding save_block get_block
  get_block-save_block n m d s t hn hm e =
      p.get-set s t (block_key n) d (block_key m) e ∙ (rw (block_key_eq n m hn hm) refl)

  get_block-delete_block_range :
      (a b m : ℕ) (s t : p.Db)
      → a < u64
      → b + 1 < u64
      → m < u64
      → delete_block_range p a b s ≡ some t
      → get_block p m t ≡ (if leb a m && leb m b then none else get_block p m s)
  unfolding delete_block_range get_block
  get_block-delete_block_range a b m s t ha hb hm e =
      p.get-delete_range s t (block_key a) (block_key (add64 b 1)) (block_key m) e
      ∙ (rw (block_key_le a m ha hm, block_key_lt m (add64 b 1) hm (omega arith)) (ground arith))

  get_batch-save_batch :
      (a m : ℕ) (d : Bytes) (s t : p.Db)
      → a + 99 < u64
      → m + 99 < u64
      → save_batch p a (a + 99) d s ≡ some t
      → get_batch_compressed p m t ≡ (if a == m then some d else get_batch_compressed p m s)
  unfolding save_batch get_batch_compressed
  get_batch-save_batch a m d s t ha hm e =
      let whole : sub64 (add64 m batch_size) 1 ≡ m + 99 = omega arith in
      rw (whole, get_batch_compressed)
        (p.get-set s t (batch_key a (a + 99)) d (batch_key m (m + 99)) e
          ∙ (rw (batch_key_eq a m ha hm) refl))

  -- The implementation with pebble fulfils the contract of `Storage`.
  pub pebble_storage-IsStorage : IsStorage (pebble_storage p)
  unfolding save_block get_block delete_block_range save_batch get_batch_compressed get_meta
      save_meta
  pebble_storage-IsStorage = record {
    get_block-save_block = get_block-save_block;
    get_block-delete_block_range = get_block-delete_block_range;
    get_block-save_batch = λ a b m d s t e.
        p.get-set s t (batch_key a b) d (block_key m) e ∙ (rw (batch_ne_block m a b) refl);
    get_block-save_meta =
        λ k m s t e. p.get-set s t meta_key _ (block_key m) e ∙ (rw (meta_ne_block m) refl);
    get_batch-save_batch = get_batch-save_batch;
    get_batch-save_block = λ n m d s t e.
        p.get-set s t (block_key n) d _ e
        ∙ (rw (block_ne_batch n m (sub64 (add64 m batch_size) 1)) refl);
    get_batch-save_meta = λ k m s t e.
        p.get-set s t meta_key _ _ e ∙ (rw (meta_ne_batch m (sub64 (add64 m batch_size) 1)) refl);
    get_batch-delete_block_range = λ a b m s t ha hb e.
        p.get-delete_range s t (block_key a) (block_key (add64 b 1)) _ e
        ∙ (rw (block_le_batch a m (sub64 (add64 m batch_size) 1)) refl);
    get_meta-save_block = λ n d s t e.
        ap decode_meta {y = p.get s meta_key}
          (p.get-set s t (block_key n) d meta_key e ∙ (rw (block_ne_meta n) refl));
    get_meta-save_batch = λ a b d s t e.
        ap decode_meta {y = p.get s meta_key}
          (p.get-set s t (batch_key a b) d meta_key e ∙ (rw (batch_ne_meta a b) refl));
    get_meta-delete_block_range = λ a b s t ha hb e. ap decode_meta {y = p.get s meta_key} (
        p.get-delete_range s t (block_key a) (block_key (add64 b 1)) meta_key e
        ∙ (rw (block_le_meta (add64 b 1)) (ground arith)));
    get_meta-save_meta = λ k s t hk e.
        ap decode_meta {y = some (put_uint 8 k)}
          (p.get-set s t meta_key _ meta_key e ∙ (rw (meta_eq_meta) refl))
        ∙ decode_meta-put_uint k hk;
  }
