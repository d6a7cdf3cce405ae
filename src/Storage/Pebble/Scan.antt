-- ===== src/Storage/Pebble/Scan.antt =====
-- On evm-ingestion/storage/pebble.go: what the iterators over the blocks find.
use l1_data_tools.Common.{
  ℕ, ◌≤◌, ◌<◌, ◌≡◌, inl, inr, refl, sym, ap, ◌∙◌, Bool, true, false, ◌&&◌, [], ◌∷◌, Option, none,
  some, arith, Bytes, compare_bytes, bytes_eq, bytes_lt, bytes_le, bytes_eq_eq, u64, leb→le,
  if◌then◌else◌, Bool-cases, subst,
}
use l1_data_tools.Storage.Keys.{pad, block_key, batch_key, meta_key, parse_block_key}
use l1_data_tools.Storage.Keys.Compare.{block_key_le}
use l1_data_tools.Storage.Keys.RoundTrip.{parse_block_key-block_key}
use l1_data_tools.Storage.Pebble.{
  Pebble, block_lo, block_hi, save_block, get_block, first_block, latest_block, delete_block_range,
  save_batch, save_meta,
}

-- The keys that the program writes.
pub data IsOwnKey (k : Bytes) : Type 0 where
  block : (n : ℕ) → n < u64 → k ≡ block_key n → IsOwnKey k
  batch : (a b : ℕ) → a < u64 → b < u64 → k ≡ batch_key a b → IsOwnKey k
  last_compacted : k ≡ meta_key → IsOwnKey k

-- Every key of the database is one of them.
abbrev pub IsOwn : (p : Pebble) → p.Db → Type 0
IsOwn p db = (k v : Bytes) → p.get db k ≡ some v → IsOwnKey k

nil_le : (s : Bytes) → bytes_le [] s ≡ true
unfolding compare_bytes
nil_le [] = refl
nil_le (c ∷ s) = refl

block_within : (n : ℕ) → (bytes_le block_lo (block_key n) && bytes_lt (block_key n) block_hi) ≡ true
unfolding block_key compare_bytes
block_within n = ground (arith, nil_le (pad 20 n))

module _ (p : Pebble) where
  set-IsOwn :
      (db db' : p.Db) (k v : Bytes)
      → IsOwnKey k
      → IsOwn p db
      → p.set db k v ≡ some db'
      → IsOwn p db'
  set-IsOwn db db' k v own h e j w found = elim (Bool-cases (bytes_eq k j)) [
    | inl same ↦ subst IsOwnKey (bytes_eq_eq k j same) own
    | inr other ↦ h j w (sym (p.get-set db db' k v j e ∙ (rw other refl)) ∙ found)
  ]

  -- A key within the bounds of the block iterator is the key of a block.
  own_block :
      (k : Bytes)
      → IsOwnKey k
      → (bytes_le block_lo k && bytes_lt k block_hi) ≡ true
      → (n : ℕ) × (n < u64) × (k ≡ block_key n)
  unfolding block_key batch_key compare_bytes
  own_block k (block n h e) w = (n, h, e)
  own_block k (batch a b ha hb e) w =
      cc (subst (λ x. (bytes_le block_lo x && bytes_lt x block_hi) ≡ true) e w)
  own_block k (last_compacted e) w =
      cc (subst (λ x. (bytes_le block_lo x && bytes_lt x block_hi) ≡ true) e w)

  -- Each write of the program keeps the database to its own keys.
  pub save_block-IsOwn :
      (n : ℕ) (d : Bytes) (db db' : p.Db)
      → n < u64
      → IsOwn p db
      → save_block p n d db ≡ some db'
      → IsOwn p db'
  unfolding save_block
  save_block-IsOwn n d db db' hn h e = set-IsOwn db db' (block_key n) d (block n hn refl) h e

  pub save_batch-IsOwn :
      (a b : ℕ) (d : Bytes) (db db' : p.Db)
      → a < u64
      → b < u64
      → IsOwn p db
      → save_batch p a b d db ≡ some db'
      → IsOwn p db'
  unfolding save_batch
  save_batch-IsOwn a b d db db' ha hb h e =
      set-IsOwn db db' (batch_key a b) d (batch a b ha hb refl) h e

  pub save_meta-IsOwn :
      (k : ℕ) (db db' : p.Db) → IsOwn p db → save_meta p k db ≡ some db' → IsOwn p db'
  unfolding save_meta
  save_meta-IsOwn k db db' h e = set-IsOwn db db' meta_key _ (last_compacted refl) h e

  pub delete_block_range-IsOwn :
      (a b : ℕ) (db db' : p.Db) → IsOwn p db → delete_block_range p a b db ≡ some db' → IsOwn p db'
  unfolding delete_block_range
  delete_block_range-IsOwn a b db db' h e j w found =
      h j w (kept _ (p.get-delete_range db db' _ _ j e) found)
    where
      kept :
          (gone : Bool) {o o' : Option Bytes}
          → o' ≡ (if gone then none else o)
          → o' ≡ some w
          → o ≡ some w
      kept true q r = cc
      kept false q r = sym q ∙ r

  parse_own : (k : Bytes) (n : ℕ) → n < u64 → k ≡ block_key n → parse_block_key k ≡ some n
  parse_own k n h e = ap parse_block_key e ∙ parse_block_key-block_key n h

  -- If any block is stored, `FirstBlock` finds one, and it is the least: it is stored and not above
  -- any other. The database holds the program's own keys only.
  pub first_block_least :
      (db : p.Db) (m : ℕ) (d : Bytes)
      → IsOwn p db
      → m < u64
      → get_block p m db ≡ some d
      → (n : ℕ) × (first_block p db ≡ some n) × (n ≤ m) × (e : Bytes) × (get_block p n db ≡ some e)
  unfolding first_block get_block
  first_block_least db m d own hm found =
      let (k, is_first, below) =
        p.first_least db block_lo block_hi (block_key m) d found (block_within m) in
      let (e, present, inside) = p.first_present db block_lo block_hi k is_first in
      let (n, hn, its_key) = own_block k (own k e present) inside in
      (
        n,
        (rw is_first (parse_own k n hn its_key)),
        leb→le n m (
            sym (block_key_le n m hn hm)
            ∙ subst (λ x. bytes_le x (block_key m) ≡ true) its_key below),
        e,
        subst (λ x. p.get db x ≡ some e) its_key present,
      )

  -- If any block is stored, `LatestBlock` finds one, a uint64, and it is the greatest: it is stored and
  -- not below any other. The database holds the program's own keys only.
  pub latest_block_greatest :
      (db : p.Db) (m : ℕ) (d : Bytes)
      → IsOwn p db
      → m < u64
      → get_block p m db ≡ some d
      → (n : ℕ) × (n < u64)
        × (latest_block p db ≡ some n)
        × (m ≤ n)
        × (e : Bytes) × (get_block p n db ≡ some e)
  unfolding latest_block get_block
  latest_block_greatest db m d own hm found =
      let (k, is_last, above) =
        p.last_greatest db block_lo block_hi (block_key m) d found (block_within m) in
      let (e, present, inside) = p.last_present db block_lo block_hi k is_last in
      let (n, hn, its_key) = own_block k (own k e present) inside in
      (
        n,
        hn,
        (rw is_last (parse_own k n hn its_key)),
        leb→le m n (
            sym (block_key_le m n hm hn)
            ∙ subst (λ x. bytes_le (block_key m) x ≡ true) its_key above),
        e,
        subst (λ x. p.get db x ≡ some e) its_key present,
      )
