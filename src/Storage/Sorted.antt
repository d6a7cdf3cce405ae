-- ===== src/Storage/Sorted.antt =====
-- An association list as the database of the chain: the assumptions about it can be met. Used by
-- the concrete instances only.
use l1_data_tools.Common.{
  ◌≡◌, refl, sym, ap, ◌∙◌, inl, inr, Bool, true, false, ◌||◌, List, [], ◌∷◌, Option, none, some,
  arith, Bytes, compare_bytes, bytes_eq, bytes_lt, bytes_eq_refl, bytes_eq_eq, if◌then◌else◌,
  Bool-cases, subst, All, All-map, Ordering,
}
use mathlib.Core.Option.{some_inj}
use l1_data_tools.Storage.VersionDb.{Database, contains, Ascending, has_prefix}
use l1_data_tools.Storage.Memory.{Table, get, memory_get-set}

-- Into an ascending list, once.
pub insert_key : Bytes → List Bytes → List Bytes
insert_key k [] = k ∷ []
insert_key k (x ∷ xs) =
    let rest = insert_key k xs in
    elim (compare_bytes k x) [
      | Ordering.lt ↦ k ∷ x ∷ xs
      | Ordering.eq ↦ x ∷ xs
      | Ordering.gt ↦ x ∷ rest
    ]

unfoldable pub keys_of : Table → Bytes → List Bytes
keys_of [] prefix = []
keys_of ((k, v) ∷ db) prefix =
    let rest = keys_of db prefix in if has_prefix prefix k then insert_key k rest else rest

unfoldable pub delete_keys : Table → List Bytes → Table
delete_keys [] ks = []
delete_keys ((k, v) ∷ db) ks =
    let rest = delete_keys db ks in if contains ks k then rest else (k, v) ∷ rest

lt_trans : (a b c : Bytes) → bytes_lt a b ≡ true → bytes_lt b c ≡ true → bytes_lt a c ≡ true
unfolding compare_bytes
lt_trans [] [] c h k = cc
lt_trans [] (y ∷ b) [] h k = cc
lt_trans [] (y ∷ b) (z ∷ c) h k = refl
lt_trans (x ∷ a) [] c h k = cc
lt_trans (x ∷ a) (y ∷ b) [] h k = cc
lt_trans (x ∷ a) (y ∷ b) (z ∷ c) h k = ground (arith, lt_trans a b c)

gt_lt : (a b : Bytes) → compare_bytes a b ≡ Ordering.gt → bytes_lt b a ≡ true
unfolding compare_bytes
gt_lt [] [] h = cc
gt_lt [] (y ∷ b) h = cc
gt_lt (x ∷ a) [] h = refl
gt_lt (x ∷ a) (y ∷ b) h = ground (arith, gt_lt a b)

data Compared (a b : Bytes) : Type 0 where
  less : compare_bytes a b ≡ Ordering.lt → Compared a b
  same : compare_bytes a b ≡ Ordering.eq → Compared a b
  more : compare_bytes a b ≡ Ordering.gt → Compared a b

compared : (a b : Bytes) → Compared a b
compared a b = go (compare_bytes a b) refl
  where
    go : (o : Ordering) → compare_bytes a b ≡ o → Compared a b
    go Ordering.lt e = less e
    go Ordering.eq e = same e
    go Ordering.gt e = more e

insert_key-All :
    (P : Bytes → Type 0) (k : Bytes) (xs : List Bytes) → P k → All P xs → All P (insert_key k xs)
unfolding insert_key
insert_key-All P k [] p h = (p, tt)
insert_key-All P k (x ∷ xs) p (q, h) = elim (compared k x) [
  | less e ↦ rw (e, insert_key) (p, (q, h))
  | same e ↦ rw (e, insert_key) (q, h)
  | more e ↦ rw (e, insert_key) (q, insert_key-All P k xs p h)
]

insert_key-Ascending : (k : Bytes) (xs : List Bytes) → Ascending xs → Ascending (insert_key k xs)
unfolding insert_key
insert_key-Ascending k [] h = (tt, tt)
insert_key-Ascending k (x ∷ xs) (first, h) = elim (compared k x) [
  | less e ↦
      let below : bytes_lt k x ≡ true = rw (e, bytes_lt) refl in
      rw (e, insert_key) ((below, All-map _ xs (λ y q. lt_trans k x y below q) first), (first, h))
  | same e ↦ rw (e, insert_key) (first, h)
  | more e ↦
      rw (e, insert_key)
        (
          insert_key-All (λ y. bytes_lt x y ≡ true) k xs (gt_lt k x e) first,
          insert_key-Ascending k xs h,
        )
]

twice : (a b : Bool) → (a || b) ≡ (a || (a || b))
twice true b = refl
twice false b = refl

swapped_or : (a b c : Bool) → (a || (b || c)) ≡ (b || (a || c))
swapped_or true true c = refl
swapped_or true false c = refl
swapped_or false b c = refl

contains-insert_key :
    (k : Bytes) (xs : List Bytes) (j : Bytes)
    → contains (insert_key k xs) j ≡ (bytes_eq k j || contains xs j)
unfolding insert_key contains
contains-insert_key k [] j = refl
contains-insert_key k (x ∷ xs) j = elim (compared k x) [
  | less e ↦ rw (e, insert_key) refl
  | same e ↦
      let there : k ≡ x = bytes_eq_eq k x (rw (e, bytes_eq) refl) in
      rw (e, insert_key)
        (subst (λ y. contains (y ∷ xs) j ≡ (bytes_eq k j || contains (y ∷ xs) j)) there
          (twice (bytes_eq k j) (contains xs j)))
  | more e ↦
      rw (e, insert_key)
        (ap (λ b. bytes_eq x j || b) (contains-insert_key k xs j)
          ∙ swapped_or (bytes_eq x j) (bytes_eq k j) (contains xs j))
]

-- A key that is listed has a value, and the prefix.
abbrev pub Listed : Table → Bytes → Bytes → Type 0
Listed db prefix k = ((v : Bytes) × (get db k ≡ some v)) × (has_prefix prefix k ≡ true)

Listed-cons :
    (i u : Bytes) (db : Table) (prefix k : Bytes)
    → Listed db prefix k
    → Listed ((i, u) ∷ db) prefix k
unfolding get
Listed-cons i u db prefix k ((v, e), p) = elim (Bool-cases (bytes_eq i k)) [
  | inl here ↦ ((u, rw here refl), p)
  | inr elsewhere ↦ ((v, rw elsewhere e), p)
]

pub keys_of-Listed : (db : Table) (prefix : Bytes) → All (Listed db prefix) (keys_of db prefix)
unfolding keys_of get
keys_of-Listed [] prefix = tt
keys_of-Listed ((k, v) ∷ db) prefix =
    let later =
      All-map _ (keys_of db prefix) (λ j h. Listed-cons k v db prefix j h)
        (keys_of-Listed db prefix) in
    elim (Bool-cases (has_prefix prefix k)) [
      | inr no_prefix ↦ rw no_prefix later
      | inl fits ↦ rw fits (
          insert_key-All (Listed ((k, v) ∷ db) prefix) k (keys_of db prefix)
            ((v, rw (bytes_eq_refl k) refl), fits) later)
    ]

pub keys_of-Ascending : (db : Table) (prefix : Bytes) → Ascending (keys_of db prefix)
unfolding keys_of
keys_of-Ascending [] prefix = tt
keys_of-Ascending ((k, v) ∷ db) prefix = elim (Bool-cases (has_prefix prefix k)) [
  | inr no_prefix ↦ rw no_prefix (keys_of-Ascending db prefix)
  | inl fits ↦ rw fits (insert_key-Ascending k (keys_of db prefix) (keys_of-Ascending db prefix))
]

pub keys_of_complete :
    (db : Table) (prefix k v : Bytes)
    → get db k ≡ some v
    → has_prefix prefix k ≡ true
    → contains (keys_of db prefix) k ≡ true
unfolding keys_of get
keys_of_complete [] prefix k v e p = cc
keys_of_complete ((i, u) ∷ db) prefix k v e p = elim (Bool-cases (bytes_eq i k)) [
  | inl here ↦
      let fits : has_prefix prefix i ≡ true =
        subst (λ j. has_prefix prefix j ≡ true) (sym (bytes_eq_eq i k here)) p in
      rw fits (contains-insert_key i (keys_of db prefix) k ∙ (rw here refl))
  | inr elsewhere ↦
      let stored : get db k ≡ some v = sym (rw elsewhere refl) ∙ e in
      let later = keys_of_complete db prefix k v stored p in
      elim (Bool-cases (has_prefix prefix i)) [
        | inr no_prefix ↦ rw no_prefix later
        | inl fits ↦
            rw fits (contains-insert_key i (keys_of db prefix) k ∙ (rw (elsewhere, later) refl))
      ]
]

get-delete_keys :
    (db : Table) (ks : List Bytes) (j : Bytes)
    → get (delete_keys db ks) j ≡ (if contains ks j then none else get db j)
unfolding get delete_keys
get-delete_keys [] ks j = ground arith
get-delete_keys ((k, v) ∷ db) ks j = elim (Bool-cases (bytes_eq k j)) [
  | inl here ↦
      let at : k ≡ j = bytes_eq_eq k j here in
      elim (Bool-cases (contains ks k)) [
        | inl gone ↦
            let gone_j : contains ks j ≡ true = ap (contains ks) (sym at) ∙ gone in
            rw (gone, gone_j) (get-delete_keys db ks j ∙ (rw gone_j refl))
        | inr kept ↦
            let kept_j : contains ks j ≡ false = ap (contains ks) (sym at) ∙ kept in
            rw (kept, kept_j, here) refl
      ]
  | inr elsewhere ↦ elim (Bool-cases (contains ks k)) [
    | inl gone ↦ rw (gone, elsewhere) (get-delete_keys db ks j)
    | inr kept ↦ rw (kept, elsewhere) (get-delete_keys db ks j)
  ]
]

pub sorted_delete :
    (db db' : Table) (ks : List Bytes) (j : Bytes)
    → ◌≡◌ {A = Option Table} (some (delete_keys db ks)) (some db')
    → get db' j ≡ (if contains ks j then none else get db j)
sorted_delete db db' ks j e = ap (λ t. get t j) (sym (some_inj.0 e)) ∙ get-delete_keys db ks j

abbrev pub sorted : Database
sorted = record {
  Db = Table;
  get = get;
  put = λ db k v. some ((k, v) ∷ db);
  write_deletes = λ db ks. some (delete_keys db ks);
  keys = keys_of;
  get-put = memory_get-set;
  get-write_deletes = sorted_delete;
  keys_present = keys_of-Listed;
  keys_complete = keys_of_complete;
  keys_ascending = keys_of-Ascending;
}
