-- ===== src/Storage/Memory.antt =====
-- An association list as a pebble database: the assumptions about pebble can be met. Used by the
-- concrete instances only.
use l1_data_tools.Common.{
  ◌≡◌, ◌⊎◌, refl, sym, ap, ◌∙◌, inl, inr, Bool, true, false, ◌&&◌, List, [], ◌∷◌, Option, none,
  some, arith, Bytes, bytes_eq, bytes_lt, bytes_le, bytes_eq_refl, bytes_eq_eq, bytes_le_total,
  bytes_le_trans, if◌then◌else◌, Bool-cases, subst,
}
use mathlib.Core.Option.{some_inj}
use l1_data_tools.Storage.Pebble.{Pebble}

abbrev pub Table : Type 0
Table = List (Bytes × Bytes)

abbrev pub within : Bytes → Bytes → Bytes → Bool
within lo hi k = bytes_le lo k && bytes_lt k hi

unfoldable pub get : Table → Bytes → Option Bytes
get [] j = none
get ((k, v) ∷ db) j = if bytes_eq k j then some v else get db j

unfoldable pub delete_range : Table → Bytes → Bytes → Table
delete_range [] lo hi = []
delete_range ((k, v) ∷ db) lo hi =
    let rest = delete_range db lo hi in if within lo hi k then rest else (k, v) ∷ rest

-- The better of a key and the best of the rest.
unfoldable pub pick : (Bytes → Bytes → Bool) → Bytes → Option Bytes → Option Bytes
pick le k none = some k
pick le k (some j) = if le k j then some k else some j

-- The extreme key within the bounds.
unfoldable pub extreme : (Bytes → Bytes → Bool) → Table → Bytes → Bytes → Option Bytes
extreme le [] lo hi = none
extreme le ((k, v) ∷ db) lo hi =
    let rest = extreme le db lo hi in if within lo hi k then pick le k rest else rest

get-delete_range :
    (db : Table) (lo hi j : Bytes)
    → get (delete_range db lo hi) j ≡ (if within lo hi j then none else get db j)
unfolding get delete_range
get-delete_range [] lo hi j = ground arith
get-delete_range ((k, v) ∷ db) lo hi j = elim (Bool-cases (bytes_eq k j)) [
  | inl same ↦
      rw (← bytes_eq_eq k j same) (ground (arith, get-delete_range db lo hi k, bytes_eq_refl k))
  | inr other ↦ ground (arith, get-delete_range db lo hi j)
]

get_self : (db : Table) (k v : Bytes) → get ((k, v) ∷ db) k ≡ some v
unfolding get
get_self db k v = ground (arith, bytes_eq_refl k)

abbrev Has : Table → Bytes → Type 0
Has db k = (v : Bytes) × (get db k ≡ some v)

Has-cons : (db : Table) (j w k : Bytes) → Has db k → Has ((j, w) ∷ db) k
unfolding get
Has-cons db j w k (v, h) = elim (Bool-cases (bytes_eq j k)) [
  | inl same ↦ (w, rw (same, get) refl)
  | inr other ↦ (v, rw (other, get) h)
]

module _ (le : Bytes → Bytes → Bool) where
  pick_either : (j k : Bytes) (o : Option Bytes) → pick le j o ≡ some k → (j ≡ k) ⊎ (o ≡ some k)
  unfolding pick
  pick_either j k o h = ground arith

  present :
      (db : Table) (lo hi k : Bytes)
      → extreme le db lo hi ≡ some k
      → Has db k × (within lo hi k ≡ true)
  unfolding extreme
  present [] lo hi k h = cc
  present ((j, w) ∷ db) lo hi k h = elim (Bool-cases (within lo hi j)) [
    | inr outside ↦
        let (has, inside) = present db lo hi k ((sym (rw (outside, extreme) refl)) ∙ h) in
        (Has-cons db j w k has, inside)
    | inl inside ↦
        elim (pick_either j k (extreme le db lo hi) ((sym (rw (inside, extreme) refl)) ∙ h)) [
          | inl e ↦ (
            subst (Has ((j, w) ∷ db)) e (w, get_self db j w),
            subst (λ x. within lo hi x ≡ true) e inside,
          )
          | inr e ↦ let (has, inside') = present db lo hi k e in (Has-cons db j w k has, inside')
        ]
  ]

  module _ (total : (a b : Bytes) → le a b ≡ false → le b a ≡ true)
      (trans : (a b c : Bytes) → le a b ≡ true → le b c ≡ true → le a c ≡ true) where
    le_refl_of_total : (a : Bytes) → le a a ≡ true
    le_refl_of_total a = ground (arith, total a a)

    pick_first :
        (j : Bytes) (o : Option Bytes) → (k : Bytes) × (pick le j o ≡ some k) × (le k j ≡ true)
    unfolding pick
    pick_first j none = (j, refl, le_refl_of_total j)
    pick_first j (some m) = elim (Bool-cases (le j m)) [
      | inl e ↦ (j, rw e refl, le_refl_of_total j)
      | inr e ↦ (m, rw e refl, total j m e)
    ]

    pick_second : (j m : Bytes) → (k : Bytes) × (pick le j (some m) ≡ some k) × (le k m ≡ true)
    unfolding pick
    pick_second j m = elim (Bool-cases (le j m)) [
      | inl e ↦ (j, rw e refl, e)
      | inr e ↦ (m, rw e refl, le_refl_of_total m)
    ]

    pub extreme_lem :
        (db : Table) (lo hi j v : Bytes)
        → get db j ≡ some v
        → within lo hi j ≡ true
        → (k : Bytes) × (extreme le db lo hi ≡ some k) × (le k j ≡ true)
    unfolding get
    extreme_lem [] lo hi j v h w = cc
    extreme_lem ((i, u) ∷ db) lo hi j v h w = elim (Bool-cases (bytes_eq i j)) [
      | inl same ↦ at_head (bytes_eq_eq i j same)
      | inr other ↦ in_tail (extreme_lem db lo hi j v ((sym (rw other refl)) ∙ h) w)
    ]
      where
        at_head : i ≡ j → (k : Bytes) × (extreme le ((i, u) ∷ db) lo hi ≡ some k) × (le k j ≡ true)
        at_head e =
            let (k, p, q) = pick_first i (extreme le db lo hi) in
            let inside : within lo hi i ≡ true = subst (λ x. within lo hi x ≡ true) (sym e) w in
            (k, unfold extreme in rw inside p, subst (λ x. le k x ≡ true) e q)

        in_tail :
            ((k : Bytes) × (extreme le db lo hi ≡ some k) × (le k j ≡ true))
            → (k : Bytes) × (extreme le ((i, u) ∷ db) lo hi ≡ some k) × (le k j ≡ true)
        in_tail (m, p, q) = elim (Bool-cases (within lo hi i)) [
          | inl inside ↦
              let (k, p', q') = pick_second i m in
              (k, unfold extreme in rw (inside) (ap (pick le i) p ∙ p'), trans k m j q' q)
          | inr outside ↦ (m, unfold extreme in rw outside p, q)
        ]

abbrev pub ge : Bytes → Bytes → Bool
ge a b = bytes_le b a

pub memory_get-set :
    (db db' : Table) (k v j : Bytes)
    → ◌≡◌ {A = Option Table} (some ((k, v) ∷ db)) (some db')
    → get db' j ≡ (if bytes_eq k j then some v else get db j)
unfolding get
memory_get-set db db' k v j h = ap (λ t. get t j) (sym (some_inj.0 h))

pub memory_get-delete_range :
    (db db' : Table) (lo hi j : Bytes)
    → ◌≡◌ {A = Option Table} (some (delete_range db lo hi)) (some db')
    → get db' j ≡ (if within lo hi j then none else get db j)
memory_get-delete_range db db' lo hi j h =
    ap (λ t. get t j) (sym (some_inj.0 h)) ∙ get-delete_range db lo hi j

module _ (le : Bytes → Bytes → Bool) where
  pub memory_present :
      (db : Table) (lo hi k : Bytes)
      → extreme le db lo hi ≡ some k
      → (v : Bytes) × (get db k ≡ some v) × (within lo hi k ≡ true)
  memory_present db lo hi k h = let ((v, has), inside) = present le db lo hi k h in (v, has, inside)

abbrev pub memory : Pebble
memory = record {
  Db = Table;
  get = get;
  set = λ db k v. some ((k, v) ∷ db);
  delete_range = λ db lo hi. some (delete_range db lo hi);
  first = extreme bytes_le;
  last = extreme ge;
  get-set = memory_get-set;
  get-delete_range = memory_get-delete_range;
  first_present = memory_present bytes_le;
  first_least = extreme_lem bytes_le bytes_le_total bytes_le_trans;
  last_present = memory_present ge;
  last_greatest =
      extreme_lem ge (λ a b. bytes_le_total b a) (λ a b c p q. bytes_le_trans c b a q p);
}
