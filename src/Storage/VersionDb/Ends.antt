-- ===== src/Storage/VersionDb/Ends.antt =====
-- On `compactAll` of evm-ingestion/storage/compactor.go, over evm-ingestion/storage/versiondb.go: when
-- it ends.
use l1_data_tools.Common.{
  ℕ, zero, suc, ◌+◌, ◌≤◌, ◌<◌, ◌≡◌, ◌≢◌, refl, sym, ap, ◌∙◌, inl, inr, Bool, true, List, [], ◌∷◌,
  Option, none, some, ◌>>=◌, arith, Bytes, codes, bytes_eq, bytes_lt, bytes_eq_eq, ltb→lt, u64, leb,
  Bool-cases, subst, All, All-map,
}
use mathlib.Core.Option.{some_inj}
use l1_data_tools.Storage.Keys.{parse_block_key, block_key}
use l1_data_tools.Storage.Keys.Compare.{block_key_lt}
use l1_data_tools.Storage.Keys.RoundTrip.{parse_block_key-block_key}
use l1_data_tools.Storage.Batch.{batch_start, Zstd}
use l1_data_tools.Storage.Batch.Bounds.{batch_end_lem, batch_start_closed}
use l1_data_tools.Storage.Compactor.{compact_one_batch, compact_all}
use l1_data_tools.Storage.Compactor.ReadBack.{inside_test}
use l1_data_tools.Storage.Compactor.Outcome.{
  Outcome, batch_failed, meta_failed, delete_failed, done, Attempt, skipped, wrote, attempt,
}
use l1_data_tools.Storage.VersionDb.{
  Database, VersionDb, Ascending, contains, head_key, get_block, first_block, delete_block_range,
  version_db_storage,
}
use l1_data_tools.Storage.VersionDb.Laws.{version_db_storage-IsStorage}
use l1_data_tools.Storage.VersionDb.Cache.{HasOwnKeys, IsBlockKey, own_block, block_key_prefix}
use l1_data_tools.Storage.VersionDb.Compacts.{first_block-Stored}
use l1_data_tools.Storage.VersionDb.Within.{Within, outcome-Within}

contained :
    (k : Bytes) (ks : List Bytes) (j : Bytes)
    → All (λ y. bytes_lt k y ≡ true) ks
    → contains ks j ≡ true
    → bytes_lt k j ≡ true
unfolding contains
contained k [] j lows has = cc
contained k (x ∷ ks) j (low, lows) has = elim (Bool-cases (bytes_eq x j)) [
  | inl same ↦ subst (λ y. bytes_lt k y ≡ true) (bytes_eq_eq x j same) low
  | inr differ ↦ contained k ks j lows (sym (rw differ refl) ∙ has)
]

-- The head of ascending keys is below each of them.
head_least :
    (f n : ℕ) (k : Bytes) (ks : List Bytes)
    → f < u64
    → n < u64
    → k ≡ block_key f
    → Ascending (k ∷ ks)
    → contains (k ∷ ks) (block_key n) ≡ true
    → f ≤ n
unfolding contains
head_least f n k ks hf hn e (lows, asc) has = elim (Bool-cases (bytes_eq k (block_key n))) [
  | inl same ↦
      let equal : f ≡ n = some_inj.0 (
        sym (parse_block_key-block_key f hf)
        ∙ ap parse_block_key (sym e ∙ bytes_eq_eq k (block_key n) same)
        ∙ parse_block_key-block_key n hn) in
      omega arith
  | inr differ ↦
      let rest : contains ks (block_key n) ≡ true = sym (rw differ refl) ∙ has in
      let later : bytes_lt k (block_key n) ≡ true = contained k ks (block_key n) lows rest in
      let below : f < n =
        ltb→lt f n
          (sym (block_key_lt f n hf hn) ∙ subst (λ x. bytes_lt x (block_key n) ≡ true) e later) in
      omega (arith, below)
]

head_key-least :
    (f n : ℕ) (ks : List Bytes)
    → n < u64
    → All IsBlockKey ks
    → Ascending ks
    → (head_key ks >>= parse_block_key) ≡ some f
    → contains ks (block_key n) ≡ true
    → f ≤ n
unfolding head_key contains
head_key-least f n [] hn own asc e has = cc
head_key-least f n (k ∷ ks) hn ((m, hm, key), own) asc e has =
    let same : m ≡ f =
      some_inj.0 (sym (parse_block_key-block_key m hm) ∙ ap parse_block_key (sym key) ∙ e) in
    subst (λ x. x ≤ n) same (head_least m n k ks hm hn key asc has)

module _ (d : Database) where
  -- The first block is the least of those that are stored.
  first_block_least :
      (s : VersionDb d) (f n : ℕ) (v : Bytes)
      → HasOwnKeys d s.db
      → first_block d s ≡ some f
      → n < u64
      → get_block d n s ≡ some v
      → f ≤ n
  unfolding first_block get_block
  first_block_least s f n v own e hn stored =
      head_key-least f n (d.keys s.db (codes "block:")) hn
        (All-map _ (d.keys s.db (codes "block:")) (λ k h. own_block k (own k h.0.0 h.0.1) h.1)
          (d.keys_present s.db (codes "block:")))
        (d.keys_ascending s.db (codes "block:")) e
        (d.keys_complete s.db (codes "block:") (block_key n) v stored (block_key_prefix n))

  -- What the rounds keep: the keys are those of the program, the blocks lie between 1 and `bound`.
  pub record IsBounded (bound : ℕ) (s : VersionDb d) : Type 0 where
    pub own : HasOwnKeys d s.db
    pub blocks : (n : ℕ) (v : Bytes) → n < u64 → get_block d n s ≡ some v → (1 ≤ n) × (n ≤ bound)

  Within-IsBounded :
      (any bound : ℕ) (s t : VersionDb d) → Within d any s t → IsBounded bound s → IsBounded bound t
  Within-IsBounded any bound s t w h = record {
    own = w.own h.own;
    blocks = λ n v hn found. h.blocks n v hn (w.blocks n v found);
  }

  -- The first block is at least `least`, where there is one.
  abbrev From : ℕ → VersionDb d → Type 0
  From least s = (f : ℕ) → first_block d s ≡ some f → least ≤ f

  module _ (z : Zstd) (bound : ℕ) (room : bound + 1200 < u64)
      (deletes : (a b : ℕ) (s : VersionDb d) → delete_block_range d a b s ≢ none) where
    -- The blocks of the batch are gone.
    deleted :
        (a n : ℕ) (frame : Bytes) (s : VersionDb d) (r : Bool × VersionDb d)
        → a + 100 < u64
        → a ≤ n
        → n ≤ a + 99
        → r.0 ≡ true
        → Outcome z (version_db_storage d) a (a + 99) frame s r
        → get_block d n r.1 ≡ none
    deleted a n frame s r ha lo hi ok (batch_failed _ e) =
        cc (ap (λ (x : Bool × VersionDb d). x.0) e)
    deleted a n frame s r ha lo hi ok (meta_failed t _ _ e) =
        cc (ap (λ (x : Bool × VersionDb d). x.0) e)
    deleted a n frame s r ha lo hi ok (delete_failed t u _ _ e' e) =
        absurd (deletes a (a + 99) u e')
    deleted a n frame s r ha lo hi ok (done t u v _ _ e' e) =
        ap (λ (x : Bool × VersionDb d). get_block d n x.1) e
        ∙ (version_db_storage-IsStorage d).get_block-delete_block_range a (a + 99) n u v
            (omega arith) (omega arith) (omega arith) e'
        ∙ (rw (inside_test a n lo hi) refl)

    not_both : (o : Option Bytes) (v : Bytes) → o ≡ none → o ≡ some v → ⊥
    not_both o v e e' = cc

    -- What a round that goes on has done: it has moved the first block.
    moved :
        (least : ℕ) (s : VersionDb d) (r : Bool × VersionDb d)
        → IsBounded bound s
        → From least s
        → r.0 ≡ true
        → Attempt z (version_db_storage d) s r
        → IsBounded bound r.1 × From (least + 1) r.1 × (least ≤ bound)
    moved least s r h from ok (skipped e) = cc (ap (λ (x : Bool × VersionDb d). x.0) e)
    moved least s r h from ok (wrote first latest frame is_first is_latest far run out) =
        let (small, v, found) = first_block-Stored d s first h.own is_first in
        let (lo, hi) = h.blocks first v small found in
        let a : ℕ = batch_start first in
        let closed = batch_start_closed first lo (omega arith) in
        let whole = batch_end_lem (batch_start first) (omega (arith, closed)) in
        let out_ =
          subst (λ b. Outcome z (version_db_storage d) (batch_start first) b frame s r) whole out in
        let w =
          outcome-Within d z u64 (batch_start first) frame s (omega (arith, closed))
            (omega (arith, closed)) r out_ in
        let bounded = Within-IsBounded u64 bound s r.1 w h in
        (
          bounded,
          λ f e.
              let (small_, v_, found_) = first_block-Stored d r.1 f bounded.own e in
              let above : first ≤ f =
                first_block_least s first f v_ h.own is_first small_ (w.blocks f v_ found_) in
              elim (Bool-cases (leb f (batch_start first + 99))) [
                | inr past ↦ ground (arith, from first is_first, closed)
                | inl inside ↦ absurd (
                    not_both (get_block d f r.1) v_
                      (deleted (batch_start first) f frame s r (omega (arith, closed))
                        (omega (arith, closed, above)) (ground arith) ok out_)
                      found_)
              ],
          omega (arith, hi, from first is_first),
        )

    rounds_end :
        (cancelled : ℕ → Bool) (rounds least : ℕ) (s : VersionDb d)
        → IsBounded bound s
        → From least s
        → bound < least + rounds
        → (t : VersionDb d) × (compact_all z (version_db_storage d) cancelled (suc rounds) s
            ≡ some t)
    unfolding compact_all
    rounds_end cancelled zero least s h from enough = elim (Bool-cases (cancelled 0)) [
      | inl stop ↦ (s, rw stop refl)
      | inr go_on ↦ elim (Bool-cases (compact_one_batch z (version_db_storage d) s).0) [
        | inr last ↦ ((compact_one_batch z (version_db_storage d) s).1, rw (go_on, last) refl)
        | inl more ↦
            let (_, _, within) = moved least s _ h from more (attempt z (version_db_storage d) s) in
            absurd (omega (arith, within))
      ]
    ]
    rounds_end cancelled (suc rounds) least s h from enough =
        elim (Bool-cases (cancelled (suc rounds))) [
          | inl stop ↦ (s, rw stop refl)
          | inr go_on ↦ elim (Bool-cases (compact_one_batch z (version_db_storage d) s).0) [
            | inr last ↦ ((compact_one_batch z (version_db_storage d) s).1, rw (go_on, last) refl)
            | inl more ↦
                let (bounded, later, _) =
                  moved least s _ h from more (attempt z (version_db_storage d) s) in
                let (t, e) =
                  rounds_end cancelled rounds (least + 1)
                    (compact_one_batch z (version_db_storage d) s).1 bounded later (omega arith) in
                (t, rw (go_on, more) e)
          ]
        ]

-- `compactAll` ends, whichever writes of a batch or of its end fail, and whenever the context is done:
-- where the keys of the database are those of the program, its blocks lie between 1 and `bound`, away
-- from the wrap-around, and no deletion fails, it makes at most `bound + 2` rounds.
pub compact_all-ends :
    (z : Zstd) (d : Database) (bound : ℕ) (cancelled : ℕ → Bool) (s : VersionDb d)
    → bound + 1200 < u64
    → ((a b : ℕ) (t : VersionDb d) → delete_block_range d a b t ≢ none)
    → IsBounded d bound s
    → (t : VersionDb d) × (compact_all z (version_db_storage d) cancelled (bound + 2) s ≡ some t)
compact_all-ends z d bound cancelled s room deletes h =
    let (t, e) =
      rounds_end d z bound room deletes cancelled (bound + 1) 0 s h (λ f e. omega arith)
        (omega arith) in
    (t, ap (λ k. compact_all z (version_db_storage d) cancelled k s) (omega arith) ∙ e)
