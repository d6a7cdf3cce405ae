-- ===== src/Subnet/Accept/Torn.antt =====
-- On evm-ingestion/storage/compactor.go and indexing-subnet-evm/block.go: a block whose `Accept` fails
-- in the middle of a compaction, which is another goroutine.
use l1_data_tools.Common.{
  ℕ, ◌+◌, ◌≤◌, ◌<◌, ◌≡◌, refl, sym, ap, ◌∙◌, Bool, true, false, Option, none, some, ◌>>=◌, arith,
  Bytes, leb, u64, ◌==◌, >>=-eq-some, subst,
}
use mathlib.Core.Option.{some_inj}
use l1_data_tools.Storage.Batch.{Zstd, batch_start}
use l1_data_tools.Storage.Compactor.ReadBack.{
  read_back, read_back-none, IsStart, batch_start_iff, inside_test,
}
use l1_data_tools.Storage.VersionDb.{
  Database, VersionDb, save_batch, save_meta, delete_block_range, new_storage, get_block,
  get_batch_compressed, version_db_storage,
}
use l1_data_tools.Storage.VersionDb.Laws.{version_db_storage-IsStorage}
use l1_data_tools.Storage.VersionDb.Restarts.{get_block-new_storage, get_batch-new_storage}
use l1_data_tools.Subnet.Index.{Chain}
use l1_data_tools.Subnet.Accept.{Vm, commit, abort, accept}
use l1_data_tools.Subnet.Accept.Outcome.{Outcome, Indexed, not_indexed, aborted, committed, outcome}

module _ (d : Database) where
  -- The three writes of `compactOneBatch`, with an `Abort` before the last one.
  unfoldable pub tear : ℕ → Bytes → Vm d → Option (Vm d)
  tear start compressed vm = do
    t ← save_batch d start (start + 99) compressed vm.store
    u ← save_meta d (start + 99) t
    let stopped = abort d (record vm { store = u })
    w ← delete_block_range d start (start + 99) stopped.store
    some (record stopped { store = w })

  record Torn (start : ℕ) (vm torn : Vm d) : Type 0 where
    opened : VersionDb d
    on_disk : opened.db ≡ vm.disk
    deleted : delete_block_range d start (start + 99) opened ≡ some torn.store

  tear-some :
      (start : ℕ) (compressed : Bytes) (vm torn : Vm d)
      → tear start compressed vm ≡ some torn
      → Torn start vm torn
  unfolding tear abort
  tear-some start compressed vm torn e =
      let (t, saved, e') = >>=-eq-some (save_batch d start (start + 99) compressed vm.store) _ e in
      let (u, marked, e'') = >>=-eq-some (save_meta d (start + 99) t) _ e' in
      let stopped = abort d (record vm { store = u }) in
      let (w, deleted, e''') =
        >>=-eq-some (delete_block_range d start (start + 99) stopped.store) _ e'' in
      record {
        opened = stopped.store;
        on_disk = refl;
        deleted =
            subst (λ x. delete_block_range d start (start + 99) stopped.store ≡ some x)
              (ap (λ (x : Vm d). x.store) (some_inj.0 e''')) deleted;
      }

  module _ (start n : ℕ) (h : IsStart start) (lo : start ≤ n) (hi : n ≤ start + 99) (vm torn : Vm d)
      (q : Torn start vm torn) where
    torn_block : get_block d n torn.store ≡ none
    torn_block =
        (version_db_storage-IsStorage d).get_block-delete_block_range start (start + 99) n q.opened
          torn.store (omega (arith, h.room)) (omega (arith, h.room)) (omega (arith, h.room))
          q.deleted
        ∙ (rw (inside_test start n lo hi) refl)

    torn_batch :
        get_batch_compressed d start (new_storage d vm.disk) ≡ none
        → get_batch_compressed d start torn.store ≡ none
    torn_batch none_there =
        (version_db_storage-IsStorage d).get_batch-delete_block_range start (start + 99) start
          q.opened torn.store (omega (arith, h.room)) (omega (arith, h.room)) q.deleted
        ∙ sym (get_batch-new_storage d start q.opened)
        ∙ ap (λ db. get_batch_compressed d start (new_storage d db)) q.on_disk
        ∙ none_there

committed_disk :
    (d : Database) (c : Chain) (height : ℕ) (vm v : Vm d) (i : Indexed d c height vm v)
    → (commit d height v).disk ≡ i.store.db
unfolding commit
committed_disk d c height vm v i = ap (λ (x : Vm d). x.store.db) i.state

-- A compaction has saved a batch and its end, in memory; the `Accept` of a block fails, which drops
-- both; then the compaction deletes the blocks, and the next block is accepted. Where the batch was not
-- committed before, each of its hundred blocks is lost: a program that starts now reads nothing.
pub accept-tear :
    (z : Zstd) (d : Database) (c : Chain) (start n height : ℕ) (compressed : Bytes) (vm torn : Vm d)
    → IsStart start
    → start ≤ n
    → n ≤ start + 99
    → get_batch_compressed d start (new_storage d vm.disk) ≡ none
    → tear d start compressed vm ≡ some torn
    → leb height torn.last_indexed ≡ false
    → start + 99 < height
    → height < u64
    → (accept d c true height torn).0 ≡ true
    → read_back z (version_db_storage d) n (new_storage d (accept d c true height torn).1.disk)
      ≡ none
accept-tear z d c start n height compressed vm torn h lo hi absent e above far small ok =
    lost _ (outcome d c height torn true above) ok
  where
    q : Torn d start vm torn
    q = tear-some d start compressed vm torn e

    same : start ≡ batch_start n
    same = ground (arith, batch_start_iff start n h)

    other : (height == n) ≡ false
    other = ground arith

    lost :
        (r : Bool × Vm d)
        → Outcome d c height torn true r
        → r.0 ≡ true
        → read_back z (version_db_storage d) n (new_storage d r.1.disk) ≡ none
    lost r (not_indexed _ p) ok = cc (ap (λ (x : Bool × Vm d). x.0) p)
    lost r (aborted v i _ p) ok = cc (ap (λ (x : Bool × Vm d). x.0) p)
    lost r (committed v i _ p) ok =
        subst (λ db. read_back z (version_db_storage d) n (new_storage d db) ≡ none)
          (sym (ap (λ (x : Bool × Vm d). x.1.disk) p ∙ committed_disk d c height torn v i))
          (read_back-none z (version_db_storage d) (version_db_storage-IsStorage d) n
            (new_storage d i.store.db)
            (get_block-new_storage d n i.store
              ∙ (version_db_storage-IsStorage d).get_block-save_block height n i.text torn.store
                  i.store small (omega arith) i.saved
              ∙ (rw other (torn_block d start n h lo hi vm torn q)))
            (subst (λ k. get_batch_compressed d k (new_storage d i.store.db) ≡ none) same
              (get_batch-new_storage d start i.store
                ∙ (version_db_storage-IsStorage d).get_batch-save_block height start i.text
                    torn.store i.store i.saved
                ∙ torn_batch d start n h lo hi vm torn q absent)))
