-- ===== src/Subnet/Accept/Consistent.antt =====
-- On indexing-subnet-evm/block.go and vm.go: what is committed, and what the program sees, along the
-- accepted blocks and the restarts.
use l1_data_tools.Common.{
  ℕ, ◌+◌, ◌≤◌, ◌<◌, ◌≡◌, refl, sym, ap, ◌∙◌, inl, inr, Bool, true, false, [], none, some, arith,
  Bytes, bytes_eq, ltb, u64, if◌then◌else◌, ◌&&◌, Bool-cases, subst,
}
use l1_data_tools.Storage.Batch.{Zstd}
use l1_data_tools.Storage.Batch.RoundTrip.{IsLine}
use l1_data_tools.Storage.VersionDb.{Database, save_block, new_storage, latest_block}
use l1_data_tools.Storage.VersionDb.Covers.{
  Covers, Covers-latest, save_block-Covers, save_block-latest, Covers-empty,
}
use l1_data_tools.Storage.VersionDb.Compacts.{compact_one_batch-Covers, compact_one_batch-latest}
use l1_data_tools.Storage.VersionDb.Restarts.{
  new_storage-Covers, new_storage-latest, latest_block-new_storage,
}
use l1_data_tools.Subnet.Index.{Chain}
use l1_data_tools.Subnet.Accept.{
  Vm, commit, abort, compact, Start, ready, server_failed, vm_failed, chain_not_allowed,
  chain_id_required, or_zero, restored_height, restore, initialize,
}
use l1_data_tools.Subnet.Accept.Outcome.{Outcome, Indexed, not_indexed, aborted, committed, outcome}
use l1_data_tools.Subnet.Accept.Reach.{
  Agrees, Step, next, compacted, restarted, Reach, begun, stepped, at, IsConsistent, restarted_at,
}

module _ (z : Zstd) (d : Database) (block_of : ℕ → Bytes) where
  ready_only :
      (required allowed starts server : Bool) (vm t : Vm d)
      → (if required
          then chain_id_required
          else if allowed
          then (if starts then (if server then ready vm else server_failed) else vm_failed)
          else chain_not_allowed)
        ≡ ready t
      → t ≡ vm
  ready_only true allowed starts server vm t e = cc
  ready_only false true true true vm t e = cc
  ready_only false true true false vm t e = cc
  ready_only false true false server vm t e = cc
  ready_only false false starts server vm t e = cc

  module _ (height : ℕ) (db : d.Db) (c : Covers z d block_of height (at z d block_of db)) where
    restored : restored_height d (new_storage d db) ≡ height
    unfolding restored_height
    restored =
        let low = (new_storage-Covers z d block_of height (at z d block_of db) c).compacted in
        elim (Bool-cases (ltb 0 height)) [
          | inl pos ↦
              let found : latest_block d (new_storage d db) ≡ some height =
                latest_block-new_storage z d block_of height (at z d block_of db) c
                ∙ (rw pos refl) in
              rw (found, restored_height) (ground (arith, low))
          | inr zero_ ↦
              let found : latest_block d (new_storage d db) ≡ none =
                latest_block-new_storage z d block_of height (at z d block_of db) c
                ∙ (rw zero_ refl) in
              rw (found, restored_height) (ground (arith, low))
        ]

    pub restore-Covers :
        (server_starts : Bool)
        → restore d server_starts height db
          ≡ (if server_starts then ready (restarted_at z d block_of height db) else server_failed)
    unfolding restore
    restore-Covers server_starts =
        let level : (ltb 0 height && ltb height height) ≡ false = ground arith in
        rw (restored, level) refl

    restarted-IsConsistent : IsConsistent z d block_of (restarted_at z d block_of height db)
    restarted-IsConsistent = record {
      disk = c;
      view = new_storage-Covers z d block_of height (at z d block_of db) c;
      near = omega (arith, new_storage-latest z d block_of height (at z d block_of db) c);
      indexed = refl;
      accepted = refl;
    }

    pub initialize-Covers :
        (start : Start) (t : Vm d)
        → or_zero start.current_block ≡ height
        → initialize d start db ≡ ready t
        → t ≡ restarted_at z d block_of height db
    unfolding initialize
    initialize-Covers start t at_height e =
        let restored_ : restore d start.server_starts (or_zero start.current_block) db ≡ (
            if start.server_starts
            then ready (restarted_at z d block_of height db)
            else server_failed) =
          ap (λ h. restore d start.server_starts h db) at_height
          ∙ restore-Covers start.server_starts in
        ready_only (bytes_eq start.allowed_chain_id [])
          (bytes_eq start.chain_id start.allowed_chain_id) start.vm_starts start.server_starts _ t
          (rw restored_ at e)

    pub initialize-IsConsistent :
        (start : Start) (t : Vm d)
        → or_zero start.current_block ≡ height
        → initialize d start db ≡ ready t
        → IsConsistent z d block_of t
    initialize-IsConsistent start t at_height e =
        subst (IsConsistent z d block_of) (sym (initialize-Covers start t at_height e))
          restarted-IsConsistent

  module _ (lines : (n : ℕ) → IsLine (block_of n)) where
    module _ (c : Chain) (vm : Vm d) (agrees : Agrees z d block_of c (vm.disk_height + 1))
        (k : IsConsistent z d block_of vm) where
      saved_own :
          (v : Vm d) (i : Indexed d c (vm.disk_height + 1) vm v)
          → save_block d (vm.disk_height + 1) (block_of (vm.disk_height + 1)) vm.store
            ≡ some i.store
      saved_own v i =
          subst (λ x. save_block d (vm.disk_height + 1) x vm.store ≡ some i.store)
            (agrees i.text i.built) i.saved

      latest_near :
          (v : Vm d) (i : Indexed d c (vm.disk_height + 1) vm v)
          → i.store.latest ≤ vm.disk_height + 1
      latest_near v i =
          save_block-latest z d block_of vm.disk_height vm.store i.store (saved_own v i) k.near

      aborted-IsConsistent :
          (v : Vm d) → Indexed d c (vm.disk_height + 1) vm v → IsConsistent z d block_of (abort d v)
      unfolding abort
      aborted-IsConsistent v i =
          subst (λ x. IsConsistent z d block_of (abort d x)) (sym i.state)
            (record {
              disk = k.disk;
              view =
                  Covers-latest z d block_of vm.disk_height i.store.latest (at z d block_of vm.disk)
                    k.disk;
              near = latest_near v i;
              indexed = k.indexed;
              accepted = k.accepted;
            })

      committed-IsConsistent :
          (v : Vm d)
          → vm.disk_height + 1201 < u64
          → Indexed d c (vm.disk_height + 1) vm v
          → IsConsistent z d block_of (record (commit d (vm.disk_height + 1) v) {
            last_indexed = vm.disk_height + 1;
            last_accepted = vm.disk_height + 1;
          })
      unfolding commit
      committed-IsConsistent v room i =
          let covered =
            save_block-Covers z d block_of vm.disk_height vm.store i.store (saved_own v i)
              (lines (vm.disk_height + 1)) room k.view in
          subst
            (λ x. IsConsistent z d block_of (record (commit d (vm.disk_height + 1) x) {
              last_indexed = vm.disk_height + 1;
              last_accepted = vm.disk_height + 1;
            }))
            (sym i.state)
            (record {
              disk = Covers-latest z d block_of (vm.disk_height + 1) 0 i.store covered;
              view = covered;
              near = omega (arith, latest_near v i);
              indexed = refl;
              accepted = refl;
            })

      accept-IsConsistent :
          (commits : Bool) (r : Bool × Vm d)
          → vm.disk_height + 1201 < u64
          → Outcome d c (vm.disk_height + 1) vm commits r
          → IsConsistent z d block_of r.1
      accept-IsConsistent commits r room (not_indexed _ e) =
          subst (λ (x : Bool × Vm d). IsConsistent z d block_of x.1) (sym e) k
      accept-IsConsistent commits r room (aborted v i _ e) =
          subst (λ (x : Bool × Vm d). IsConsistent z d block_of x.1) (sym e)
            (aborted-IsConsistent v i)
      accept-IsConsistent commits r room (committed v i _ e) =
          subst (λ (x : Bool × Vm d). IsConsistent z d block_of x.1) (sym e)
            (committed-IsConsistent v room i)

    compact-IsConsistent :
        (vm : Vm d) → IsConsistent z d block_of vm → IsConsistent z d block_of (compact d z vm)
    unfolding compact
    compact-IsConsistent vm k = record {
      disk = k.disk;
      view = compact_one_batch-Covers z d block_of vm.disk_height vm.store k.view k.near;
      near = omega (
        arith,
        k.near,
        compact_one_batch-latest z d block_of vm.disk_height vm.store k.view k.near,
      );
      indexed = k.indexed;
      accepted = k.accepted;
    }

    Step-IsConsistent :
        (s t : Vm d)
        → IsConsistent z d block_of s
        → Step z d block_of s t
        → IsConsistent z d block_of t
    Step-IsConsistent s t k (next c commits agrees room e) =
        subst (IsConsistent z d block_of) (sym e) (
          accept-IsConsistent c s agrees k commits _ room
            (outcome d c (s.disk_height + 1) s commits (ground (arith, k.indexed))))
    Step-IsConsistent s t k (compacted e) =
        subst (IsConsistent z d block_of) (sym e) (compact-IsConsistent s k)
    Step-IsConsistent s t k (restarted start at_height e) =
        initialize-IsConsistent s.disk_height s.disk k.disk start t at_height e

    pub Reach-IsConsistent : (vm : Vm d) → Reach z d block_of vm → IsConsistent z d block_of vm
    Reach-IsConsistent vm (begun start db t empty at_height e) =
        initialize-IsConsistent 0 db (Covers-empty z d block_of db empty) start t at_height e
    Reach-IsConsistent vm (stepped s t r step) = Step-IsConsistent s t (Reach-IsConsistent s r) step
