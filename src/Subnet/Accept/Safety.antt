-- ===== src/Subnet/Accept/Safety.antt =====
-- On indexing-subnet-evm/block.go and vm.go: what a block, a failure and a restart leave behind.
use l1_data_tools.Common.{
  ℕ, ◌≤◌, ◌<◌, ◌≡◌, ◌≢◌, ◌⊎◌, refl, sym, ◌∙◌, inl, inr, Bool, true, false, [], some, Bytes,
  bytes_eq, bytes_eq_refl, leb, u64, compare_bytes, ◌∷◌, ==_refl, subst,
}
use l1_data_tools.Storage.Batch.{Zstd}
use l1_data_tools.Storage.Batch.RoundTrip.{IsLine}
use l1_data_tools.Storage.Compactor.ReadBack.{read_back}
use l1_data_tools.Storage.VersionDb.{Database, new_storage, get_block, version_db_storage}
use l1_data_tools.Storage.VersionDb.Laws.{version_db_storage-IsStorage}
use l1_data_tools.Storage.VersionDb.Restarts.{get_block-new_storage, new_storage-Covers}
use l1_data_tools.Subnet.Index.{Chain, block_data}
use l1_data_tools.Subnet.Accept.{Vm, commit, abort, accept, Start, ready, or_zero, initialize}
use l1_data_tools.Subnet.Accept.Outcome.{Outcome, Indexed, not_indexed, aborted, committed, outcome}
use l1_data_tools.Subnet.Accept.Reach.{Reach, at, restarted_at}
use l1_data_tools.Subnet.Accept.Consistent.{Reach-IsConsistent, restore-Covers}

-- After any number of accepted blocks, failures to accept, compactions between two blocks and
-- restarts, on a database that was empty at the genesis block: every block from 1 to the height of the
-- chain reads as the block of the chain, both from what is committed, as a program that starts now
-- sees it, and from what the running program sees. Each block is one line of JSON, and the chain
-- answers with its own block.
pub Reach-readable :
    (z : Zstd) (d : Database) (block_of : ℕ → Bytes) (vm : Vm d) (n : ℕ)
    → ((m : ℕ) → IsLine (block_of m))
    → Reach z d block_of vm
    → 1 ≤ n
    → n ≤ vm.disk_height
    → (read_back z (version_db_storage d) n (new_storage d vm.disk) ≡ some (block_of n))
      × (read_back z (version_db_storage d) n vm.store ≡ some (block_of n))
Reach-readable z d block_of vm n lines reach lo hi =
    let k = Reach-IsConsistent z d block_of lines vm reach in
    (
      (new_storage-Covers z d block_of vm.disk_height (at z d block_of vm.disk) k.disk).readable n
          lo hi,
      k.view.readable n lo hi,
    )

not_empty : (a : Bytes) → a ≢ [] → bytes_eq a [] ≡ false
unfolding compare_bytes
not_empty [] h = absurd (h refl)
not_empty (x ∷ a) h = refl

-- In the same states, a start on what is committed ends with a VM that is ready at the height of the
-- chain, and not with a gap: it has indexed and accepted that height, and sees what is committed. The
-- setting names the chain, the wrapped VM starts and its current block is at that height, and the
-- server starts.
pub initialize-Reach :
    (z : Zstd) (d : Database) (block_of : ℕ → Bytes) (vm : Vm d) (start : Start)
    → ((m : ℕ) → IsLine (block_of m))
    → Reach z d block_of vm
    → start.allowed_chain_id ≢ []
    → start.chain_id ≡ start.allowed_chain_id
    → start.vm_starts ≡ true
    → start.server_starts ≡ true
    → or_zero start.current_block ≡ vm.disk_height
    → initialize d start vm.disk ≡ ready (restarted_at z d block_of vm.disk_height vm.disk)
unfolding initialize
initialize-Reach z d block_of vm start lines reach set same starts serves at_height =
    let k = Reach-IsConsistent z d block_of lines vm reach in
    let set_ : bytes_eq start.allowed_chain_id [] ≡ false = not_empty start.allowed_chain_id set in
    let same_ : bytes_eq start.chain_id start.allowed_chain_id ≡ true =
      subst (λ x. bytes_eq start.chain_id x ≡ true) same (bytes_eq_refl start.chain_id) in
    rw (set_, same_, starts, at_height)
      (restore-Covers z d block_of vm.disk_height vm.disk k.disk start.server_starts
        ∙ (rw serves refl))

-- With nil: the text of the block was built, is stored in what is committed, and the block is the
-- height of the chain and the last indexed one.
abbrev pub Extended : (d : Database) → Chain → ℕ → Bool × Vm d → Type 0
Extended d c height r =
    (text : Bytes) × (block_data c height ≡ some text)
    × (get_block d height (new_storage d r.1.disk) ≡ some text)
    × (r.0 ≡ true)
    × (r.1.disk_height ≡ height)
    × (r.1.last_indexed ≡ height)

-- With an error: what is committed, the height and the last indexed block are as they were.
abbrev pub Refused : (d : Database) → Vm d → Bool × Vm d → Type 0
Refused d vm r =
    (r.0 ≡ false)
    × (r.1.disk ≡ vm.disk)
    × (r.1.disk_height ≡ vm.disk_height)
    × (r.1.last_indexed ≡ vm.last_indexed)

module _ (d : Database) (c : Chain) (height : ℕ) (vm : Vm d) where
  aborted-Refused : (v : Vm d) → Indexed d c height vm v → Refused d vm (false, abort d v)
  unfolding abort
  aborted-Refused v i =
      subst (λ x. Refused d vm (false, abort d x)) (sym i.state) (refl, refl, refl, refl)

  committed-Extended :
      (v : Vm d)
      → height < u64
      → Indexed d c height vm v
      → Extended d c height
          (true, record (commit d height v) { last_indexed = height; last_accepted = height })
  unfolding commit
  committed-Extended v small i =
      subst
        (λ x.
          Extended d c height
            (true, record (commit d height x) { last_indexed = height; last_accepted = height }))
        (sym i.state) (i.text, i.built, stored, refl, refl, refl)
    where
      stored : get_block d height (new_storage d i.store.db) ≡ some i.text
      stored =
          get_block-new_storage d height i.store
          ∙ (version_db_storage-IsStorage d).get_block-save_block height height i.text vm.store
              i.store small small i.saved
          ∙ (rw (==_refl height) refl)

  -- `Accept` of a block above the last indexed one ends with nil or with an error. With nil: the text
  -- of the block was built, is stored in what is committed, and the block is the height of the chain
  -- and the last indexed one. With an error: what is committed, the height and the last indexed block
  -- are as they were.
  pub accept_lem :
      (commits : Bool)
      → leb height vm.last_indexed ≡ false
      → height < u64
      → Extended d c height (accept d c commits height vm)
        ⊎ Refused d vm (accept d c commits height vm)
  accept_lem commits above small = ends _ (outcome d c height vm commits above)
    where
      ends :
          (r : Bool × Vm d)
          → Outcome d c height vm commits r
          → Extended d c height r ⊎ Refused d vm r
      ends r (not_indexed _ e) = inr (subst (Refused d vm) (sym e) (refl, refl, refl, refl))
      ends r (aborted v i _ e) = inr (subst (Refused d vm) (sym e) (aborted-Refused v i))
      ends r (committed v i _ e) =
          inl (subst (Extended d c height) (sym e) (committed-Extended v small i))
