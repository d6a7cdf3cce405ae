-- ===== src/Subnet/Validate/Runs.antt =====
-- On indexing-subnet-evm/validate.go: when the comparison runs, and what it finds.
use l1_data_tools.Common.{
  ℕ, ◌<◌, ◌≡◌, refl, ◌∙◌, inl, inr, true, false, Option, none, some, ◌>>=◌, arith, Bytes,
  bytes_eq_refl, ltb, ◌==◌, if◌then◌else◌, Option-cases,
}
use l1_data_tools.Storage.Batch.{Zstd}
use l1_data_tools.Storage.Batch.RoundTrip.{IsLine}
use l1_data_tools.Storage.VersionDb.{Database, get_block}
use l1_data_tools.Subnet.Marshal.{rpc_marshal_block}
use l1_data_tools.Subnet.Index.{Chain, marshal_receipts, block_data}
use l1_data_tools.Subnet.Accept.{Vm}
use l1_data_tools.Subnet.Accept.Reach.{Reach}
use l1_data_tools.Subnet.Accept.Consistent.{Reach-IsConsistent}
use l1_data_tools.Subnet.Validate.{
  no_indexed_blocks, already_synced, passed, fetch_block_via_rpc, compare_texts, validate_at,
  validate_after_bootstrap,
}

nothing : {A B : Type 0} → A → Option B
nothing x = none

bind_none : {A B : Type 0} → (o : Option A) → (o >>= λ (x : A). nothing {B = B} x) ≡ none
unfolding nothing
bind_none none = refl
bind_none (some x) = refl

-- The receipts may be built before the traces or after them.
swap :
    {A T : Type 0}
    → (rs : Option A) (trace : Option (ℕ → Option T)) (height : ℕ) (k : A → T → Option Bytes)
    → (trace >>= λ (f : ℕ → Option T). f height >>= λ (t : T). rs >>= λ (r : A). k r t)
      ≡ (rs >>= λ (r : A). trace >>= λ (f : ℕ → Option T). f height >>= λ (t : T). k r t)
swap none none height k = refl
swap none (some f) height k = unfold nothing in bind_none (f height)
swap (some r) none height k = refl
swap (some r) (some f) height k = refl

-- A chain that gives the same answers as while it was indexed gives the text that was stored.
pub fetch_block_via_rpc-block_data :
    (c : Chain) (height : ℕ) → fetch_block_via_rpc c height ≡ block_data c height
unfolding fetch_block_via_rpc block_data
fetch_block_via_rpc-block_data c height = elim (Option-cases (c.get_block_by_number height)) [
  | inl e ↦ rw e refl
  | inr (block, e) ↦ rw e (elim (Option-cases (c.get_receipts_by_hash block.header.hash)) [
    | inl e' ↦ rw e' refl
    | inr (receipts, e') ↦ rw e' (
        swap (marshal_receipts c block receipts 0) c.tracer height (λ receipts_rpc traces.
          c.encode (rpc_marshal_block c.signers block true true) receipts_rpc traces))
  ])
]

-- A block below the last indexed one that is stored as it was indexed, from a chain that answers as
-- it did then, passes, if its text can be normalized.
pub validate_after_bootstrap-passed :
    (d : Database) (normalize : Bytes → Option Bytes) (c : Chain) (height : ℕ) (vm : Vm d)
    (text normal : Bytes)
    → height < vm.last_indexed
    → get_block d height vm.store ≡ some text
    → block_data c height ≡ some text
    → normalize text ≡ some normal
    → validate_after_bootstrap d normalize c height vm ≡ passed
unfolding validate_after_bootstrap validate_at compare_texts
validate_after_bootstrap-passed d normalize c height vm text normal below stored built ok =
    let has_blocks : (vm.last_indexed == 0) ≡ false = ground arith in
    let indexed : ltb vm.last_indexed height ≡ false = ground arith in
    let not_tip : (height == vm.last_indexed) ≡ false = ground arith in
    let fetched : fetch_block_via_rpc c height ≡ some text =
      fetch_block_via_rpc-block_data c height ∙ built in
    rw (has_blocks, indexed, not_tip, validate_at)
      (rw (stored, validate_at)
        (rw (fetched, compare_texts)
          (rw (ok, compare_texts) (rw (ok, compare_texts) (rw (bytes_eq_refl normal) refl)))))

-- In every state between two blocks, the current block of the chain is the last indexed one, so that
-- nothing is compared: before the first block there is none, and from then on the comparison is
-- skipped as already synced. Each block is one line of JSON, and the chain answers with its own block.
pub validate_after_bootstrap-Reach :
    (z : Zstd) (d : Database) (block_of : ℕ → Bytes) (normalize : Bytes → Option Bytes) (c : Chain)
    (vm : Vm d)
    → ((m : ℕ) → IsLine (block_of m))
    → Reach z d block_of vm
    → validate_after_bootstrap d normalize c vm.disk_height vm
      ≡ (if vm.disk_height == 0 then no_indexed_blocks else already_synced)
unfolding validate_after_bootstrap
validate_after_bootstrap-Reach z d block_of normalize c vm lines reach =
    let k = Reach-IsConsistent z d block_of lines vm reach in
    let level : ltb vm.disk_height vm.disk_height ≡ false = ground arith in
    let same : (vm.disk_height == vm.disk_height) ≡ true = ground arith in
    rw (k.indexed, level, same) refl
