-- ===== src/Subnet/Accept/Outcome.antt =====
-- On indexing-subnet-evm/block.go: the ways in which `Accept` can end.
use l1_data_tools.Common.{
  ℕ, ◌≡◌, refl, sym, inl, inr, Bool, true, false, [], none, some, Bytes, leb, Option-cases,
  >>=-eq-some, subst,
}
use mathlib.Core.Option.{some_inj}
use l1_data_tools.Storage.VersionDb.{Database, VersionDb, save_block}
use l1_data_tools.Api.{update_latest_block}
use l1_data_tools.Subnet.Index.{Chain, block_data}
use l1_data_tools.Subnet.Accept.{
  Vm, commit, abort, index_block, block_accept, store_heights, accept,
}

module _ (d : Database) where
  -- The state after `indexBlock` has saved to `store`.
  abbrev pub after_index : ℕ → VersionDb d → Vm d → Vm d
  after_index height store vm = record vm {
    store = store;
    served = update_latest_block [] height vm.served;
  }

  module _ (c : Chain) (height : ℕ) (vm : Vm d) where
    -- What `indexBlock` has done where it returns nil.
    pub record Indexed (v : Vm d) : Type 0 where
      pub text : Bytes
      pub built : block_data c height ≡ some text
      pub store : VersionDb d
      pub saved : save_block d height text vm.store ≡ some store
      pub state : v ≡ after_index height store vm

    index_block-some : (v : Vm d) → index_block d c height vm ≡ some v → Indexed v
    unfolding index_block
    index_block-some v e =
        let (text, built, e') = >>=-eq-some (block_data c height) _ e in
        let (store, saved, e'') = >>=-eq-some (save_block d height text vm.store) _ e' in
        record {
          text = text;
          built = built;
          store = store;
          saved = saved;
          state = sym (some_inj.0 e'');
        }

    pub data Outcome (commits : Bool) (r : Bool × Vm d) : Type 0 where
      not_indexed : index_block d c height vm ≡ none → r ≡ (false, vm) → Outcome commits r
      aborted :
          (v : Vm d) → Indexed v → commits ≡ false → r ≡ (false, abort d v) → Outcome commits r
      committed :
          (v : Vm d)
          → Indexed v
          → commits ≡ true
          → r ≡ (true, record (commit d height v) { last_indexed = height; last_accepted = height })
          → Outcome commits r

    ended :
        (commits : Bool) (v : Vm d)
        → Indexed v
        → Outcome commits (store_heights d height (block_accept d commits height v))
    unfolding block_accept store_heights
    ended true v i = committed v i refl refl
    ended false v i = aborted v i refl refl

    pub outcome :
        (commits : Bool)
        → leb height vm.last_indexed ≡ false
        → Outcome commits (accept d c commits height vm)
    unfolding accept
    outcome commits above = elim (Option-cases (index_block d c height vm)) [
      | inl e ↦ not_indexed e (rw (above, e, accept) refl)
      | inr (v, e) ↦
          subst (Outcome commits) (sym (rw (above, e, accept) refl))
            (ended commits v (index_block-some v e))
    ]
