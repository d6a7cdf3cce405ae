-- ===== src/Storage/Compactor/Ticker.antt =====
-- The goroutine of evm-ingestion/storage/compactor.go: run, which waits for the timer, for Stop or for
-- the end of the context.
use l1_data_tools.Common.{
  ℕ, zero, suc, ◌≡◌, Bool, true, false, List, [], ◌∷◌, Option, some, ◌>>=◌, Bool-cases, inl, inr,
  refl, >>=-eq-some, subst, ap, sym, ◌∙◌,
}
use mathlib.Core.Option.{some_inj}
use l1_data_tools.Storage.Batch.{Zstd}
use l1_data_tools.Storage.Interface.{Storage}
use l1_data_tools.Storage.Compactor.{compact_one_batch, compact_all}

-- What the `select` of run finds ready. A tick comes with the state of the context before each round
-- of compactAll, and a number of rounds.
pub data Ready : Type 0 where
  stop done : Ready
  tick : (ℕ → Bool) → ℕ → Ready

module _ (z : Zstd) (st : Storage) where
  -- Whether the goroutine has returned, which closes `doneCh`, and the storage that it leaves. `none`: a
  -- call of compactAll runs on.
  unfoldable pub run : List Ready → st.State → Option (Bool × st.State)
  run [] s = some (false, s)
  run (stop ∷ ready) s = some (true, s)
  run (done ∷ ready) s = some (true, s)
  run (tick cancelled rounds ∷ ready) s = compact_all z st cancelled rounds s >>= run ready

  -- What each round of compactAll keeps, compactAll keeps, and so does run.
  module _ (P : st.State → Type 0)
      (kept : (s : st.State) → P s → P (compact_one_batch z st s).1) where
    compact_all-kept :
        (cancelled : ℕ → Bool) (rounds : ℕ) (s t : st.State)
        → P s
        → compact_all z st cancelled rounds s ≡ some t
        → P t
    unfolding compact_all
    compact_all-kept cancelled zero s t p e = cc
    compact_all-kept cancelled (suc rounds) s t p e = elim (Bool-cases (cancelled rounds)) [
      | inl over ↦ subst P (some_inj.0 (sym (rw over refl) ∙ e)) p
      | inr on ↦ elim (Bool-cases (compact_one_batch z st s).0) [
        | inl more ↦ compact_all-kept cancelled rounds _ t (kept s p) (sym (rw (on, more) refl) ∙ e)
        | inr last ↦ subst P (some_inj.0 (sym (rw (on, last) refl) ∙ e)) (kept s p)
      ]
    ]

    run-kept :
        (ready : List Ready) (s : st.State) (returned : Bool) (t : st.State)
        → P s
        → run ready s ≡ some (returned, t)
        → P t
    unfolding run
    run-kept [] s returned t p e = subst P (ap (λ r. r.1) (some_inj.0 e)) p
    run-kept (stop ∷ ready) s returned t p e = subst P (ap (λ r. r.1) (some_inj.0 e)) p
    run-kept (done ∷ ready) s returned t p e = subst P (ap (λ r. r.1) (some_inj.0 e)) p
    run-kept (tick cancelled rounds ∷ ready) s returned t p e =
        let (u, compacted, e') = >>=-eq-some (compact_all z st cancelled rounds s) _ e in
        run-kept ready u returned t (compact_all-kept cancelled rounds s u p compacted) e'
