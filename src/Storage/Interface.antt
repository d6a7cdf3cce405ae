-- ===== src/Storage/Interface.antt =====
-- evm-ingestion/storage/interface.go: the operations of `Storage`, and the laws that the compactor
-- and the server rely on.
use l1_data_tools.Common.{
  ℕ, ◌+◌, ◌<◌, ◌≡◌, ◌&&◌, Option, none, some, Bytes, u64, leb, ◌==◌, if◌then◌else◌,
}

-- A method that can fail returns the new state, or `none` for an error, which changes nothing. A
-- read returns `none` where the code returns an error or `false`.
pub record Storage : Type 1 where
  pub State : Type 0
  pub save_block : ℕ → Bytes → State → Option State
  pub get_block : ℕ → State → Option Bytes
  pub first_block : State → Option ℕ
  pub latest_block : State → Option ℕ
  pub delete_block_range : ℕ → ℕ → State → Option State
  pub save_batch : ℕ → ℕ → Bytes → State → Option State
  pub get_batch_compressed : ℕ → State → Option Bytes
  pub first_batch : State → Option ℕ
  pub latest_batch : State → Option ℕ
  pub get_meta : State → ℕ
  pub save_meta : ℕ → State → Option State

pub record IsStorage (st : Storage) : Type 0 where
  pub get_block-save_block :
      (n m : ℕ) (d : Bytes) (s t : st.State)
      → n < u64
      → m < u64
      → st.save_block n d s ≡ some t
      → st.get_block m t ≡ (if n == m then some d else st.get_block m s)
  pub get_block-delete_block_range :
      (a b m : ℕ) (s t : st.State)
      → a < u64
      → b + 1 < u64
      → m < u64
      → st.delete_block_range a b s ≡ some t
      → st.get_block m t ≡ (if leb a m && leb m b then none else st.get_block m s)
  pub get_block-save_batch :
      (a b m : ℕ) (d : Bytes) (s t : st.State)
      → st.save_batch a b d s ≡ some t
      → st.get_block m t ≡ st.get_block m s
  pub get_block-save_meta :
      (k m : ℕ) (s t : st.State) → st.save_meta k s ≡ some t → st.get_block m t ≡ st.get_block m s
  pub get_batch-save_batch :
      (a m : ℕ) (d : Bytes) (s t : st.State)
      → a + 99 < u64
      → m + 99 < u64
      → st.save_batch a (a + 99) d s ≡ some t
      → st.get_batch_compressed m t ≡ (if a == m then some d else st.get_batch_compressed m s)
  pub get_batch-save_block :
      (n m : ℕ) (d : Bytes) (s t : st.State)
      → st.save_block n d s ≡ some t
      → st.get_batch_compressed m t ≡ st.get_batch_compressed m s
  pub get_batch-save_meta :
      (k m : ℕ) (s t : st.State)
      → st.save_meta k s ≡ some t
      → st.get_batch_compressed m t ≡ st.get_batch_compressed m s
  pub get_batch-delete_block_range :
      (a b m : ℕ) (s t : st.State)
      → a < u64
      → b + 1 < u64
      → st.delete_block_range a b s ≡ some t
      → st.get_batch_compressed m t ≡ st.get_batch_compressed m s
  pub get_meta-save_block :
      (n : ℕ) (d : Bytes) (s t : st.State)
      → st.save_block n d s ≡ some t
      → st.get_meta t ≡ st.get_meta s
  pub get_meta-save_batch :
      (a b : ℕ) (d : Bytes) (s t : st.State)
      → st.save_batch a b d s ≡ some t
      → st.get_meta t ≡ st.get_meta s
  pub get_meta-delete_block_range :
      (a b : ℕ) (s t : st.State)
      → a < u64
      → b + 1 < u64
      → st.delete_block_range a b s ≡ some t
      → st.get_meta t ≡ st.get_meta s
  pub get_meta-save_meta :
      (k : ℕ) (s t : st.State) → k < u64 → st.save_meta k s ≡ some t → st.get_meta t ≡ k
