-- ===== src/Storage/Sample.antt =====
-- Concrete instances of what the program does not implement, for the examples: a codec that copies,
-- and a storage that is a record of functions.
use l1_data_tools.Common.{
  ℕ, ◌≡◌, ◌≢◌, refl, sym, ap, ◌∙◌, ◌&&◌, Option, none, some, [], Bytes, codes, leb, ◌==◌,
  if◌then◌else◌,
}
use mathlib.Core.Option.{some_inj}
use l1_data_tools.Storage.Batch.{Zstd}
use l1_data_tools.Storage.Interface.{Storage, IsStorage}

pub copy_text : (text frame : Bytes) → some text ≡ some frame → some frame ≡ some text
copy_text text frame e = sym e

pub copy_filled : (text frame : Bytes) → text ≢ [] → some text ≡ some frame → frame ≢ []
copy_filled text frame h e e' = h (some_inj.0 e ∙ e')

abbrev pub copy : Zstd
copy = record {
  encode_stream = λ text. some text;
  encode_all = λ text. text;
  decode = λ frame. some frame;
  decode-encode_stream = copy_text;
  decode-encode_all = λ text. refl;
  encode_stream-ne-nil = copy_filled;
}

pub record Shelf : Type 0 where
  pub block : ℕ → Option Bytes
  pub batch : ℕ → Option Bytes
  pub meta : ℕ
  pub first : ℕ
  pub latest : ℕ

abbrev pub shelf : Storage
shelf = record {
  State = Shelf;
  save_block = λ n d s. some (record s { block = λ m. if n == m then some d else s.block m });
  get_block = λ n s. s.block n;
  first_block = λ s. some s.first;
  latest_block = λ s. some s.latest;
  delete_block_range =
      λ a b s. some (record s { block = λ m. if leb a m && leb m b then none else s.block m });
  save_batch = λ a b d s. some (record s { batch = λ m. if a == m then some d else s.batch m });
  get_batch_compressed = λ a s. s.batch a;
  first_batch = λ s. none;
  latest_batch = λ s. none;
  get_meta = λ s. s.meta;
  save_meta = λ k s. some (record s { meta = k });
}

pub shelf-IsStorage : IsStorage shelf
shelf-IsStorage = record {
  get_block-save_block = λ n m d s t _ _ e. ap (λ (x : Shelf). x.block m) (sym (some_inj.0 e));
  get_block-delete_block_range =
      λ a b m s t _ _ _ e. ap (λ (x : Shelf). x.block m) (sym (some_inj.0 e));
  get_block-save_batch = λ a b m d s t e. ap (λ (x : Shelf). x.block m) (sym (some_inj.0 e));
  get_block-save_meta = λ k m s t e. ap (λ (x : Shelf). x.block m) (sym (some_inj.0 e));
  get_batch-save_batch = λ a m d s t _ _ e. ap (λ (x : Shelf). x.batch m) (sym (some_inj.0 e));
  get_batch-save_block = λ n m d s t e. ap (λ (x : Shelf). x.batch m) (sym (some_inj.0 e));
  get_batch-save_meta = λ k m s t e. ap (λ (x : Shelf). x.batch m) (sym (some_inj.0 e));
  get_batch-delete_block_range =
      λ a b m s t _ _ e. ap (λ (x : Shelf). x.batch m) (sym (some_inj.0 e));
  get_meta-save_block = λ n d s t e. ap (λ (x : Shelf). x.meta) (sym (some_inj.0 e));
  get_meta-save_batch = λ a b d s t e. ap (λ (x : Shelf). x.meta) (sym (some_inj.0 e));
  get_meta-delete_block_range = λ a b s t _ _ e. ap (λ (x : Shelf). x.meta) (sym (some_inj.0 e));
  get_meta-save_meta = λ k s t _ e. ap (λ (x : Shelf). x.meta) (sym (some_inj.0 e));
}

-- The blocks 1 to 1200, stored by themselves: enough for one compaction.
abbrev pub full_shelf : Shelf
full_shelf = record {
  block = λ n. if leb 1 n && leb n 1200 then some (codes "{}") else none;
  batch = λ n. none;
  meta = 0;
  first = 1;
  latest = 1200;
}
