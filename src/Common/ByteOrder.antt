-- ===== src/Common/ByteOrder.antt =====
-- The lemmas on the order of byte strings.
use Prim.Native.Nat.{ℕ, compare, Ordering}
use mathlib.Core.Path.{◌≡◌, refl}
use mathlib.Core.Bool.{true, false}
use mathlib.Core.List.{[], ◌∷◌}
use native.Mathlib.Omega.{arith}
use l1_data_tools.Common.Words.{Bytes, compare_bytes, bytes_eq, bytes_le}

compare_eq : (x y : ℕ) → compare x y ≡ Ordering.eq → x ≡ y
compare_eq x y h = ground arith

pub compare_bytes_refl : (a : Bytes) → compare_bytes a a ≡ Ordering.eq
unfolding compare_bytes
compare_bytes_refl [] = refl
compare_bytes_refl (x ∷ a) = ground (arith, compare_bytes_refl a)

pub compare_bytes_eq : (a b : Bytes) → compare_bytes a b ≡ Ordering.eq → a ≡ b
unfolding compare_bytes
compare_bytes_eq [] [] h = refl
compare_bytes_eq [] (y ∷ b) h = cc
compare_bytes_eq (x ∷ a) [] h = cc
compare_bytes_eq (x ∷ a) (y ∷ b) h = ground (arith, compare_bytes_eq a b)

pub bytes_le_total : (a b : Bytes) → bytes_le a b ≡ false → bytes_le b a ≡ true
unfolding compare_bytes
bytes_le_total [] [] h = cc
bytes_le_total [] (y ∷ b) h = cc
bytes_le_total (x ∷ a) [] h = refl
bytes_le_total (x ∷ a) (y ∷ b) h = ground (arith, bytes_le_total a b)

pub bytes_le_trans :
    (a b c : Bytes) → bytes_le a b ≡ true → bytes_le b c ≡ true → bytes_le a c ≡ true
unfolding compare_bytes
bytes_le_trans [] [] c h k = k
bytes_le_trans [] (y ∷ b) [] h k = cc
bytes_le_trans [] (y ∷ b) (z ∷ c) h k = refl
bytes_le_trans (x ∷ a) [] c h k = cc
bytes_le_trans (x ∷ a) (y ∷ b) [] h k = cc
bytes_le_trans (x ∷ a) (y ∷ b) (z ∷ c) h k = ground (arith, bytes_le_trans a b c)

pub bytes_eq_eq : (a b : Bytes) → bytes_eq a b ≡ true → a ≡ b
bytes_eq_eq a b h = compare_bytes_eq a b (ground arith)

pub bytes_eq_refl : (a : Bytes) → bytes_eq a a ≡ true
bytes_eq_refl a = ground (arith, compare_bytes_refl a)
