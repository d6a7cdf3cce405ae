-- ===== src/Subnet/Marshal/Price.antt =====
-- On indexing-subnet-evm/marshal.go: the price that a transaction pays for gas.
use l1_data_tools.Common.{
  ℕ, zero, suc, ◌+◌, ◌-◌, ◌≤◌, ◌<◌, ◌≡◌, ap, ◌∙◌, inl, inr, some, arith, ltb, leb, min,
  if◌then◌else◌, Bool-cases,
}
use l1_data_tools.Common.Int.{pos, negsuc}
use l1_data_tools.Subnet.Types.{Transaction}
use l1_data_tools.Subnet.Marshal.{sub_big, add_big, effective_gas_price}

sub_big_above : (fee base : ℕ) → base ≤ fee → sub_big fee base ≡ pos (fee - base)
sub_big_above fee zero h = ap pos (omega arith)
sub_big_above zero (suc base) h = absurd (omega arith)
sub_big_above (suc fee) (suc base) h = sub_big_above fee base (omega arith) ∙ ap pos (omega arith)

sub_big_below : (fee base : ℕ) → fee < base → sub_big fee base ≡ negsuc (base - fee - 1)
sub_big_below fee zero h = absurd (omega arith)
sub_big_below zero (suc base) h = ap negsuc (omega arith)
sub_big_below (suc fee) (suc base) h =
    sub_big_below fee base (omega arith) ∙ ap negsuc (omega arith)

capped :
    (tip cap base : ℕ)
    → add_big base (if ltb cap tip then pos cap else pos tip) ≡ base + min cap tip
capped tip cap base = elim (Bool-cases (ltb cap tip)) [
  | inl less ↦ rw less (ground arith)
  | inr more ↦ rw more (ground arith)
]

-- With a base fee, the price is the base fee and the tip, but at most the fee cap, also where the fee
-- cap is below the base fee.
pub effective_gas_price-min :
    (tx : Transaction) (base : ℕ)
    → effective_gas_price tx (some base) ≡ min tx.gas_fee_cap (base + tx.gas_tip_cap)
unfolding effective_gas_price
effective_gas_price-min tx base = elim (Bool-cases (leb base tx.gas_fee_cap)) [
  | inl above ↦
      rw (sub_big_above tx.gas_fee_cap base (ground arith))
        (capped (tx.gas_fee_cap - base) tx.gas_tip_cap base ∙ (ground arith))
  | inr below ↦ rw (sub_big_below tx.gas_fee_cap base (ground arith)) (ground arith)
]
