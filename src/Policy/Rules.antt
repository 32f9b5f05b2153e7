-- ===== src/Policy/Rules.antt =====
-- The range of a reorganisation check, and the rule for anchor transactions.
use dnn_node.Base.{ℕ, ◌-◌, ◌≤◌, ◌≡◌, ◌≢◌, ok, ltb, if◌then◌else◌, arith, Bool-cases, inl, inr}
use dnn_node.Base.Int.{pos, max_int64, -ℤ_pos, -ℤ_neg}
use dnn_node.Policy.{
  PolicyEnforcer, get_reorg_check_range, Transaction, verify_address_match, derive_bitcoin_address,
  validate_anchor_transaction,
}

-- The range in natural numbers: 1008 blocks back, and not below the genesis block.
pub get_reorg_check_range_lem :
    (pe : PolicyEnforcer) (n : ℕ)
    → n ≤ max_int64
    → get_reorg_check_range pe (pos n)
      ≡ (pos (if ltb (n - 1008) pe.genesis_block then pe.genesis_block else n - 1008), pos n)
unfolding get_reorg_check_range
get_reorg_check_range_lem pe n h = elim (Bool-cases (ltb n 1008)) [
  | inl k ↦ rw (-ℤ_neg n 1008 (ground arith) (omega arith)) (ground arith)
  | inr k ↦ rw (-ℤ_pos n 1008 (ground arith) h) (ground arith)
]

-- ValidateAnchorTransaction accepts no transaction.
pub validate_anchor_transaction-never :
    (pe : PolicyEnforcer) (tx : Transaction) → validate_anchor_transaction pe tx ≢ ok tt
unfolding validate_anchor_transaction verify_address_match derive_bitcoin_address
validate_anchor_transaction-never pe tx h = ground arith
