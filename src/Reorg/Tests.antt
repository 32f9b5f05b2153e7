-- ===== src/Reorg/Tests.antt =====
-- A block whose hash changed, and the recovery of a block of two self-transfers.
use dnn_node.Base.{
  ℕ, ◌<◌, ◌≡◌, refl, true, List, [], ◌∷◌, map, none, some, ok, wrap_err, ◌≤◌, arith, if◌then◌else◌,
}
use dnn_node.Base.Bytes.{codes}
use dnn_node.Base.Int.{pos, eqb_ℤ}
use dnn_node.Reorg.{
  DbOp, invalidate_dnn_blocks_after, remove_anchors_after_block, Sources, mismatch, Recovery,
  recovery_failed, handle_reorg, check_and_handle_reorg, update_anchor_position,
  process_block_transactions,
}
use dnn_node.Reorg.Detected.{IsFirstMismatch}
use dnn_node.Reorg.Positions.{IsSmooth, process_block_transactions-find_valid_dnn_transactions}
use dnn_node.Reorg.Outcome.{range_start, check_and_handle_reorg_lem}
use dnn_node.Constants
use dnn_node.Policy.{new_policy_enforcer, should_check_reorg}
use dnn_node.Reorg.Rescan.{IsWorking, Extends, IsWritten, handle_reorg_lem}
use dnn_node.Sync.{
  ValidDnnTransaction, digit_sum, find_valid_dnn_transactions, is_valid_dnn_transaction,
  scan_inputs, scan_outputs, add_outputs, insert_address,
}
use dnn_node.Sync.Insertion.{insertion_slice, insertion_slice-IsSort}
use dnn_node.Sync.Order.{IsTxId, key}
use dnn_node.Sync.Samples.{plain, transfer, low_id, high_id, two_transfers}
use dnn_node.Validation.{to_lower}

-- The stored hash of block 940002 is not the current one.
abbrev changed : Sources
changed = record {
  stored_hash = λ b. some (if eqb_ℤ b (pos 940002) then codes "old" else codes "same");
  rest_hash = λ b. none;
  chain_hash = λ b. some (codes "same");
}

-- An anchor named like its transaction, and no failure.
abbrev smooth : Recovery
smooth = record {
  block_count = some (pos 940001);
  block_hash = λ b. some [];
  block = λ hash. some two_transfers;
  accepts = λ log op. true;
  anchor_of = λ log tx_id. some (some tx_id);
  begins = true;
  commits = λ log. true;
}

smooth-IsSmooth : IsSmooth smooth (λ tx_id. tx_id)
smooth-IsSmooth = record { accepts = λ log op. refl; anchors = λ log tx_id. refl }

transfers :
    (is_valid_dnn_transaction plain (transfer low_id (codes "bc1qa")) ≡ ok (codes "bc1qa"))
    × (is_valid_dnn_transaction plain (transfer high_id (codes "bc1qb")) ≡ ok (codes "bc1qb"))
unfolding is_valid_dnn_transaction scan_inputs scan_outputs add_outputs insert_address to_lower
transfers = (refl, refl)

ids : IsTxId low_id × IsTxId high_id
ids = ground arith

sums : digit_sum low_id < digit_sum high_id
unfolding digit_sum
sums = omega arith

process_block_transactions-find_valid_dnn_transactions_example :
    (xs : List ValidDnnTransaction) × (find_valid_dnn_transactions plain insertion_slice
        two_transfers
      ≡ ok xs)
    × (map key xs ≡ (digit_sum high_id, high_id) ∷ (digit_sum low_id, low_id) ∷ [])
    × (process_block_transactions smooth two_transfers (pos 1) []
        ≡ update_anchor_position low_id (pos 1) (pos 940001) 1
          ∷ update_anchor_position high_id (pos 1) (pos 940001) 2
          ∷ [])
process_block_transactions-find_valid_dnn_transactions_example =
    process_block_transactions-find_valid_dnn_transactions plain insertion_slice two_transfers
      (transfer low_id (codes "bc1qa")) (transfer high_id (codes "bc1qb")) (codes "bc1qa")
      (codes "bc1qb") smooth (λ tx_id. tx_id) (pos 1) insertion_slice-IsSort refl ids.0 ids.1
      transfers.0 transfers.1 sums smooth-IsSmooth

due : should_check_reorg (pos 144) ≡ true
unfolding should_check_reorg
due = refl

changed_there : mismatch changed (pos 940002) ≡ true
unfolding mismatch
changed_there = refl

check_and_handle_reorg_lem_example :
    (k : ℕ) × IsFirstMismatch changed
      (range_start (new_policy_enforcer Constants.network_mainnet) 940144)
      940145
      k
    × (k ≤ 940002)
    × (check_and_handle_reorg
          (new_policy_enforcer Constants.network_mainnet)
          changed
          smooth
          1010
          (some (pos 940144))
          true
          (pos 144)
        ≡ wrap_err recovery_failed (handle_reorg smooth 940000 1010 (pos k)))
unfolding new_policy_enforcer Constants.get_genesis_block
check_and_handle_reorg_lem_example =
    check_and_handle_reorg_lem (new_policy_enforcer Constants.network_mainnet) changed smooth 940144
      1010 true (pos 144) 940002 (omega arith) (omega arith) (omega arith) due (omega arith)
      (omega arith) (omega arith) changed_there

smooth-IsWorking : IsWorking smooth 940001
smooth-IsWorking = record {
  begins = refl;
  accepts = λ log op. refl;
  counts = refl;
  reads = λ b l. ([], two_transfers, refl, refl);
  commits = λ log. refl;
}

handle_reorg_lem_example :
    (log : List DbOp) × (handle_reorg smooth 940000 3 (pos 940000) ≡ ok log)
    × Extends (invalidate_dnn_blocks_after (pos 0) ∷ remove_anchors_after_block (pos 0) ∷ []) log
    × ((c : ℕ) → 940000 ≤ c → c ≤ 940001 → 940000 ≤ c → IsWritten smooth 940000 log c)
handle_reorg_lem_example =
    handle_reorg_lem smooth 940001 940000 3 940000 smooth-IsWorking (omega arith) (omega arith)
      (omega arith) (omega arith)
