-- ===== src/Sync/Tests.antt =====
-- A block of two self-transfers, of which the second comes first.
use mathlib.Core.List.{Perm}
use dnn_node.Base.{◌≡◌, ◌↔◌, refl, List, [], ◌∷◌, map, ok, All, arith}
use dnn_node.Base.Bytes.{codes}
use dnn_node.Sync.{
  ValidDnnTransaction, find_valid_dnn_transactions, is_valid_dnn_transaction, scan_inputs,
  scan_outputs, add_outputs, insert_address, txid_digit_sum, digit_sum, compare_digits,
  compare_txids_by_digit, less, collect_valid,
}
use dnn_node.Sync.Insertion.{insert, insertion_sort, insertion_slice, insertion_slice-IsSort}
use dnn_node.Sync.Order.{IsTxId, HasTxId, key, before}
use dnn_node.Sync.Positions.{
  valid_keys, find_valid_dnn_transactions_lem, find_valid_dnn_transactions_agree,
}
use dnn_node.Sync.Samples.{plain, transfer, low_id, high_id, two_transfers}
use dnn_node.Sync.Acceptance.{is_valid_dnn_transaction_iff}
use dnn_node.Sync.SelfTransfer.{IsSelfTransfer}
use dnn_node.Sync.Sorting.{IsOrdered}
use dnn_node.Validation.{to_lower}

tx_ids : All (λ tx. IsTxId tx.tx_id) two_transfers.transactions
tx_ids = ground arith

positions :
    (xs : List ValidDnnTransaction) × (find_valid_dnn_transactions plain insertion_slice
        two_transfers
      ≡ ok xs)
    × (map (λ tx. tx.tx_id) xs ≡ high_id ∷ low_id ∷ [])
unfolding find_valid_dnn_transactions collect_valid is_valid_dnn_transaction scan_inputs
    scan_outputs to_lower add_outputs insert_address insertion_sort insert less txid_digit_sum
    digit_sum compare_txids_by_digit compare_digits
positions = (_, refl, refl)

find_valid_dnn_transactions_lem_example :
    (xs : List ValidDnnTransaction) × (find_valid_dnn_transactions plain insertion_slice
        two_transfers
      ≡ ok xs)
    × Perm (map key xs) (valid_keys plain two_transfers.transactions)
    × IsOrdered HasTxId before (map key xs)
find_valid_dnn_transactions_lem_example =
    find_valid_dnn_transactions_lem plain insertion_slice two_transfers insertion_slice-IsSort
      tx_ids

find_valid_dnn_transactions_agree_example :
    (xs : List ValidDnnTransaction) × (ys : List ValidDnnTransaction) × (find_valid_dnn_transactions
        plain insertion_slice two_transfers
      ≡ ok xs)
    × (find_valid_dnn_transactions plain insertion_slice two_transfers ≡ ok ys)
    × (map key xs ≡ map key ys)
find_valid_dnn_transactions_agree_example =
    find_valid_dnn_transactions_agree plain insertion_slice insertion_slice two_transfers
      insertion_slice-IsSort insertion_slice-IsSort tx_ids

is_valid_dnn_transaction_iff_example :
    (is_valid_dnn_transaction plain (transfer low_id (codes "bc1qa")) ≡ ok (codes "bc1qa"))
    ↔ IsSelfTransfer plain (codes "bc1qa") (transfer low_id (codes "bc1qa"))
is_valid_dnn_transaction_iff_example =
    is_valid_dnn_transaction_iff plain (transfer low_id (codes "bc1qa")) (codes "bc1qa")
