-- ===== src/Reorg/Positions.antt =====
-- The recovery counts positions in the order of the block, the synchronisation in the order of the ids.
use mathlib.Core.List.{Perm, Pairwise-pair}
use mathlib.Core.List.Perm
use dnn_node.Base.{
  ℕ, ◌<◌, ◌≡◌, ◌≢◌, refl, sym, true, false, List, [], ◌∷◌, map, some, ok, All, is_nil, arith,
}
use dnn_node.Base.Bytes.{Bytes}
use dnn_node.Base.Int.{ℤ}
use dnn_node.Chain.{Block, Transaction, TxOutput}
use dnn_node.Reorg.{
  DbOp, update_anchor_position, Recovery, is_valid_dnn_transaction, process_transactions,
  process_block_transactions,
}
use dnn_node.Sync.{SortSlice, ValidDnnTransaction, digit_sum, find_valid_dnn_transactions}
use dnn_node.Sync
use dnn_node.Sync.Acceptance.{is_valid_dnn_transaction_iff}
use dnn_node.Sync.SelfTransfer.{named}
use dnn_node.Sync.Order.{IsTxId, HasTxId, key, before, before_connected, before_irrefl}
use dnn_node.Sync.Positions.{valid_keys, find_valid_dnn_transactions_lem, All-perm}
use dnn_node.Sync.Sorting.{IsSort, IsOrdered, IsOrdered-unique}
use dnn_node.Validation.{Runtime}

-- A recovery whose writes succeed, on a database with an anchor for each transaction.
pub record IsSmooth (r : Recovery) (anchor : Bytes → Bytes) : Type 0 where
  pub accepts : (log : List DbOp) (op : DbOp) → r.accepts log op ≡ true
  pub anchors :
      (log : List DbOp) (tx_id : Bytes) → r.anchor_of log tx_id ≡ some (some (anchor tx_id))

not_nil : {A : Type 0} (xs : List A) → xs ≢ [] → is_nil xs ≡ false
not_nil [] h = absurd (h refl)
not_nil (x ∷ xs) h = refl

named-not_nil : (outputs : List TxOutput) → named outputs ≢ [] → is_nil outputs ≡ false
named-not_nil [] h = absurd (h refl)
named-not_nil (o ∷ outputs) h = refl

-- What the synchronisation accepts, the recovery accepts.
self_transfer_passes :
    (go : Runtime) (tx : Transaction) (address : Bytes)
    → Sync.is_valid_dnn_transaction go tx ≡ ok address
    → is_valid_dnn_transaction tx ≡ true
unfolding is_valid_dnn_transaction
self_transfer_passes go tx address h =
    let v = (is_valid_dnn_transaction_iff go tx address).0 h in
    rw (not_nil tx.inputs v.inputs, named-not_nil tx.outputs v.paid) refl

recovery_positions :
    (r : Recovery) (anchor : Bytes → Bytes) (height : ℤ) (n : ℤ) (a b : Transaction)
    → IsSmooth r anchor
    → is_valid_dnn_transaction a ≡ true
    → is_valid_dnn_transaction b ≡ true
    → process_transactions r n height (a ∷ b ∷ []) 0 []
      ≡ update_anchor_position (anchor a.tx_id) n height 1
        ∷ update_anchor_position (anchor b.tx_id) n height 2
        ∷ []
unfolding process_transactions
recovery_positions r anchor height n a b v ha hb =
    rw (ha, v.anchors _ a.tx_id, v.accepts _ _, hb, v.anchors _ b.tx_id, v.accepts _ _) refl

-- The keys of a block of two self-transfers, the second of which has the larger digit sum.
second_first :
    (a b : Transaction) (keys : List (ℕ × Bytes))
    → IsTxId a.tx_id
    → IsTxId b.tx_id
    → digit_sum a.tx_id < digit_sum b.tx_id
    → Perm keys ((digit_sum a.tx_id, a.tx_id) ∷ (digit_sum b.tx_id, b.tx_id) ∷ [])
    → IsOrdered HasTxId before keys
    → keys ≡ (digit_sum b.tx_id, b.tx_id) ∷ (digit_sum a.tx_id, a.tx_id) ∷ []
second_first a b keys ha hb h p s =
    let last : before (digit_sum a.tx_id, a.tx_id) (digit_sum b.tx_id, b.tx_id) ≡ false =
      ground arith in
    IsOrdered-unique HasTxId before before_connected before_irrefl keys
      ((digit_sum b.tx_id, b.tx_id) ∷ (digit_sum a.tx_id, a.tx_id) ∷ [])
      (All-perm (Perm.symm p) (ha, (hb, tt))) (hb, (ha, tt)) s
      ((Pairwise-pair λ x y. hlevel).1 last)
      (Perm.trans p (Perm.swap (digit_sum b.tx_id, b.tx_id) (digit_sum a.tx_id, a.tx_id) []))

-- In a block of two self-transfers, the second of which has the larger digit sum,
-- findValidDNNTransactions puts the second one first, and a recovery whose writes succeed and which
-- finds an anchor for each gives the first one the position 1 and the second one the position 2.
pub process_block_transactions-find_valid_dnn_transactions :
    (go : Runtime) (sort_slice : SortSlice) (block : Block) (a b : Transaction) (s t : Bytes)
    (r : Recovery) (anchor : Bytes → Bytes) (n : ℤ)
    → IsSort sort_slice
    → block.transactions ≡ a ∷ b ∷ []
    → IsTxId a.tx_id
    → IsTxId b.tx_id
    → Sync.is_valid_dnn_transaction go a ≡ ok s
    → Sync.is_valid_dnn_transaction go b ≡ ok t
    → digit_sum a.tx_id < digit_sum b.tx_id
    → IsSmooth r anchor
    → (xs : List ValidDnnTransaction) × (find_valid_dnn_transactions go sort_slice block ≡ ok xs)
      × (map key xs ≡ (digit_sum b.tx_id, b.tx_id) ∷ (digit_sum a.tx_id, a.tx_id) ∷ [])
      × (process_block_transactions r block n []
          ≡ update_anchor_position (anchor a.tx_id) n block.height 1
            ∷ update_anchor_position (anchor b.tx_id) n block.height 2
            ∷ [])
unfolding process_block_transactions
process_block_transactions-find_valid_dnn_transactions go sort_slice block a b s t r anchor n v e ha
      hb ka kb h smooth =
    let ids : All (λ tx. IsTxId tx.tx_id) block.transactions = rw (e) (ha, (hb, tt)) in
    let (xs, found, p, ordered) = find_valid_dnn_transactions_lem go sort_slice block v ids in
    let keys : valid_keys go block.transactions
        ≡ (digit_sum a.tx_id, a.tx_id) ∷ (digit_sum b.tx_id, b.tx_id) ∷ [] =
      rw (e, ka, kb) refl in
    (
      xs,
      found,
      second_first a b (map key xs) ha hb h (rw (sym keys) p) ordered,
      rw (e) (
          recovery_positions r anchor block.height n a b smooth (self_transfer_passes go a s ka)
            (self_transfer_passes go b t kb)),
    )
