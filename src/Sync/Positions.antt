-- ===== src/Sync/Positions.antt =====
-- The transactions of a block that count, in their order: what `findValidDNNTransactions` returns.
use mathlib.Core.List.{Perm, Mem, forall_mem-cons, not-mem-nil}
use mathlib.Core.List.Perm
use dnn_node.Base.{
  ℕ, suc, ◌≤◌, ◌≡◌, refl, sym, ap, ◌↔◌, Bool, true, false, ◌||◌, List, [], ◌∷◌, map, Result, ok,
  err, panic, is_panic, bind_no_panic, fail_if, ◌==◌, length, arith, All, is_nil,
}
use dnn_node.Base.Bytes.{Bytes, codes, bytes_eq, has_prefix}
use dnn_node.Chain.{TxInput, TxOutput, Transaction, Block}
use dnn_node.Sync.{
  Addresses, Rejection, not_valid, or_reject, scan_inputs, scan_outputs, first_address,
  is_valid_dnn_transaction, digit_sum, txid_digit_sum, ValidDnnTransaction, less, collect_one,
  collect_valid, valid_transaction, SortSlice, find_valid_dnn_transactions, no_addresses,
}
use dnn_node.Sync.Order.{
  IsHexDigit, IsTxId, HasTxId, key, before, to_lower_hex, less-ReadsKeys, before-IsStrictWeakOrder,
  before_connected, before_irrefl,
}
use dnn_node.Sync.Sorting.{IsSort, IsOrdered, IsOrdered-unique}
use dnn_node.Validation.{Runtime, to_lower}

All-mem :
    {A : Type 0} (P : A → Type 0) (l : List A)
    → ((x : A) → IsProp (P x))
    → All P l ↔ ((x : A) → Mem x l → P x)
All-mem P [] p = (λ h x m. absurd (not-mem-nil m), λ h. tt)
All-mem P (x ∷ l) p =
    let (into, from) = All-mem P l p in
    (
      λ h. (forall_mem-cons p).1 (h.0, into h.1),
      λ h. (((forall_mem-cons p).0 h).0, from ((forall_mem-cons p).0 h).1),
    )

IsHexDigits-prop : (s : Bytes) → IsProp (All IsHexDigit s)
IsHexDigits-prop [] = hlevel
IsHexDigits-prop (c ∷ s) = let rest = IsHexDigits-prop s in hlevel

IsTxId-prop : (s : Bytes) → IsProp (IsTxId s)
IsTxId-prop s = let digits = IsHexDigits-prop s in hlevel

-- A permutation keeps what holds for each element.
pub All-perm : {xs ys : List (ℕ × Bytes)} → Perm xs ys → All HasTxId xs → All HasTxId ys
All-perm {xs} {ys} p h =
    (All-mem HasTxId ys (λ k. IsTxId-prop k.1)).1
      (λ x m. (All-mem HasTxId xs (λ k. IsTxId-prop k.1)).0 h x ((Perm.mem_iff p).1 m))

fail_if_no_panic : (b : Bool) → is_panic (fail_if b not_valid) ≡ false
fail_if_no_panic true = refl
fail_if_no_panic false = refl

or_reject_no_panic :
    (tx_id : Bytes) (b : Bool) → 16 ≤ length tx_id → is_panic (or_reject tx_id b) ≡ false
or_reject_no_panic tx_id true h = refl
or_reject_no_panic tx_id false h = ground arith

scan_inputs_no_panic :
    (inputs : List TxInput) (m : Addresses) → is_panic (scan_inputs inputs m) ≡ false
unfolding scan_inputs
scan_inputs_no_panic [] m = refl
scan_inputs_no_panic (input ∷ inputs) m =
    bind_no_panic (fail_if (is_nil input.address) not_valid) _ (fail_if_no_panic _)
      (λ _. scan_inputs_no_panic inputs _)

scan_outputs_no_panic :
    (go : Runtime) (tx_id : Bytes) (outputs : List TxOutput) (m : Addresses)
    → 16 ≤ length tx_id
    → is_panic (scan_outputs go tx_id outputs m) ≡ false
unfolding scan_outputs
scan_outputs_no_panic go tx_id [] m h = refl
scan_outputs_no_panic go tx_id (output ∷ outputs) m h =
    bind_no_panic
      (or_reject tx_id
        (bytes_eq (to_lower go output.script_pub_key.script_type) (codes "witness_v0_keyhash")))
      _ (or_reject_no_panic tx_id _ h) (λ _. scan_outputs_no_panic go tx_id outputs _ h)

-- The log lines take 16 bytes of the id: with those there is no panic.
is_valid_no_panic :
    (go : Runtime) (tx : Transaction)
    → 16 ≤ length tx.tx_id
    → is_panic (is_valid_dnn_transaction go tx) ≡ false
unfolding is_valid_dnn_transaction
is_valid_no_panic go tx h =
    bind_no_panic (fail_if (is_nil tx.inputs || is_nil tx.outputs) not_valid) _ (fail_if_no_panic _)
      (λ _.
        bind_no_panic (scan_inputs tx.inputs no_addresses) _ (scan_inputs_no_panic tx.inputs _)
          (λ i.
            bind_no_panic (scan_outputs go tx.tx_id tx.outputs i) _
              (scan_outputs_no_panic go tx.tx_id tx.outputs i h)
              (λ m.
                bind_no_panic (or_reject tx.tx_id (length m.all_addresses == 1)) _
                  (or_reject_no_panic tx.tx_id _ h)
                  (λ _.
                    bind_no_panic
                      (fail_if (is_nil m.input_addresses || is_nil m.output_addresses) not_valid) _
                      (fail_if_no_panic _)
                      (λ _.
                        bind_no_panic
                          (or_reject tx.tx_id (
                            has_prefix (to_lower go (first_address m.output_addresses))
                              (codes "bc1q")))
                          _ (or_reject_no_panic tx.tx_id _ h) (λ _. refl))))))

abbrev keep_valid : Result Rejection Bytes → ℕ × Bytes → List (ℕ × Bytes) → List (ℕ × Bytes)
keep_valid (ok addr) k ks = k ∷ ks
keep_valid _ k ks = ks

-- The digit sums and ids of the transactions that count, in the order of the block.
abbrev pub valid_keys : Runtime → List Transaction → List (ℕ × Bytes)
valid_keys go [] = []
valid_keys go (tx ∷ txs) =
    keep_valid (is_valid_dnn_transaction go tx) (digit_sum tx.tx_id, tx.tx_id) (valid_keys go txs)

HasTxIds-valid_keys :
    (go : Runtime) (txs : List Transaction)
    → All (λ tx. IsTxId tx.tx_id) txs
    → All HasTxId (valid_keys go txs)
HasTxIds-valid_keys go [] h = tt
HasTxIds-valid_keys go (tx ∷ txs) h =
    elim (is_valid_dnn_transaction go tx)
      as (λ r. All HasTxId (keep_valid r (digit_sum tx.tx_id, tx.tx_id) (valid_keys go txs))) [
        | ok a ↦ (h.0, HasTxIds-valid_keys go txs h.1)
        | err e ↦ HasTxIds-valid_keys go txs h.1
        | panic ↦ HasTxIds-valid_keys go txs h.1
      ]

collect_one_total :
    (go : Runtime) (tx : Transaction) (i : ℕ) (r : Result Rejection Bytes)
    (xs : List ValidDnnTransaction)
    → IsTxId tx.tx_id
    → is_panic r ≡ false
    → (ys : List ValidDnnTransaction) × (collect_one go tx i r (ok xs) ≡ ok ys)
      × (map key ys ≡ keep_valid r (digit_sum tx.tx_id, tx.tx_id) (map key xs))
unfolding txid_digit_sum
collect_one_total go tx i (ok addr) xs t h = (
  valid_transaction go tx.tx_id addr i ∷ xs,
  refl,
  ap (λ s. (digit_sum s, tx.tx_id) ∷ map key xs) (to_lower_hex go tx.tx_id t.1),
)
collect_one_total go tx i (err e) xs t h = (xs, refl, refl)
collect_one_total go tx i panic xs t h = absurd (cc)

collect_valid_total :
    (go : Runtime) (txs : List Transaction) (i : ℕ)
    → All (λ tx. IsTxId tx.tx_id) txs
    → (xs : List ValidDnnTransaction) × (collect_valid go txs i ≡ ok xs)
      × (map key xs ≡ valid_keys go txs)
unfolding collect_valid
collect_valid_total go [] i h = ([], refl, refl)
collect_valid_total go (tx ∷ txs) i h =
    let (xs, e, k) = collect_valid_total go txs (suc i) h.1 in
    let (ys, f, l) =
      collect_one_total go tx i (is_valid_dnn_transaction go tx) xs h.0
        (is_valid_no_panic go tx (omega (arith, h.0.0))) in
    (ys, rw (e) f, rw (sym k) l)

-- Where the ids of a block are transaction ids and the sort keeps the contract of sort.Slice,
-- findValidDNNTransactions returns; the sums and ids of its result are those of the transactions
-- that count, each as often as the block has it, and no later one has a larger sum, or an equal sum
-- and a larger id.
pub find_valid_dnn_transactions_lem :
    (go : Runtime) (sort_slice : SortSlice) (block : Block)
    → IsSort sort_slice
    → All (λ tx. IsTxId tx.tx_id) block.transactions
    → (xs : List ValidDnnTransaction) × (find_valid_dnn_transactions go sort_slice block ≡ ok xs)
      × Perm (map key xs) (valid_keys go block.transactions)
      × IsOrdered HasTxId before (map key xs)
unfolding find_valid_dnn_transactions
find_valid_dnn_transactions_lem go sort_slice block v h =
    let (xs, e, k) = collect_valid_total go block.transactions 0 h in
    let ids : All HasTxId (map key xs) = rw (k) (HasTxIds-valid_keys go block.transactions h) in
    (
      sort_slice ValidDnnTransaction (less go) xs,
      rw (e) refl,
      rw (sym k) (
          v.permutes key HasTxId before (less go) xs (less-ReadsKeys go) before-IsStrictWeakOrder
            ids),
      v.orders key HasTxId before (less go) xs (less-ReadsKeys go) before-IsStrictWeakOrder ids,
    )

-- Where the ids of a block are transaction ids of 64 hexadecimal digits, findValidDNNTransactions
-- returns with any two sorts that keep the contract of sort.Slice, and both give the same sums and
-- ids in the same order.
pub find_valid_dnn_transactions_agree :
    (go : Runtime) (sort_slice sort_slice' : SortSlice) (block : Block)
    → IsSort sort_slice
    → IsSort sort_slice'
    → All (λ tx. IsTxId tx.tx_id) block.transactions
    → (xs : List ValidDnnTransaction) × (ys : List ValidDnnTransaction)
      × (find_valid_dnn_transactions go sort_slice block ≡ ok xs)
      × (find_valid_dnn_transactions go sort_slice' block ≡ ok ys)
      × (map key xs ≡ map key ys)
find_valid_dnn_transactions_agree go sort_slice sort_slice' block v v' h =
    let (xs, e, p, s) = find_valid_dnn_transactions_lem go sort_slice block v h in
    let (ys, f, q, t) = find_valid_dnn_transactions_lem go sort_slice' block v' h in
    let ids = HasTxIds-valid_keys go block.transactions h in
    (
      xs,
      ys,
      e,
      f,
      IsOrdered-unique HasTxId before before_connected before_irrefl (map key xs) (map key ys)
          (All-perm (Perm.symm p) ids) (All-perm (Perm.symm q) ids) s t
          (Perm.trans p (Perm.symm q)),
    )
