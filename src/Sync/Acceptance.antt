-- ===== src/Sync/Acceptance.antt =====
-- `isValidDNNTransaction` accepts every self-transfer, and nothing else.
use dnn_node.Base.{◌≡◌, refl, ap, ◌∙◌, ◌≢◌, ◌↔◌, true, false, List, [], ◌∷◌, ◌++◌, ok, All, is_nil}
use dnn_node.Base.Bytes.{Bytes, codes, bytes_eq_refl, has_prefix}
use dnn_node.Chain.{TxInput, TxOutput, Transaction}
use dnn_node.Sync.{
  Addresses, no_addresses, insert_address, add_outputs, output_addresses_of, scan_inputs,
  scan_outputs, is_valid_dnn_transaction,
}
use dnn_node.Sync.SelfTransfer.{named, IsSelfTransfer, HasType, transfer_sound}
use dnn_node.Validation.{Runtime, to_lower}

module _ (a : Bytes) where
  -- The maps after the inputs, and after an output that names the address.
  abbrev from_one : Addresses
  from_one = record { all_addresses = a ∷ []; input_addresses = a ∷ []; output_addresses = [] }

  abbrev to_one : Addresses
  to_one = record { all_addresses = a ∷ []; input_addresses = a ∷ []; output_addresses = a ∷ [] }

  insert_again : insert_address a (a ∷ []) ≡ a ∷ []
  unfolding insert_address
  insert_again = rw (bytes_eq_refl a) refl

  insert_new : insert_address a [] ≡ a ∷ []
  unfolding insert_address
  insert_new = refl

  scan_inputs_again :
      (inputs : List TxInput)
      → is_nil a ≡ false
      → All (λ i. i.address ≡ a) inputs
      → scan_inputs inputs from_one ≡ ok from_one
  unfolding scan_inputs
  scan_inputs_again [] n h = refl
  scan_inputs_again (i ∷ inputs) n h = rw (h.0, n, insert_again) (scan_inputs_again inputs n h.1)

  scan_inputs_one :
      (inputs : List TxInput)
      → inputs ≢ []
      → is_nil a ≡ false
      → All (λ i. i.address ≡ a) inputs
      → scan_inputs inputs no_addresses ≡ ok from_one
  unfolding scan_inputs
  scan_inputs_one [] e n h = absurd (e refl)
  scan_inputs_one (i ∷ inputs) e n h = rw (h.0, n, insert_new) (scan_inputs_again inputs n h.1)

  add_outputs_again : (xs : List Bytes) → All (λ x. x ≡ a) xs → add_outputs xs to_one ≡ to_one
  unfolding add_outputs
  add_outputs_again [] h = refl
  add_outputs_again (x ∷ xs) h = rw (h.0, insert_again) (add_outputs_again xs h.1)

  add_outputs_one :
      (x : Bytes) (xs : List Bytes)
      → All (λ y. y ≡ a) (x ∷ xs)
      → add_outputs (x ∷ xs) from_one ≡ to_one
  unfolding add_outputs
  add_outputs_one x xs h = rw (h.0, insert_again, insert_new) (add_outputs_again xs h.1)

  All-left : (xs ys : List Bytes) → All (λ x. x ≡ a) (xs ++ ys) → All (λ x. x ≡ a) xs
  All-left [] ys h = tt
  All-left (x ∷ xs) ys h = (h.0, All-left xs ys h.1)

  All-right : (xs ys : List Bytes) → All (λ x. x ≡ a) (xs ++ ys) → All (λ x. x ≡ a) ys
  All-right [] ys h = h
  All-right (x ∷ xs) ys h = All-right xs ys h.1

  module _ (go : Runtime) (tx_id : Bytes) where
    scan_outputs_again :
        (outputs : List TxOutput)
        → All (HasType go) outputs
        → All (λ x. x ≡ a) (named outputs)
        → scan_outputs go tx_id outputs to_one ≡ ok to_one
    unfolding scan_outputs
    scan_outputs_again [] t h = refl
    scan_outputs_again (o ∷ outputs) t h =
        rw
          (
            t.0,
            add_outputs_again (output_addresses_of o)
                (All-left (output_addresses_of o) (named outputs) h),
          )
          (scan_outputs_again outputs t.1 (All-right (output_addresses_of o) (named outputs) h))

    -- The rest of the loop, behind an output with the addresses `xs`.
    rest_of_outputs :
        (xs : List Bytes) (outputs : List TxOutput)
        → (named outputs ≢ [] → scan_outputs go tx_id outputs from_one ≡ ok to_one)
        → All (HasType go) outputs
        → xs ++ named outputs ≢ []
        → All (λ x. x ≡ a) (xs ++ named outputs)
        → scan_outputs go tx_id outputs (add_outputs xs from_one) ≡ ok to_one
    unfolding add_outputs
    rest_of_outputs [] outputs f t e h = f e
    rest_of_outputs (x ∷ xs) outputs f t e h =
        ap (scan_outputs go tx_id outputs)
          (add_outputs_one x xs (All-left (x ∷ xs) (named outputs) h))
        ∙ scan_outputs_again outputs t (All-right (x ∷ xs) (named outputs) h)

    scan_outputs_one :
        (outputs : List TxOutput)
        → All (HasType go) outputs
        → named outputs ≢ []
        → All (λ x. x ≡ a) (named outputs)
        → scan_outputs go tx_id outputs from_one ≡ ok to_one
    unfolding scan_outputs
    scan_outputs_one [] t e h = absurd (e refl)
    scan_outputs_one (o ∷ outputs) t e h =
        let later = All-right (output_addresses_of o) (named outputs) h in
        rw (t.0) (
          rest_of_outputs (output_addresses_of o) outputs
            (λ f. scan_outputs_one outputs t.1 f later) t.1 e h)

not_nil : {A : Type 0} (xs : List A) → xs ≢ [] → is_nil xs ≡ false
not_nil [] h = absurd (h refl)
not_nil (x ∷ xs) h = refl

outputs_paid : (outputs : List TxOutput) → named outputs ≢ [] → is_nil outputs ≡ false
outputs_paid [] h = absurd (h refl)
outputs_paid (o ∷ outputs) h = refl

segwit_filled :
    (go : Runtime) (a : Bytes) → has_prefix (to_lower go a) (codes "bc1q") ≡ true → is_nil a ≡ false
unfolding to_lower
segwit_filled go [] h = absurd (cc)
segwit_filled go (c ∷ a) h = refl

transfer_complete :
    (go : Runtime) (tx : Transaction) (address : Bytes)
    → IsSelfTransfer go address tx
    → is_valid_dnn_transaction go tx ≡ ok address
unfolding is_valid_dnn_transaction
transfer_complete go tx address v =
    let filled = segwit_filled go address v.segwit in
    rw
      (
        not_nil tx.inputs v.inputs,
        outputs_paid tx.outputs v.paid,
        scan_inputs_one address tx.inputs v.inputs filled v.from,
        scan_outputs_one address go tx.tx_id tx.outputs v.types v.paid v.to,
        v.segwit,
      )
      refl

-- isValidDNNTransaction accepts a transaction with an address exactly when it has inputs and all
-- come from the address, the small-letter form of the type of every output is that of P2WPKH, some
-- output names an address and none names another one, and the small-letter form of the address
-- begins with bc1q.
pub is_valid_dnn_transaction_iff :
    (go : Runtime) (tx : Transaction) (address : Bytes)
    → (is_valid_dnn_transaction go tx ≡ ok address) ↔ IsSelfTransfer go address tx
is_valid_dnn_transaction_iff go tx address =
    (transfer_sound go tx address, transfer_complete go tx address)
