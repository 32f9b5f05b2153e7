-- ===== src/Sync/SelfTransfer.antt =====
-- What `isValidDNNTransaction` accepts: transfers from one address of the right type to itself.
use dnn_node.Base.{
  ◌≡◌, refl, sym, ap, ◌∙◌, ◌≢◌, ◌⊎◌, inl, inr, Bool, true, false, ◌||◌, List, [], ◌∷◌, ◌++◌, ok,
  fail_if, bind_ok, fail_if_ok, any, All, All-append, is_nil, length, ◌==◌, Bool-cases, arith,
}
use dnn_node.Base.Bytes.{Bytes, codes, bytes_eq, bytes_eq_sound, bytes_eq_refl, has_prefix}
use dnn_node.Chain.{TxInput, TxOutput, Transaction}
use dnn_node.Sync.{
  Addresses, no_addresses, insert_address, add_input, add_output, add_outputs, output_addresses_of,
  not_valid, or_reject, scan_inputs, scan_outputs, first_address, is_valid_dnn_transaction,
}
use dnn_node.Validation.{Runtime, to_lower}

-- Every address that the outputs name.
abbrev pub named : List TxOutput → List Bytes
named [] = []
named (output ∷ outputs) = output_addresses_of output ++ named outputs

-- Every input comes from the address, every output is of the type P2WPKH and names no other
-- address, some output names it, and it begins with bc1q.
pub record IsSelfTransfer (go : Runtime) (address : Bytes) (tx : Transaction) : Type 0 where
  pub inputs : tx.inputs ≢ []
  pub from : All (λ i. i.address ≡ address) tx.inputs
  pub types :
      All (λ o. to_lower go o.script_pub_key.script_type ≡ codes "witness_v0_keyhash") tx.outputs
  pub paid : named tx.outputs ≢ []
  pub to : All (λ x. x ≡ address) (named tx.outputs)
  pub segwit : has_prefix (to_lower go address) (codes "bc1q") ≡ true

abbrev Has : Bytes → List Bytes → Type 0
Has x m = any (bytes_eq x) m ≡ true

insert-Has : (x : Bytes) (m : List Bytes) → Has x (insert_address x m)
unfolding insert_address
insert-Has x m = elim (Bool-cases (any (bytes_eq x) m)) [
  | inl h ↦ rw (h) h
  | inr h ↦ rw (h) (ground (arith, bytes_eq_refl x))
]

insert_keeps : (x y : Bytes) (m : List Bytes) → Has y m → Has y (insert_address x m)
unfolding insert_address
insert_keeps x y m h = ground arith

insert_cases : (x y : Bytes) (m : List Bytes) → Has y (insert_address x m) → (y ≡ x) ⊎ Has y m
unfolding insert_address
insert_cases x y m h = elim (Bool-cases (bytes_eq y x)) [
  | inl e ↦ inl (bytes_eq_sound y x e)
  | inr e ↦ inr (ground arith)
]

-- The outputs' addresses are among all.
abbrev Sub : Addresses → Type 0
Sub m = (x : Bytes) → Has x m.output_addresses → Has x m.all_addresses

Has-one : (x b : Bytes) → Has x (b ∷ []) → x ≡ b
Has-one x b h = bytes_eq_sound x b (ground arith)

inputs_sound :
    (inputs : List TxInput) (m m' : Addresses)
    → scan_inputs inputs m ≡ ok m'
    → All (λ i. Has i.address m'.all_addresses) inputs
      × ((x : Bytes) → Has x m.all_addresses → Has x m'.all_addresses)
      × (m'.output_addresses ≡ m.output_addresses)
unfolding scan_inputs
inputs_sound [] m m' h = let same : m ≡ m' = cc in rw (sym same) (tt, λ x k. k, refl)
inputs_sound (i ∷ inputs) m m' h =
    let (_, _, rest) = bind_ok (fail_if (is_nil i.address) not_valid) _ m' h in
    let (all, keeps, outs) = inputs_sound inputs (add_input i.address m) m' rest in
    (
      (keeps i.address (insert-Has i.address m.all_addresses), all),
      λ x k. keeps x (insert_keeps i.address x m.all_addresses k),
      outs,
    )

add_outputs_sound :
    (addrs : List Bytes) (m : Addresses)
    → All (λ a. Has a (add_outputs addrs m).all_addresses) addrs
      × ((x : Bytes) → Has x m.all_addresses → Has x (add_outputs addrs m).all_addresses)
      × (Sub m → Sub (add_outputs addrs m))
unfolding add_outputs
add_outputs_sound [] m = (tt, λ x k. k, λ s. s)
add_outputs_sound (a ∷ addrs) m =
    let (all, keeps, sub) = add_outputs_sound addrs (add_output a m) in
    (
      (keeps a (insert-Has a m.all_addresses), all),
      λ x k. keeps x (insert_keeps a x m.all_addresses k),
      λ s. sub (λ x k. elim (insert_cases a x m.output_addresses k) [
        | inl e ↦ rw (e) (insert-Has a m.all_addresses)
        | inr j ↦ insert_keeps a x m.all_addresses (s x j)
      ]),
    )

or_reject_ok : (tx_id : Bytes) (b : Bool) → or_reject tx_id b ≡ ok tt → b ≡ true
or_reject_ok tx_id true h = refl
or_reject_ok tx_id false h = ground arith

map_Has :
    (m m' : List Bytes) (xs : List Bytes)
    → ((x : Bytes) → Has x m → Has x m')
    → All (λ x. Has x m) xs
    → All (λ x. Has x m') xs
map_Has m m' [] k h = tt
map_Has m m' (x ∷ xs) k h = (k x h.0, map_Has m m' xs k h.1)

append_nil : (xs ys : List Bytes) → xs ++ ys ≡ [] → (xs ≡ []) × (ys ≡ [])
append_nil [] ys h = (refl, h)
append_nil (x ∷ xs) ys h = absurd (cc)

abbrev pub HasType : Runtime → TxOutput → Type 0
HasType go o = to_lower go o.script_pub_key.script_type ≡ codes "witness_v0_keyhash"

outputs_sound :
    (go : Runtime) (tx_id : Bytes) (os : List TxOutput) (m m' : Addresses)
    → scan_outputs go tx_id os m ≡ ok m'
    → Sub m
    → All (HasType go) os
      × All (λ x. Has x m'.all_addresses) (named os)
      × ((x : Bytes) → Has x m.all_addresses → Has x m'.all_addresses)
      × Sub m'
      × (named os ≡ [] → m'.output_addresses ≡ m.output_addresses)
unfolding scan_outputs add_outputs
outputs_sound go tx_id [] m m' h s =
    let same : m ≡ m' = cc in rw (sym same) (tt, tt, λ x k. k, s, λ _. refl)
outputs_sound go tx_id (o ∷ os) m m' h s =
    let (_, typed, rest) = bind_ok (or_reject tx_id _) _ m' h in
    let (here, held, sub) = add_outputs_sound (output_addresses_of o) m in
    let (types, all, keeps, sub', none) =
      outputs_sound go tx_id os (add_outputs (output_addresses_of o) m) m' rest (sub s) in
    (
      (bytes_eq_sound _ _ (or_reject_ok tx_id _ typed), types),
      All-append (λ x. Has x m'.all_addresses) (output_addresses_of o) (named os)
          (map_Has _ m'.all_addresses (output_addresses_of o) keeps here) all,
      λ x k. keeps x (held x k),
      sub',
      λ e.
          let (l, r) = append_nil (output_addresses_of o) (named os) e in
          none r ∙ ap (λ xs. (add_outputs xs m).output_addresses) l,
    )

is_nil_sound : {A : Type 0} (xs : List A) → is_nil xs ≡ false → xs ≢ []
is_nil_sound [] h e = cc
is_nil_sound (x ∷ xs) h e = cc

first-Has : (xs : List Bytes) → is_nil xs ≡ false → Has (first_address xs) xs
first-Has [] h = absurd (cc)
first-Has (x ∷ xs) h = ground (arith, bytes_eq_refl x)

one_cases :
    (m : List Bytes) → (length m == 1) ≡ true → (b : Bytes) × ((x : Bytes) → Has x m → x ≡ b)
one_cases [] h = absurd (ground arith)
one_cases (b ∷ []) h = (b, λ x k. Has-one x b k)
one_cases (b ∷ c ∷ m) h = absurd (ground arith)

map_inputs :
    (m m' : List Bytes) (inputs : List TxInput)
    → ((x : Bytes) → Has x m → Has x m')
    → All (λ i. Has i.address m) inputs
    → All (λ i. Has i.address m') inputs
map_inputs m m' [] k h = tt
map_inputs m m' (i ∷ inputs) k h = (k i.address h.0, map_inputs m m' inputs k h.1)

map_from :
    (b : Bytes) (m : List Bytes) (inputs : List TxInput)
    → ((x : Bytes) → Has x m → x ≡ b)
    → All (λ i. Has i.address m) inputs
    → All (λ i. i.address ≡ b) inputs
map_from b m [] f h = tt
map_from b m (i ∷ inputs) f h = (f i.address h.0, map_from b m inputs f h.1)

map_to :
    (b : Bytes) (m : List Bytes) (xs : List Bytes)
    → ((x : Bytes) → Has x m → x ≡ b)
    → All (λ x. Has x m) xs
    → All (λ x. x ≡ b) xs
map_to b m [] f h = tt
map_to b m (x ∷ xs) f h = (f x h.0, map_to b m xs f h.1)

no_outputs-Sub : (m : Addresses) → m.output_addresses ≡ [] → Sub m
no_outputs-Sub m e x k =
    let none : any (bytes_eq x) [] ≡ true = ap (any (bytes_eq x)) (sym e) ∙ k in absurd (cc)

pub transfer_sound :
    (go : Runtime) (tx : Transaction) (address : Bytes)
    → is_valid_dnn_transaction go tx ≡ ok address
    → IsSelfTransfer go address tx
unfolding is_valid_dnn_transaction
transfer_sound go tx address h =
    let (_, filled, h1) =
      bind_ok (fail_if (is_nil tx.inputs || is_nil tx.outputs) not_valid) _ _ h in
    let (m, scanned, h2) = bind_ok (scan_inputs tx.inputs no_addresses) _ _ h1 in
    let (n, scanned', h3) = bind_ok (scan_outputs go tx.tx_id tx.outputs m) _ _ h2 in
    let (_, one, h4) = bind_ok (or_reject tx.tx_id (length n.all_addresses == 1)) _ _ h3 in
    let (_, full, h5) =
      bind_ok (fail_if (is_nil n.input_addresses || is_nil n.output_addresses) not_valid) _ _ h4 in
    let (_, prefix, h6) =
      bind_ok
        (or_reject tx.tx_id
          (has_prefix (to_lower go (first_address n.output_addresses)) (codes "bc1q")))
        _ _ h5 in
    let (from, keeps, outs) = inputs_sound tx.inputs no_addresses m scanned in
    let sub : Sub m = no_outputs-Sub m outs in
    let (types, to, keeps', sub', none) = outputs_sound go tx.tx_id tx.outputs m n scanned' sub in
    let (b, only) = one_cases n.all_addresses (or_reject_ok tx.tx_id _ one) in
    let paid : is_nil n.output_addresses ≡ false = ground (arith, fail_if_ok _ not_valid full) in
    let first : first_address n.output_addresses ≡ b =
      only _ (sub' _ (first-Has n.output_addresses paid)) in
    let same : address ≡ first_address n.output_addresses = cc in
    let known : (x : Bytes) → Has x n.all_addresses → x ≡ address =
      λ x k. only x k ∙ sym (same ∙ first) in
    record {
      inputs = is_nil_sound tx.inputs (ground (arith, fail_if_ok _ not_valid filled));
      from =
          map_from address n.all_addresses tx.inputs known
            (map_inputs m.all_addresses n.all_addresses tx.inputs keeps' from);
      types = types;
      paid = λ e. is_nil_sound n.output_addresses paid (none e ∙ outs);
      to = map_to address n.all_addresses (named tx.outputs) known to;
      segwit = rw (same) (or_reject_ok tx.tx_id _ prefix);
    }
