-- ===== src/Sync.antt =====
-- internal/sync/syncer.go: which transactions of a block count, and their order.
pub mod SelfTransfer
pub mod Acceptance
pub mod Sorting
pub mod Order
pub mod Positions
pub mod Insertion
pub mod Samples
pub mod Blocks
mod Tests
use dnn_node.Base.{
  ℕ, zero, suc, ◌+◌, ◌-◌, Bool, true, false, not, ◌&&◌, ◌||◌, List, [], ◌∷◌, ◌++◌, Result, ok, err,
  panic, ◌>>=◌, ◌>>◌, fail_if, ltb, ◌==◌, in_range, if◌then◌else◌, any, is_nil, length,
}
use dnn_node.Base.Bytes.{Bytes, codes, bytes_eq, has_prefix}
use dnn_node.Base.Int.{ℤ, sub_ℕ, pos, negsuc}
use dnn_node.Chain.{TxInput, TxOutput, Transaction, Block}
use dnn_node.Validation.{Runtime, to_lower}

-- The three maps of `isValidDNNTransaction`: the keys of each stand in a list.
pub record Addresses : Type 0 where
  pub all_addresses : List Bytes
  pub input_addresses : List Bytes
  pub output_addresses : List Bytes

abbrev pub no_addresses : Addresses
no_addresses = record { all_addresses = []; input_addresses = []; output_addresses = [] }

-- `m[addr] = true`
unfoldable pub insert_address : Bytes → List Bytes → List Bytes
insert_address addr m = if any (bytes_eq addr) m then m else addr ∷ m

abbrev pub add_input : Bytes → Addresses → Addresses
add_input addr m = record m {
  input_addresses = insert_address addr m.input_addresses;
  all_addresses = insert_address addr m.all_addresses;
}

abbrev pub add_output : Bytes → Addresses → Addresses
add_output addr m = record m {
  output_addresses = insert_address addr m.output_addresses;
  all_addresses = insert_address addr m.all_addresses;
}

unfoldable pub add_outputs : List Bytes → Addresses → Addresses
add_outputs [] m = m
add_outputs (addr ∷ addrs) m = add_outputs addrs (add_output addr m)

-- The addresses that an output names: the list, or else the single one.
abbrev pub named_addresses : List Bytes → Bytes → List Bytes
named_addresses (a ∷ s) address = a ∷ s
named_addresses [] [] = []
named_addresses [] (c ∷ address) = (c ∷ address) ∷ []

abbrev pub output_addresses_of : TxOutput → List Bytes
output_addresses_of output =
    named_addresses output.script_pub_key.addresses output.script_pub_key.address

-- `return "", false`
pub data Rejection : Type 0 where
  not_valid : Rejection

-- A rejection with a log line, which takes the first 16 bytes of the transaction's id.
abbrev pub or_reject : Bytes → Bool → Result Rejection (Unit {0})
or_reject tx_id true = ok tt
or_reject tx_id false = if ltb (length tx_id) 16 then panic else err not_valid

unfoldable pub scan_inputs : List TxInput → Addresses → Result Rejection Addresses
scan_inputs [] m = ok m
scan_inputs (input ∷ inputs) m = do
  fail_if (is_nil input.address) not_valid
  scan_inputs inputs (add_input input.address m)

unfoldable pub scan_outputs :
    Runtime → Bytes → List TxOutput → Addresses → Result Rejection Addresses
scan_outputs go tx_id [] m = ok m
scan_outputs go tx_id (output ∷ outputs) m = do
  or_reject tx_id
      (bytes_eq (to_lower go output.script_pub_key.script_type) (codes "witness_v0_keyhash"))
  scan_outputs go tx_id outputs (add_outputs (output_addresses_of output) m)

-- A `range` over the map that ends at its first key.
abbrev pub first_address : List Bytes → Bytes
first_address [] = []
first_address (addr ∷ addrs) = addr

unfoldable pub is_valid_dnn_transaction : Runtime → Transaction → Result Rejection Bytes
is_valid_dnn_transaction go tx = do
  fail_if (is_nil tx.inputs || is_nil tx.outputs) not_valid
  m ← scan_inputs tx.inputs no_addresses
  m ← scan_outputs go tx.tx_id tx.outputs m
  or_reject tx.tx_id (length m.all_addresses == 1)
  fail_if (is_nil m.input_addresses || is_nil m.output_addresses) not_valid
  let address = first_address m.output_addresses
  or_reject tx.tx_id (has_prefix (to_lower go address) (codes "bc1q"))
  ok address

-- 0 for a byte that is no digit of base 16 (small letters).
abbrev pub hex_char_to_int : ℕ → ℕ
hex_char_to_int c =
    if in_range b'0' b'9' c then c - b'0' else if in_range b'a' b'f' c then (c - b'a') + 10 else 0

unfoldable pub digit_sum : Bytes → ℕ
digit_sum [] = 0
digit_sum (c ∷ s) = hex_char_to_int c + digit_sum s

unfoldable pub txid_digit_sum : Runtime → Bytes → ℕ
txid_digit_sum go txid = digit_sum (to_lower go txid)

-- The loop over the common length, from the 1-indexed position: the difference of the first two
-- digits that differ, where they stand, and both; the difference of the lengths without any.
unfoldable pub compare_digits : Bytes → Bytes → ℤ → ℕ → ℤ × ℕ × ℕ × ℕ
compare_digits (a ∷ s) (b ∷ t) lengths position =
    let rest = compare_digits s t lengths (suc position) in
    if hex_char_to_int a == hex_char_to_int b then rest else (
      sub_ℕ (hex_char_to_int a) (hex_char_to_int b),
      position,
      hex_char_to_int a,
      hex_char_to_int b,
    )
compare_digits [] t lengths position = (lengths, 0, 0, 0)
compare_digits (a ∷ s) [] lengths position = (lengths, 0, 0, 0)

unfoldable pub compare_txids_by_digit : Runtime → Bytes → Bytes → ℤ × ℕ × ℕ × ℕ
compare_txids_by_digit go a b =
    compare_digits (to_lower go a) (to_lower go b) (sub_ℕ (length a) (length b)) 1

pub record TxIdnsResult : Type 0 where
  pub sum : ℕ
  pub tie_position : ℕ
  pub tie_digit : ℕ

pub record ValidDnnTransaction : Type 0 where
  pub tx_id : Bytes
  pub address : Bytes
  pub tx_idns : TxIdnsResult
  pub block_position : ℕ

abbrev pub record_tie : ℕ → ℕ → ValidDnnTransaction → ValidDnnTransaction
record_tie position digit tx = record tx {
  tx_idns = record { sum = tx.tx_idns.sum; tie_position = position; tie_digit = digit };
}

-- The tie: `cmp` decides, and when it is not 0, the place and the digits are recorded.
abbrev pub break_tie :
    ℤ × ℕ × ℕ × ℕ
    → ValidDnnTransaction
    → ValidDnnTransaction
    → Bool × ValidDnnTransaction × ValidDnnTransaction
break_tie (pos zero, position, x_digit, y_digit) x y = (false, x, y)
break_tie (pos (suc n), position, x_digit, y_digit) x y =
    (true, record_tie position x_digit x, record_tie position y_digit y)
break_tie (negsuc n, position, x_digit, y_digit) x y =
    (false, record_tie position x_digit x, record_tie position y_digit y)

-- The function given to `sort.Slice`: its answer, and the two elements, on which it records a tie.
unfoldable pub less :
    Runtime
    → ValidDnnTransaction
    → ValidDnnTransaction
    → Bool × ValidDnnTransaction × ValidDnnTransaction
less go x y =
    if x.tx_idns.sum == y.tx_idns.sum
    then break_tie (compare_txids_by_digit go x.tx_id y.tx_id) x y
    else (ltb y.tx_idns.sum x.tx_idns.sum, x, y)

abbrev pub valid_transaction : Runtime → Bytes → Bytes → ℕ → ValidDnnTransaction
valid_transaction go txid addr i = record {
  tx_id = txid;
  address = addr;
  tx_idns = record { sum = txid_digit_sum go txid; tie_position = 0; tie_digit = 0 };
  block_position = i;
}

-- One transaction in front of the rest of the loop, which a panic of a log line ends.
abbrev pub collect_one :
    Runtime
    → Transaction
    → ℕ
    → Result Rejection Bytes
    → Result Rejection (List ValidDnnTransaction)
    → Result Rejection (List ValidDnnTransaction)
collect_one go tx i (ok addr) rest =
    rest >>= λ valid_txs. ok (valid_transaction go tx.tx_id addr i ∷ valid_txs)
collect_one go tx i (err _) rest = rest
collect_one go tx i panic rest = panic

-- The loop over the block, from the index `i`.
unfoldable pub collect_valid :
    Runtime → List Transaction → ℕ → Result Rejection (List ValidDnnTransaction)
collect_valid go [] i = ok []
collect_valid go (tx ∷ txs) i =
    collect_one go tx i (is_valid_dnn_transaction go tx) (collect_valid go txs (suc i))

-- `sort.Slice` of the Go library, for a test that may write to the two elements it compares.
abbrev pub SortSlice : Type 1
SortSlice = (A : Type 0) → (A → A → Bool × A × A) → List A → List A

unfoldable pub find_valid_dnn_transactions :
    Runtime → SortSlice → Block → Result Rejection (List ValidDnnTransaction)
find_valid_dnn_transactions go sort_slice block = do
  valid_txs ← collect_valid go block.transactions 0
  ok (sort_slice ValidDnnTransaction (less go) valid_txs)
