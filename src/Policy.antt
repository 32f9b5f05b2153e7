-- ===== src/Policy.antt =====
-- internal/policy/policy.go: the size, reorganisation and author rules, and the rate limits.
-- `Policy.Content` has the check of metadata and `Policy.References` that of the anchor's tags.
pub mod Content
pub mod References
pub mod Limits
pub mod Rules
mod Tests
use dnn_node.Base.{
  ℕ, Bool, true, false, not, ◌&&◌, ◌||◌, List, [], ◌∷◌, Option, none, some, Result, ok, err, ◌>>=◌,
  ◌>>◌, fail_if, or_err, ltb, leb, ◌==◌, ◌%◌, if◌then◌else◌, any, is_nil, length,
}
use dnn_node.Base.Bytes.{Bytes, codes, bytes_eq}
use dnn_node.Base.Int.{ℤ, pos, negsuc, ltb_ℤ, ◌-ℤ◌}
use dnn_node.Constants
use dnn_node.Nostr.{Event, is_kind}

pub data Params : Type 0 where
  main_net_params test_net_3_params : Params

pub record PolicyEnforcer : Type 0 where
  pub network : Params
  pub network_mode : Bytes
  pub genesis_block : ℕ
  pub min_fee_rate : ℕ

unfoldable pub new_policy_enforcer : Bytes → PolicyEnforcer
new_policy_enforcer network_mode = record {
  network =
      if bytes_eq network_mode Constants.network_testnet
        || bytes_eq network_mode Constants.network_dev
      then test_net_3_params
      else main_net_params;
  network_mode = network_mode;
  genesis_block = Constants.get_genesis_block network_mode;
  min_fee_rate = Constants.get_min_fee_rate network_mode;
}

pub data SizeError : Type 0 where
  marshal_failed too_large unsupported_kind : SizeError

-- The `switch` over the kinds.
abbrev pub max_size : ℤ → Option ℕ
max_size kind =
    if is_kind 60600 kind
    then some Constants.max_size_kind_60600
    else if is_kind 61600 kind
    then some Constants.max_size_kind_61600
    else if is_kind 62600 kind
    then some Constants.max_size_kind_62600
    else if is_kind 63600 kind
    then some Constants.max_size_kind_63600
    else if is_kind 64600 kind || is_kind 65600 kind
    then some Constants.max_size_kind_60600
    else none

-- `marshal` gives the bytes of `json.Marshal(event)`.
unfoldable pub validate_event_size : (Event → Option Bytes) → Event → Result SizeError (Unit {0})
validate_event_size marshal event = do
  event_json ← or_err (marshal event) marshal_failed
  limit ← or_err (max_size event.kind) unsupported_kind
  fail_if (ltb limit (length event_json)) too_large

-- The block of the last synchronised DNN block is an int64: below zero there is no check.
unfoldable pub should_check_reorg : ℤ → Bool
should_check_reorg (pos n) = ltb 0 n && n % Constants.reorg_check_interval == 0
should_check_reorg (negsuc n) = false

unfoldable pub get_reorg_check_range : PolicyEnforcer → ℤ → ℤ × ℤ
get_reorg_check_range pe current_bitcoin_block =
    let start = current_bitcoin_block -ℤ pos Constants.reorg_lookback in
    (
      if ltb_ℤ start (pos pe.genesis_block) then pos pe.genesis_block else start,
      current_bitcoin_block,
    )

pub record StoredBitcoinAddress : Type 0 where
  pub address : Bytes
  pub pubkey : Bytes
  pub created_at : ℤ

pub data AuthorError : Type 0 where
  no_matching_address : AuthorError

unfoldable pub validate_event_author :
    Event → List StoredBitcoinAddress → Result AuthorError (Unit {0})
validate_event_author event stored_addresses =
    if not (is_kind 61600 event.kind)
      && (not (is_kind 62600 event.kind) && not (is_kind 63600 event.kind))
    then ok tt
    else if any (λ stored. bytes_eq stored.pubkey event.pubkey) stored_addresses
    then ok tt
    else err no_matching_address

pub record Transaction : Type 0 where
  pub tx_id : Bytes
  pub input_addresses : List Bytes
  pub output_addresses : List Bytes
  pub fee_rate : ℤ
  pub address : Bytes
  pub event_pubkey : Bytes

-- `uniqueAddrs[addr] = true` over a list; the keys of the map stand in a list.
unfoldable pub add_addresses : List Bytes → List Bytes → List Bytes
add_addresses [] unique = unique
add_addresses (addr ∷ addrs) unique =
    add_addresses addrs (if any (bytes_eq addr) unique then unique else addr ∷ unique)

unfoldable pub is_self_transfer : Transaction → Bool
is_self_transfer tx =
    (length (add_addresses tx.output_addresses (add_addresses tx.input_addresses [])) == 1)
    && (not (is_nil tx.input_addresses) && not (is_nil tx.output_addresses))

pub data DeriveError : Type 0 where
  not_implemented : DeriveError

unfoldable pub derive_bitcoin_address : Bytes → Result DeriveError Bytes
derive_bitcoin_address pubkey_hex = err not_implemented

abbrev derived_is : Bytes → Result DeriveError Bytes → Bool
derived_is bitcoin_addr (ok derived_addr) = bytes_eq derived_addr bitcoin_addr
derived_is bitcoin_addr _ = false

unfoldable pub verify_address_match : Bytes → Bytes → Bool
verify_address_match bitcoin_addr nostr_pubkey =
    derived_is bitcoin_addr (derive_bitcoin_address nostr_pubkey)

pub data AnchorError : Type 0 where
  not_self_transfer fee_too_low address_mismatch : AnchorError

unfoldable pub validate_anchor_transaction :
    PolicyEnforcer → Transaction → Result AnchorError (Unit {0})
validate_anchor_transaction pe tx = do
  fail_if (not (is_self_transfer tx)) not_self_transfer
  fail_if (ltb_ℤ tx.fee_rate (pos pe.min_fee_rate)) fee_too_low
  fail_if (not (verify_address_match tx.address tx.event_pubkey)) address_mismatch
