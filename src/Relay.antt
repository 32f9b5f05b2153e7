-- ===== src/Relay.antt =====
-- internal/relay/relay.go: what the relay does with an EVENT message, behind its decoding.
-- The database, the derivation of addresses and `nip19.Decode` are the fields of `Relay`.
pub mod Acceptance
pub mod Filters
mod Tests
use dnn_node.Base.{
  ℕ, Bool, true, false, not, ◌||◌, List, [], ◌∷◌, Option, none, some, Result, ok, err, panic, ◌>>=◌,
  ◌>>◌, fail_if, wrap_err, or_err, ltb, if◌then◌else◌, is_nil, length,
}
use dnn_node.Base.Bytes.{Bytes, codes, bytes_eq}
use dnn_node.Base.Int.{ℤ}
use dnn_node.Nostr.{Event, is_kind, has_dnn_tag}
use dnn_node.Policy.{SizeError, validate_event_size}
use dnn_node.Policy.Content.{ContentError, validate_metadata_content}
use dnn_node.Policy.References.{ReferenceError, validate_tag_references}
use dnn_node.Validation.{Runtime, EventError}
use dnn_node.Validation.Content.{validate_dnn_event}

pub record BitcoinTransaction : Type 0 where
  pub bitcoin_block : ℤ
  pub dnn_block : ℤ
  pub position : ℤ

-- `none` is an error of the call; a store operation says whether it succeeded.
pub record Relay : Type 0 where
  pub go : Runtime
  pub network : Bytes
  pub marshal : Event → Option Bytes
  pub decodes : Bytes → Bool
  pub derive_addresses : Bool → Bytes → Option (List Bytes)
  pub has_valid_transaction_for_addresses : List Bytes → Option Bool
  pub get_bitcoin_transaction : Bytes → Option (Option BitcoinTransaction)
  pub store_name_event : Event → Bool
  pub store_connection_event : Event → Bool
  pub store_metadata_event : Event → Bool
  pub store_anchor_event : Event → BitcoinTransaction → Bool

-- The answer `OK false`.
pub data EventRejected : Type 0 where
  signature_failed not_dnn_event : EventRejected
  invalid_size : SizeError → EventRejected
  invalid_structure : EventError → EventRejected
  invalid_content : ContentError → EventRejected
  invalid_references : ReferenceError → EventRejected
  no_address transaction_check_failed no_transaction : EventRejected
  unsupported_event_kind store_failed missing_x database_error transaction_not_found : EventRejected

-- The first log line takes eight bytes of the id and of the key, before any check.
abbrev pub log_prefixes : Event → Result EventRejected (Unit {0})
log_prefixes event = if ltb (length event.id) 8 || ltb (length event.pubkey) 8 then panic else ok tt

abbrev pub when : {E : Type 0} → Bool → Result E (Unit {0}) → Result E (Unit {0})
when b m = if b then m else ok tt

abbrev pub is_authored : ℤ → Bool
is_authored kind = is_kind 61600 kind || (is_kind 62600 kind || is_kind 63600 kind)

abbrev pub is_testnet : Bytes → Bool
is_testnet network = bytes_eq network (codes "testnet") || bytes_eq network (codes "dev")

-- The author of a name, a connection or metadata has a transaction.
unfoldable pub check_author : Relay → Event → Result EventRejected (Unit {0})
check_author r event = do
  derived_addrs ← or_err (r.derive_addresses (is_testnet r.network) event.pubkey) no_address
  has_valid_tx ←
      or_err (r.has_valid_transaction_for_addresses derived_addrs) transaction_check_failed
  fail_if (not has_valid_tx) no_transaction

-- The value of the first tag `x`, or the empty text.
unfoldable pub transaction_id : List (List Bytes) → Bytes
transaction_id [] = []
transaction_id ((key ∷ value ∷ rest) ∷ tags) =
    if bytes_eq key (codes "x") then value else transaction_id tags
transaction_id (_ ∷ tags) = transaction_id tags

-- Behind the lookup each branch logs sixteen bytes of the id.
abbrev anchor_found :
    Relay → Event → Option (Option BitcoinTransaction) → Result EventRejected (Unit {0})
anchor_found r event none = err database_error
anchor_found r event (some none) = err transaction_not_found
anchor_found r event (some (some tx)) = fail_if (not (r.store_anchor_event event tx)) store_failed

unfoldable pub handle_anchor_event : Relay → Event → Result EventRejected (Unit {0})
handle_anchor_event r event =
    let tx_id = transaction_id event.tags in
    if is_nil tx_id
    then err missing_x
    else if ltb (length tx_id) 16
    then panic
    else anchor_found r event (r.get_bitcoin_transaction tx_id)

unfoldable pub store_event : Relay → Event → Result EventRejected (Unit {0})
store_event r event =
    if is_kind 61600 event.kind
    then fail_if (not (r.store_name_event event)) store_failed
    else if is_kind 62600 event.kind
    then fail_if (not (r.store_connection_event event)) store_failed
    else if is_kind 63600 event.kind
    then fail_if (not (r.store_metadata_event event)) store_failed
    else if is_kind 60600 event.kind
    then handle_anchor_event r event
    else err unsupported_event_kind

-- `ok` where the event is stored, and the answer `OK true` and the broadcasts follow.
unfoldable pub handle_event : Relay → Event → Result EventRejected (Unit {0})
handle_event r event = do
  log_prefixes event
  fail_if (not (r.go.check_signature event)) signature_failed
  fail_if (not (has_dnn_tag event.tags)) not_dnn_event
  wrap_err invalid_size (validate_event_size r.marshal event)
  wrap_err invalid_structure (validate_dnn_event r.go event)
  wrap_err invalid_content (when (is_kind 63600 event.kind) (validate_metadata_content r.go event))
  wrap_err invalid_references
      (when (is_kind 60600 event.kind) (validate_tag_references r.decodes event))
  when (is_authored event.kind) (check_author r event)
  store_event r event
