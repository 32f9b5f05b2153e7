-- ===== src/Relay/Acceptance.antt =====
-- What an event has that the relay stored.
use dnn_node.Base.{◌≡◌, true, List, some, ok}
use dnn_node.Base.Bytes.{Bytes}
use dnn_node.Nostr.{Event, is_kind, has_dnn_tag}
use dnn_node.Policy.{validate_event_size}
use dnn_node.Policy.Content.{validate_metadata_content}
use dnn_node.Policy.References.{validate_tag_references}
use dnn_node.Relay.{Relay, is_authored, is_testnet, store_event}
use dnn_node.Validation.Content.{validate_dnn_event}

-- Every check of the relay, in the terms of the checks.
pub record IsAcceptable (r : Relay) (event : Event) : Type 0 where
  pub signed : r.go.check_signature event ≡ true
  pub marked : has_dnn_tag event.tags ≡ true
  pub sized : validate_event_size r.marshal event ≡ ok tt
  pub structured : validate_dnn_event r.go event ≡ ok tt
  pub content : is_kind 63600 event.kind ≡ true → validate_metadata_content r.go event ≡ ok tt
  pub references : is_kind 60600 event.kind ≡ true → validate_tag_references r.decodes event ≡ ok tt
  pub author :
      is_authored event.kind ≡ true
      → (addresses : List Bytes) × (r.derive_addresses (is_testnet r.network) event.pubkey
          ≡ some addresses)
        × (r.has_valid_transaction_for_addresses addresses ≡ some true)
  pub stored : store_event r event ≡ ok tt
