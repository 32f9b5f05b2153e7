-- ===== src/Relay/Tests.antt =====
-- A metadata event that the relay stores, and an event with an id of two bytes.
use dnn_node.Relay.Filters.{Filter, event_matches_filter}
use dnn_node.Relay.Filters.Matches.{IsMatch, event_matches_filter_iff}
use dnn_node.Base.{◌↔◌, ◌≡◌, refl, [], ◌∷◌, some, none, true, panic}
use dnn_node.Base.Bytes.{Bytes, codes}
use dnn_node.Base.Int.{pos}
use dnn_node.Nostr.{Event, prop, end, str}
use dnn_node.Relay.{Relay, handle_event}

abbrev open_relay : Relay
open_relay = record {
  go = record {
    lower_unicode = λ s. s;
    unmarshal = λ s. some (prop (codes "metadata") (str (codes "hello")) end);
    check_signature = λ event. true;
  };
  network = codes "mainnet";
  marshal = λ event. some event.content;
  decodes = λ s. true;
  derive_addresses = λ is_testnet pubkey. some (codes "bc1qa" ∷ []);
  has_valid_transaction_for_addresses = λ addresses. some true;
  get_bitcoin_transaction = λ tx_id. none;
  store_name_event = λ event. true;
  store_connection_event = λ event. true;
  store_metadata_event = λ event. true;
  store_anchor_event = λ event tx. true;
}

abbrev metadata_event : Bytes → Event
metadata_event id = record {
  id = id;
  pubkey = codes "0123456789abcdef";
  created_at = pos 0;
  kind = pos 63600;
  tags = (codes "t" ∷ codes "DNN" ∷ []) ∷ [];
  content = codes "{}";
}

-- The first log line takes eight bytes of the id.
short_id : handle_event open_relay (metadata_event (codes "01")) ≡ panic
unfolding handle_event
short_id = refl

abbrev by_author : Filter
by_author = record {
  ids = [];
  kinds = pos 63600 ∷ [];
  authors = codes "0123456789abcdef" ∷ [];
  tags = (codes "t", codes "DNN" ∷ []) ∷ [];
  since = some (pos 0);
  until = none;
}

event_matches_filter_iff_example :
    (event_matches_filter (metadata_event (codes "01234567")) by_author ≡ true)
    ↔ IsMatch (metadata_event (codes "01234567")) by_author
event_matches_filter_iff_example =
    event_matches_filter_iff (metadata_event (codes "01234567")) by_author

matches : event_matches_filter (metadata_event (codes "01234567")) by_author ≡ true
unfolding event_matches_filter
matches = refl
