-- ===== src/Policy/Tests.antt =====
-- The policy on documents and databases.
use dnn_node.Base.{ℕ, ◌≡◌, refl, ◌≢◌, ◌↔◌, [], ◌∷◌, none, some, true, false, ok, All}
use dnn_node.Base.Bytes.{codes}
use dnn_node.Base.Int.{pos}
use dnn_node.Nostr.{Event, Json, str, obj, prop, end}
use dnn_node.Constants
use dnn_node.Policy.{new_policy_enforcer, Transaction, validate_anchor_transaction}
use dnn_node.Policy.Rules.{validate_anchor_transaction-never}
use dnn_node.Policy.Content.{check_for_binary_data}
use dnn_node.Policy.Content.Leaves.{
  texts, IsClean, check_for_binary_data_iff, check_for_binary_data-letters_pk,
}
use dnn_node.Policy.References.{validate_tag_references, scan_tags, check_tag}
use dnn_node.Policy.Limits.{
  RateLimitChecker, extract_d_tag, check_versions, check_d_tags, drop_oldest_d_tag,
  enforce_rate_limits,
}
use dnn_node.Policy.Limits.Justified.{IsJustified, enforce_rate_limits-IsJustified}

abbrev transfer : Transaction
transfer = record {
  tx_id = [];
  input_addresses = codes "bc1qa" ∷ [];
  output_addresses = codes "bc1qa" ∷ [];
  fee_rate = pos 5;
  address = codes "bc1qa";
  event_pubkey = [];
}

abbrev document : Json
document = obj (prop (codes "name") (str (codes "alice")) end)

check_for_binary_data_iff_example :
    (check_for_binary_data document ≡ ok tt) ↔ All IsClean (texts document)
check_for_binary_data_iff_example = check_for_binary_data_iff document

check_for_binary_data-letters_pk_example : check_for_binary_data (str (codes "UPKEEP")) ≢ ok tt
check_for_binary_data-letters_pk_example =
    check_for_binary_data-letters_pk (codes "U") (codes "EEP")

-- Ten versions of the d-tag are stored.
abbrev full : RateLimitChecker ℕ
full = record {
  count_event_versions = λ pubkey kind d_tag. (10, none);
  recount_event_versions = λ pubkey kind d_tag. (10, none);
  count_d_tags_for_kind = λ pubkey kind. (1, none);
  get_oldest_event_version = λ pubkey kind d_tag. (codes "oldest", none);
  get_oldest_d_tag_for_kind = λ pubkey kind. (codes "d", none);
  is_d_tag_referenced_by_anchor = λ pubkey kind d_tag. (false, none);
}

abbrev name_event : Event
name_event = record {
  id = [];
  pubkey = codes "p";
  created_at = pos 0;
  kind = pos 61600;
  tags = (codes "d" ∷ codes "alice" ∷ []) ∷ [];
  content = [];
}

enforce_rate_limits-IsJustified_example :
    IsJustified full
      (codes "p")
      (pos 61600)
      (extract_d_tag name_event.tags)
      (enforce_rate_limits name_event full).0
enforce_rate_limits-IsJustified_example = enforce_rate_limits-IsJustified name_event full

-- Three versions of the d-tag are stored, and the second count fails.
abbrev failing : RateLimitChecker ℕ
failing = record full {
  count_event_versions = λ pubkey kind d_tag. (3, none);
  recount_event_versions = λ pubkey kind d_tag. (0, some 1);
  count_d_tags_for_kind = λ pubkey kind. (5, none);
}

-- A d-tag is named although the event brings no new one.
deleted_by_failure : (enforce_rate_limits name_event failing).0.d_tags_to_delete ≡ codes "d" ∷ []
unfolding enforce_rate_limits check_versions check_d_tags drop_oldest_d_tag extract_d_tag
deleted_by_failure = refl

validate_anchor_transaction-never_example :
    validate_anchor_transaction (new_policy_enforcer Constants.network_mainnet) transfer ≢ ok tt
validate_anchor_transaction-never_example =
    validate_anchor_transaction-never (new_policy_enforcer Constants.network_mainnet) transfer

abbrev anchor_event : Event
anchor_event = record {
  id = [];
  pubkey = codes "p";
  created_at = pos 0;
  kind = pos 60600;
  tags =
      (codes "d" ∷ codes "alice" ∷ [])
      ∷ (codes "n" ∷ codes "naddr1n" ∷ [])
      ∷ (codes "c" ∷ codes "naddr1c" ∷ [])
      ∷ (codes "m" ∷ codes "naddr1m" ∷ [])
      ∷ (codes "x" ∷ codes "0123456789abcdef0123456789abcdef0123456789abcdef0123456789abcdef" ∷ [])
      ∷ [];
  content = [];
}

anchor_accepted : validate_tag_references (λ s. true) anchor_event ≡ ok tt
unfolding validate_tag_references scan_tags check_tag
anchor_accepted = refl
