-- ===== src/Relay/Filters.antt =====
-- internal/relay/relay.go: `eventMatchesFilter`. A filter is a struct of the package go-nostr, as far as
-- the relay reads it; its map of tags is walked in the order of a list.
pub mod Matches
use dnn_node.Base.{
  ℕ, Bool, true, false, not, ◌&&◌, ◌||◌, List, [], ◌∷◌, Option, none, some, ◌==◌, any, all, is_nil,
}
use dnn_node.Base.Bytes.{Bytes, bytes_eq}
use dnn_node.Base.Int.{ℤ, pos, negsuc, ltb_ℤ}
use dnn_node.Nostr.{Event}

pub record Filter : Type 0 where
  pub ids : List Bytes
  pub kinds : List ℤ
  pub authors : List Bytes
  pub tags : List (Bytes × List Bytes)
  pub since : Option ℤ
  pub until : Option ℤ

abbrev pub same_kind : ℤ → ℤ → Bool
same_kind (pos m) (pos n) = m == n
same_kind (negsuc m) (negsuc n) = m == n
same_kind _ _ = false

-- An empty list of the filter allows everything.
abbrev pub allows : {A : Type 0} → (A → Bool) → List A → Bool
allows found xs = is_nil xs || any found xs

-- One tag of the event against a name and its values.
abbrev pub tag_found : Bytes → List Bytes → List Bytes → Bool
tag_found tag_name tag_values (key ∷ value ∷ rest) =
    bytes_eq key tag_name && any (bytes_eq value) tag_values
tag_found tag_name tag_values _ = false

abbrev pub tag_allows : List (List Bytes) → Bytes × List Bytes → Bool
tag_allows tags (tag_name, tag_values) =
    is_nil tag_values || any (tag_found tag_name tag_values) tags

abbrev pub not_before : Option ℤ → ℤ → Bool
not_before none created_at = true
not_before (some since) created_at = not (ltb_ℤ created_at since)

abbrev pub not_after : Option ℤ → ℤ → Bool
not_after none created_at = true
not_after (some until) created_at = not (ltb_ℤ until created_at)

unfoldable pub event_matches_filter : Event → Filter → Bool
event_matches_filter event filter =
    allows (bytes_eq event.id) filter.ids
    && (allows (same_kind event.kind) filter.kinds
        && (allows (bytes_eq event.pubkey) filter.authors
            && (all (tag_allows event.tags) filter.tags
                && (not_before filter.since event.created_at
                    && not_after filter.until event.created_at))))
