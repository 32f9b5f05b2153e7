-- ===== src/Policy/Limits.antt =====
-- internal/policy/policy.go: `EnforceRateLimits`. The database is the interface `RateLimitChecker`.
pub mod Justified
use dnn_node.Base.{
  ℕ, Bool, true, false, ◌&&◌, ◌||◌, List, [], ◌∷◌, ◌++◌, Option, none, some, ltb, leb, ◌==◌,
  if◌then◌else◌, is_nil,
}
use dnn_node.Base.Bytes.{Bytes, codes, bytes_eq}
use dnn_node.Base.Int.{ℤ, pos, ltb_ℤ}
use dnn_node.Constants
use dnn_node.Nostr.{Event}

-- Each operation returns a value and an error. The database may answer differently at each call, so
-- the second call of CountEventVersions is a field of its own.
pub record RateLimitChecker (DbError : Type 0) : Type 0 where
  pub count_event_versions : Bytes → ℤ → Bytes → ℕ × Option DbError
  pub recount_event_versions : Bytes → ℤ → Bytes → ℕ × Option DbError
  pub count_d_tags_for_kind : Bytes → ℤ → ℕ × Option DbError
  pub get_oldest_event_version : Bytes → ℤ → Bytes → Bytes × Option DbError
  pub get_oldest_d_tag_for_kind : Bytes → ℤ → Bytes × Option DbError
  pub is_d_tag_referenced_by_anchor : Bytes → ℤ → Bytes → Bool × Option DbError

pub record RateLimitResult : Type 0 where
  pub events_to_delete : List Bytes
  pub d_tags_to_delete : List Bytes
  pub version_exceeded : Bool
  pub d_tag_exceeded : Bool

abbrev pub no_limits : RateLimitResult
no_limits = record {
  events_to_delete = [];
  d_tags_to_delete = [];
  version_exceeded = false;
  d_tag_exceeded = false;
}

-- The first tag `d` with a value, or the empty text.
unfoldable pub extract_d_tag : List (List Bytes) → Bytes
extract_d_tag [] = []
extract_d_tag ((key ∷ value ∷ rest) ∷ tags) =
    if bytes_eq key (codes "d") then value else extract_d_tag tags
extract_d_tag (_ ∷ tags) = extract_d_tag tags

abbrev pub delete_event : RateLimitResult → Bytes → RateLimitResult
delete_event result oldest_id = if is_nil oldest_id then result else record result {
  events_to_delete = result.events_to_delete ++ (oldest_id ∷ []);
  version_exceeded = true;
}

abbrev pub delete_d_tag : RateLimitResult → Bytes → Bool → RateLimitResult
delete_d_tag result oldest_d_tag is_referenced = if is_referenced then result else record result {
  d_tags_to_delete = result.d_tags_to_delete ++ (oldest_d_tag ∷ []);
  d_tag_exceeded = true;
}

module _ {DbError : Type 0} where
  -- `if err != nil { return result, err }`
  abbrev pub with_value :
      {A : Type 0}
      → A × Option DbError
      → RateLimitResult
      → (A → RateLimitResult × Option DbError)
      → RateLimitResult × Option DbError
  with_value (a, none) result k = k a
  with_value (a, some e) result k = (result, some e)

  module _ (db : RateLimitChecker DbError) (pubkey : Bytes) (kind : ℤ) (d_tag : Bytes) where
    -- Check 2 at the limit: the oldest d-tag goes unless an anchor refers to it.
    unfoldable pub drop_oldest_d_tag : RateLimitResult → RateLimitResult × Option DbError
    drop_oldest_d_tag result =
        with_value (db.get_oldest_d_tag_for_kind pubkey kind) result (λ oldest.
          if is_nil oldest
          then (result, none)
          else with_value (db.is_d_tag_referenced_by_anchor pubkey kind oldest) result
              (λ is_referenced. (delete_d_tag result oldest is_referenced, none)))

    -- Check 2. The error of the second count is dropped, as in the source.
    unfoldable pub check_d_tags : RateLimitResult → RateLimitResult × Option DbError
    check_d_tags result =
        if (db.recount_event_versions pubkey kind d_tag).0 == 0
        then with_value (db.count_d_tags_for_kind pubkey kind) result (λ d_tag_count.
          if leb Constants.max_d_tags_per_kind d_tag_count
          then drop_oldest_d_tag result
          else (result, none))
        else (result, none)

    -- Check 1, and check 2 behind it.
    unfoldable pub check_versions : RateLimitResult → RateLimitResult × Option DbError
    check_versions result =
        with_value (db.count_event_versions pubkey kind d_tag) result (λ version_count.
          if leb Constants.max_versions_per_d_tag version_count
          then with_value (db.get_oldest_event_version pubkey kind d_tag) result
              (λ oldest_id. check_d_tags (delete_event result oldest_id))
          else check_d_tags result)

  unfoldable pub enforce_rate_limits :
      Event → RateLimitChecker DbError → RateLimitResult × Option DbError
  enforce_rate_limits event db =
      let d_tag = extract_d_tag event.tags in
      if ltb_ℤ event.kind (pos 60600) || ltb_ℤ (pos 65600) event.kind
      then (no_limits, none)
      else if is_nil d_tag
      then (no_limits, none)
      else check_versions db event.pubkey event.kind d_tag no_limits
