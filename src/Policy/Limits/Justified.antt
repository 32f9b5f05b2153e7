-- ===== src/Policy/Limits/Justified.antt =====
-- What `EnforceRateLimits` names for deletion, and why.
use dnn_node.Base.{
  ℕ, ◌≡◌, refl, ◌≤◌, Bool, true, false, ◌||◌, [], ◌∷◌, Option, none, some, leb, ◌==◌, leb→le,
  ==_iff, if◌then◌else◌, is_nil, All,
}
use dnn_node.Base.Bytes.{Bytes}
use dnn_node.Base.Int.{ℤ, pos, ltb_ℤ}
use dnn_node.Nostr.{Event}
use dnn_node.Policy.Limits.{
  RateLimitChecker, RateLimitResult, no_limits, with_value, delete_event, delete_d_tag,
  drop_oldest_d_tag, check_d_tags, check_versions, extract_d_tag, enforce_rate_limits,
}

module _ {DbError : Type 0} (db : RateLimitChecker DbError) (pubkey : Bytes) (kind : ℤ) where
  -- A version may go: ten or more were counted, and it is the oldest.
  abbrev pub IsSpareVersion : Bytes → Bytes → Type 0
  IsSpareVersion d_tag id =
      (n : ℕ) × (db.count_event_versions pubkey kind d_tag ≡ (n, none))
      × (10 ≤ n)
      × (db.get_oldest_event_version pubkey kind d_tag ≡ (id, none))

  -- A d-tag may go: the second count of the versions of the event's d-tag gives 0, beside an error or
  -- not, five or more d-tags were counted, it is the oldest of them, and no anchor refers to it.
  abbrev pub IsSpareDTag : Bytes → Bytes → Type 0
  IsSpareDTag d_tag old =
      ((db.recount_event_versions pubkey kind d_tag).0 ≡ 0)
      × (n : ℕ) × (db.count_d_tags_for_kind pubkey kind ≡ (n, none))
      × (5 ≤ n)
      × (db.get_oldest_d_tag_for_kind pubkey kind ≡ (old, none))
      × (db.is_d_tag_referenced_by_anchor pubkey kind old ≡ (false, none))

  pub record IsJustified (d_tag : Bytes) (r : RateLimitResult) : Type 0 where
    pub events : All (IsSpareVersion d_tag) r.events_to_delete
    pub d_tags : All (IsSpareDTag d_tag) r.d_tags_to_delete

module _ {DbError : Type 0} where
  with_value_all :
      (P : RateLimitResult → Type 0) {A : Type 0} (x : A × Option DbError) (r : RateLimitResult)
      (k : A → RateLimitResult × Option DbError)
      → P r
      → ((a : A) → x ≡ (a, none) → P (k a).0)
      → P (with_value x r k).0
  with_value_all P (a, none) r k h f = f a refl
  with_value_all P (a, some e) r k h f = h

  if_all :
      (P : RateLimitResult → Type 0) (b : Bool) (x y : RateLimitResult × Option DbError)
      → (b ≡ true → P x.0)
      → (b ≡ false → P y.0)
      → P (if b then x else y).0
  if_all P true x y f g = f refl
  if_all P false x y f g = g refl

  module _ (db : RateLimitChecker DbError) (pubkey : Bytes) (kind : ℤ) (d_tag : Bytes) where
    none_named : IsJustified db pubkey kind d_tag no_limits
    none_named = record { events = tt; d_tags = tt }

    delete_event-IsJustified :
        (id : Bytes)
        → IsSpareVersion db pubkey kind d_tag id
        → IsJustified db pubkey kind d_tag (delete_event no_limits id)
    delete_event-IsJustified [] h = record { events = tt; d_tags = tt }
    delete_event-IsJustified (c ∷ id) h = record { events = (h, tt); d_tags = tt }

    drop_oldest_d_tag-IsJustified :
        (r : RateLimitResult)
        → IsJustified db pubkey kind d_tag r
        → r.d_tags_to_delete ≡ []
        → (db.recount_event_versions pubkey kind d_tag).0 ≡ 0
        → (n : ℕ) → db.count_d_tags_for_kind pubkey kind ≡ (n, none)
        → 5 ≤ n
        → IsJustified db pubkey kind d_tag (drop_oldest_d_tag db pubkey kind d_tag r).0
    unfolding drop_oldest_d_tag
    drop_oldest_d_tag-IsJustified r h e new n counted full =
        with_value_all (IsJustified db pubkey kind d_tag) (db.get_oldest_d_tag_for_kind pubkey kind)
          r _ h
          (λ old get.
            if_all (IsJustified db pubkey kind d_tag) (is_nil old) _ _ (λ _. h)
              (λ _.
                with_value_all (IsJustified db pubkey kind d_tag)
                  (db.is_d_tag_referenced_by_anchor pubkey kind old) r _ h
                  (λ referenced asked. referenced_cases referenced old get asked)))
      where
        referenced_cases :
            (referenced : Bool) (old : Bytes)
            → db.get_oldest_d_tag_for_kind pubkey kind ≡ (old, none)
            → db.is_d_tag_referenced_by_anchor pubkey kind old ≡ (referenced, none)
            → IsJustified db pubkey kind d_tag (delete_d_tag r old referenced)
        referenced_cases true old get asked = h
        referenced_cases false old get asked = record {
          events = h.events;
          d_tags = rw (e) ((new, n, counted, full, get, asked), tt);
        }

    check_d_tags-IsJustified :
        (r : RateLimitResult)
        → IsJustified db pubkey kind d_tag r
        → r.d_tags_to_delete ≡ []
        → IsJustified db pubkey kind d_tag (check_d_tags db pubkey kind d_tag r).0
    unfolding check_d_tags
    check_d_tags-IsJustified r h e =
        let P = IsJustified db pubkey kind d_tag in
        if_all P ((db.recount_event_versions pubkey kind d_tag).0 == 0) _ _
          (λ new. with_value_all P (db.count_d_tags_for_kind pubkey kind) r _ h (λ n counted.
            if_all P (leb 5 n) _ _
              (λ full.
                drop_oldest_d_tag-IsJustified r h e ((==_iff _ 0).0 new) n counted
                  (leb→le 5 n full))
              (λ _. h)))
          (λ _. h)

    check_versions-IsJustified :
        IsJustified db pubkey kind d_tag (check_versions db pubkey kind d_tag no_limits).0
    unfolding check_versions
    check_versions-IsJustified =
        let P = IsJustified db pubkey kind d_tag in
        with_value_all P (db.count_event_versions pubkey kind d_tag) no_limits _
          (record { events = tt; d_tags = tt })
          (λ n counted.
            if_all P (leb 10 n) _ _
              (λ full.
                with_value_all P (db.get_oldest_event_version pubkey kind d_tag) no_limits _
                  (record { events = tt; d_tags = tt })
                  (λ id get.
                    check_d_tags-IsJustified _
                      (delete_event-IsJustified id (n, counted, leb→le 10 n full, get))
                      (no_d_tags id)))
              (λ _. check_d_tags-IsJustified no_limits (record { events = tt; d_tags = tt }) refl))
      where
        no_d_tags : (id : Bytes) → (delete_event no_limits id).d_tags_to_delete ≡ []
        no_d_tags [] = refl
        no_d_tags (c ∷ id) = refl

  -- Whatever the database answers, errors included, EnforceRateLimits names a version for deletion
  -- only if it is the oldest and ten or more were counted, and a d-tag only if the second count of
  -- the versions of the event's d-tag gives 0, beside an error or not, five or more d-tags were
  -- counted, it is the oldest of them, and no anchor refers to it.
  pub enforce_rate_limits-IsJustified :
      (event : Event) (db : RateLimitChecker DbError)
      → IsJustified db event.pubkey event.kind
          (extract_d_tag event.tags)
          (enforce_rate_limits event db).0
  unfolding enforce_rate_limits
  enforce_rate_limits-IsJustified event db =
      let d_tag = extract_d_tag event.tags in
      let P = IsJustified db event.pubkey event.kind d_tag in
      let checked = check_versions db event.pubkey event.kind d_tag no_limits in
      if_all P (ltb_ℤ event.kind (pos 60600) || ltb_ℤ (pos 65600) event.kind) (no_limits, none)
        (if is_nil d_tag then (no_limits, none) else checked)
        (λ _. none_named db event.pubkey event.kind d_tag)
        (λ _.
          if_all P (is_nil d_tag) (no_limits, none) checked
            (λ _. none_named db event.pubkey event.kind d_tag)
            (λ _. check_versions-IsJustified db event.pubkey event.kind d_tag))
