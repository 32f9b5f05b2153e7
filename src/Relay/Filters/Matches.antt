-- ===== src/Relay/Filters/Matches.antt =====
-- The events that a filter lets through.
use dnn_node.Base.{
  ◌≡◌, ◌≢◌, refl, sym, ap, ◌↔◌, Bool, true, false, not, ◌&&◌, List, [], ◌∷◌, ◌++◌, Option, none,
  some, ==_iff, any, all, All, Bool-cases, inl, inr, arith,
}
use dnn_node.Base.Bytes.{Bytes, bytes_eq, bytes_eq_iff, bytes_eq_refl}
use dnn_node.Base.Int.{ℤ, pos, negsuc, ltb_ℤ}
use dnn_node.Nostr.{Event}
use dnn_node.Relay.Filters.{
  Filter, same_kind, allows, tag_found, tag_allows, not_before, not_after, event_matches_filter,
}

module _ {A : Type 0} where
  abbrev pub Among : A → List A → Type 0
  Among x xs = (before : List A) × (after : List A) × (xs ≡ before ++ (x ∷ after))

  any_sound : (p : A → Bool) (xs : List A) → any p xs ≡ true → (x : A) × Among x xs × (p x ≡ true)
  any_sound p [] h = absurd (cc)
  any_sound p (x ∷ xs) h = elim (Bool-cases (p x)) [
    | inl k ↦ (x, ([], xs, refl), k)
    | inr k ↦
        let (y, (before, after, e), l) = any_sound p xs (ground arith) in
        (y, (x ∷ before, after, ap (◌∷◌ x) e), l)
  ]

  any_append :
      (p : A → Bool) (before after : List A) (x : A)
      → p x ≡ true
      → any p (before ++ (x ∷ after)) ≡ true
  any_append p [] after x h = ground arith
  any_append p (y ∷ before) after x h = let rest = any_append p before after x h in ground arith

  any_complete : (p : A → Bool) (xs : List A) (x : A) → Among x xs → p x ≡ true → any p xs ≡ true
  any_complete p xs x (before, after, e) h = rw (e) (any_append p before after x h)

  allows_iff :
      (p : A → Bool) (x : A) (xs : List A)
      → ((y : A) → (p y ≡ true) ↔ (x ≡ y))
      → (allows p xs ≡ true) ↔ (xs ≢ [] → Among x xs)
  allows_iff p x [] same = (λ h e. absurd (e refl), λ h. refl)
  allows_iff p x (y ∷ ys) same = (
    λ h n. let (z, among, k) = any_sound p (y ∷ ys) h in rw ((same z).0 k) among,
    λ h. any_complete p (y ∷ ys) x (h (λ e. cc)) ((same x).1 refl),
  )

same_kind_iff : (k l : ℤ) → (same_kind k l ≡ true) ↔ (k ≡ l)
same_kind_iff (pos m) (pos n) = (λ h. ap pos ((==_iff m n).0 h), λ h. (==_iff m n).1 cc)
same_kind_iff (pos m) (negsuc n) = (λ h. absurd (cc), λ h. absurd (cc))
same_kind_iff (negsuc m) (pos n) = (λ h. absurd (cc), λ h. absurd (cc))
same_kind_iff (negsuc m) (negsuc n) = (λ h. ap negsuc ((==_iff m n).0 h), λ h. (==_iff m n).1 cc)

-- Some tag of the event has the name, and one of the values where the filter gives any.
abbrev pub HasTag : Event → Bytes × List Bytes → Type 0
HasTag event (tag_name, tag_values) =
    tag_values ≢ []
    → (value : Bytes) × (rest : List Bytes) × Among (tag_name ∷ value ∷ rest) event.tags
      × Among value tag_values

-- Each list that the filter gives has the event's value, and the time is within its bounds.
pub record IsMatch (event : Event) (filter : Filter) : Type 0 where
  pub ids : filter.ids ≢ [] → Among event.id filter.ids
  pub kinds : filter.kinds ≢ [] → Among event.kind filter.kinds
  pub authors : filter.authors ≢ [] → Among event.pubkey filter.authors
  pub tags : All (HasTag event) filter.tags
  pub since : (t : ℤ) → filter.since ≡ some t → ltb_ℤ event.created_at t ≡ false
  pub until : (t : ℤ) → filter.until ≡ some t → ltb_ℤ t event.created_at ≡ false

tag_found_sound :
    (tag_name : Bytes) (tag_values tag : List Bytes)
    → tag_found tag_name tag_values tag ≡ true
    → (value : Bytes) × (rest : List Bytes) × (tag ≡ tag_name ∷ value ∷ rest)
      × Among value tag_values
tag_found_sound tag_name tag_values [] h = absurd (cc)
tag_found_sound tag_name tag_values (key ∷ []) h = absurd (cc)
tag_found_sound tag_name tag_values (key ∷ value ∷ rest) h =
    let (z, among, k) = any_sound (bytes_eq value) tag_values (ground arith) in
    let name = (bytes_eq_iff key tag_name).0 (ground arith) in
    (value, rest, ap (λ n. n ∷ value ∷ rest) name, rw ((bytes_eq_iff value z).0 k) among)

tag_found_complete :
    (tag_name value : Bytes) (rest tag_values : List Bytes)
    → Among value tag_values
    → tag_found tag_name tag_values (tag_name ∷ value ∷ rest) ≡ true
tag_found_complete tag_name value rest tag_values among =
    rw
      (
        bytes_eq_refl tag_name,
        any_complete (bytes_eq value) tag_values value among (bytes_eq_refl value),
      )
      refl

tag_allows_iff :
    (event : Event) (wanted : Bytes × List Bytes)
    → (tag_allows event.tags wanted ≡ true) ↔ HasTag event wanted
tag_allows_iff event (tag_name, []) = (λ h n. absurd (n refl), λ h. refl)
tag_allows_iff event (tag_name, v ∷ vs) = (
  λ h n.
      let (tag, among, k) = any_sound (tag_found tag_name (v ∷ vs)) event.tags h in
      let (value, rest, e, here) = tag_found_sound tag_name (v ∷ vs) tag k in
      (value, rest, rw (sym e) among, here),
  λ h.
      let (value, rest, among, here) = h (λ e. cc) in
      any_complete (tag_found tag_name (v ∷ vs)) event.tags (tag_name ∷ value ∷ rest) among
        (tag_found_complete tag_name value rest (v ∷ vs) here),
)

tags_iff :
    (event : Event) (wanted : List (Bytes × List Bytes))
    → (all (tag_allows event.tags) wanted ≡ true) ↔ All (HasTag event) wanted
tags_iff event [] = (λ h. tt, λ h. refl)
tags_iff event (w ∷ ws) =
    let (sound, complete) = tags_iff event ws in
    let (first, last) = tag_allows_iff event w in
    (λ h. (first (ground arith), sound (ground arith)), λ h. rw (last h.0) (complete h.1))

not-false : (b : Bool) → (not b ≡ true) ↔ (b ≡ false)
not-false true = (λ h. absurd (cc), λ h. absurd (cc))
not-false false = (λ h. refl, λ h. refl)

since_iff :
    (since : Option ℤ) (created_at : ℤ)
    → (not_before since created_at ≡ true) ↔ ((t : ℤ) → since ≡ some t → ltb_ℤ created_at t ≡ false)
since_iff none created_at = (λ h t e. absurd (cc), λ h. refl)
since_iff (some s) created_at = (
  λ h t e. let same : s ≡ t = cc in rw (sym same) ((not-false _).0 h),
  λ h. (not-false _).1 (h s refl),
)

until_iff :
    (until : Option ℤ) (created_at : ℤ)
    → (not_after until created_at ≡ true) ↔ ((t : ℤ) → until ≡ some t → ltb_ℤ t created_at ≡ false)
until_iff none created_at = (λ h t e. absurd (cc), λ h. refl)
until_iff (some s) created_at = (
  λ h t e. let same : s ≡ t = cc in rw (sym same) ((not-false _).0 h),
  λ h. (not-false _).1 (h s refl),
)

and_cases : (a b : Bool) → a && b ≡ true → (a ≡ true) × (b ≡ true)
and_cases true b h = (refl, h)
and_cases false b h = absurd (cc)

IsMatch-sound :
    (event : Event) (filter : Filter)
    → event_matches_filter event filter ≡ true
    → IsMatch event filter
unfolding event_matches_filter
IsMatch-sound event filter h =
    let (a, h1) = and_cases (allows (bytes_eq event.id) filter.ids) _ h in
    let (b, h2) = and_cases (allows (same_kind event.kind) filter.kinds) _ h1 in
    let (c, h3) = and_cases (allows (bytes_eq event.pubkey) filter.authors) _ h2 in
    let (d, h4) = and_cases (all (tag_allows event.tags) filter.tags) _ h3 in
    let (e, f) = and_cases (not_before filter.since event.created_at) _ h4 in
    record {
      ids = (allows_iff _ event.id filter.ids (bytes_eq_iff event.id)).0 a;
      kinds = (allows_iff _ event.kind filter.kinds (same_kind_iff event.kind)).0 b;
      authors = (allows_iff _ event.pubkey filter.authors (bytes_eq_iff event.pubkey)).0 c;
      tags = (tags_iff event filter.tags).0 d;
      since = (since_iff filter.since event.created_at).0 e;
      until = (until_iff filter.until event.created_at).0 f;
    }

IsMatch-complete :
    (event : Event) (filter : Filter)
    → IsMatch event filter
    → event_matches_filter event filter ≡ true
unfolding event_matches_filter
IsMatch-complete event filter v =
    rw
      (
        (allows_iff _ event.id filter.ids (bytes_eq_iff event.id)).1 v.ids,
        (allows_iff _ event.kind filter.kinds (same_kind_iff event.kind)).1 v.kinds,
        (allows_iff _ event.pubkey filter.authors (bytes_eq_iff event.pubkey)).1 v.authors,
        (tags_iff event filter.tags).1 v.tags,
        (since_iff filter.since event.created_at).1 v.since,
        (until_iff filter.until event.created_at).1 v.until,
      )
      refl

-- eventMatchesFilter lets an event through exactly when each list of ids, kinds and authors that
-- the filter gives has that of the event, for each name with values the event has a tag with that
-- name and one of the values, and the event is not older than since and not newer than until.
pub event_matches_filter_iff :
    (event : Event) (filter : Filter)
    → (event_matches_filter event filter ≡ true) ↔ IsMatch event filter
event_matches_filter_iff event filter = (IsMatch-sound event filter, IsMatch-complete event filter)
