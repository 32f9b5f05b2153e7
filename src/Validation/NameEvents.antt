-- ===== src/Validation/NameEvents.antt =====
-- `ValidateNameEvent`: the events it accepts, and what the comparison of raw names lets through.
use dnn_node.Base.{
  ◌≡◌, refl, sym, ◌≢◌, ◌↔◌, true, false, List, [], ◌∷◌, ok, arith, any, is_nil, All,
}
use dnn_node.Base.Bytes.{Bytes, codes, bytes_eq}
use dnn_node.Base.Int.{pos}
use dnn_node.Nostr.{Event, is_kind, has_dnn_tag}
use dnn_node.Validation.{
  Runtime, to_lower, validate_name, NameTags, no_name_tags, scan_name_tags, validate_other_names,
  check_duplicates, check_name_tags, validate_name_event,
}
use dnn_node.Validation.Tags.{values, last_value, scan_name_tags_lem}
use dnn_node.Validation.Names.{IsName, validate_name_iff, any-bytes_eq_sound, any-bytes_eq_complete}

abbrev pub Distinct : List Bytes → Type 0
Distinct [] = Unit {0}
Distinct (x ∷ xs) = All (λ y. x ≢ y) xs × Distinct xs

map_All {ℓ κ} :
    {P : Bytes → Type ℓ} {Q : Bytes → Type κ}
    → ((n : Bytes) → P n → Q n)
    → (ns : List Bytes) → All P ns
    → All Q ns
map_All f [] h = tt
map_All f (n ∷ ns) h = (f n h.0, map_All f ns h.1)

zip_All :
    (name : Bytes) (seen ns : List Bytes)
    → All (λ n. name ≢ n) ns
    → All (λ n. All (λ x. n ≢ x) seen) ns
    → All (λ n. All (λ x. n ≢ x) (name ∷ seen)) ns
zip_All name seen [] h k = tt
zip_All name seen (n ∷ ns) h k = ((λ e. h.0 (sym e), k.0), zip_All name seen ns h.1 k.1)

-- An accepted name event: what its comments ask of it.
pub record IsNameEvent (go : Runtime) (event : Event) : Type 0 where
  pub kind : is_kind 61600 event.kind ≡ true
  pub marked : has_dnn_tag event.tags ≡ true
  pub d_tag : last_value (codes "d") event.tags [] ≢ []
  pub names :
      All
        (λ n. IsName (to_lower go n))
        (last_value (codes "n") event.tags [] ∷ values (codes "o") event.tags)
  pub distinct : Distinct (last_value (codes "n") event.tags [] ∷ values (codes "o") event.tags)

validate_other_names_iff :
    (go : Runtime) (names : List Bytes)
    → (validate_other_names go names ≡ ok tt) ↔ All (λ n. IsName (to_lower go n)) names
unfolding validate_other_names
validate_other_names_iff go [] = (λ h. tt, λ h. refl)
validate_other_names_iff go (name ∷ names) =
    let (sound, complete) = validate_other_names_iff go names in
    let (name_sound, name_complete) = validate_name_iff go name in
    (
      λ h. (name_sound (ground arith), sound (ground arith)),
      λ h. rw (name_complete h.0) (complete h.1),
    )

check_duplicates_sound :
    (seen names : List Bytes)
    → check_duplicates seen names ≡ ok tt
    → All (λ n. All (λ x. n ≢ x) seen) names × Distinct names
unfolding check_duplicates
check_duplicates_sound seen [] h = (tt, tt)
check_duplicates_sound seen (name ∷ names) h =
    let fresh : any (bytes_eq name) seen ≡ false = ground arith in
    let (apart, distinct) = check_duplicates_sound (name ∷ seen) names (ground arith) in
    (
      (any-bytes_eq_sound name seen fresh, map_All (λ n p. p.1) names apart),
      (map_All (λ n p e. p.0 (sym e)) names apart, distinct),
    )

check_duplicates_complete :
    (seen names : List Bytes)
    → All (λ n. All (λ x. n ≢ x) seen) names
    → Distinct names
    → check_duplicates seen names ≡ ok tt
unfolding check_duplicates
check_duplicates_complete seen [] h k = refl
check_duplicates_complete seen (name ∷ names) h k =
    rw (any-bytes_eq_complete name seen h.0)
      (check_duplicates_complete (name ∷ seen) names (zip_All name seen names k.0 h.1) k.1)

-- The tests of the handler behind its loop, in order.
abbrev Passes : Runtime → NameTags → Type 0
Passes go t =
    (t.has_dnn_tag ≡ true)
    × (is_nil t.d_tag ≡ false)
    × (is_nil t.primary_name ≡ false)
    × (validate_name go t.primary_name ≡ ok tt)
    × (validate_other_names go t.other_names ≡ ok tt)
    × (check_duplicates (t.primary_name ∷ []) t.other_names ≡ ok tt)

check_name_tags_iff : (go : Runtime) (t : NameTags) → (check_name_tags go t ≡ ok tt) ↔ Passes go t
unfolding check_name_tags
check_name_tags_iff go t = (λ h. ground arith, λ h. ground arith)

is_nil_iff : (s : Bytes) → (is_nil s ≡ false) ↔ (s ≢ [])
is_nil_iff [] = (λ h. absurd (cc), λ h. absurd (h refl))
is_nil_iff (c ∷ s) = (λ h k. cc k, λ h. refl)

name_not_empty : (go : Runtime) (p : Bytes) → IsName (to_lower go p) → is_nil p ≡ false
unfolding to_lower
name_not_empty go [] v = let e = v.parts in absurd (cc)
name_not_empty go (c ∷ p) v = refl

abbrev tags_of : Event → NameTags
tags_of event = record {
  has_dnn_tag = has_dnn_tag event.tags;
  d_tag = last_value (codes "d") event.tags [];
  primary_name = last_value (codes "n") event.tags [];
  other_names = values (codes "o") event.tags;
}

scanned : (event : Event) → scan_name_tags event.tags no_name_tags ≡ tags_of event
unfolding no_name_tags
scanned event = scan_name_tags_lem event.tags no_name_tags

event_passes :
    (go : Runtime) (event : Event)
    → (validate_name_event go event ≡ ok tt)
      ↔ ((is_kind 61600 event.kind ≡ true) × (check_name_tags go (tags_of event) ≡ ok tt))
unfolding validate_name_event
event_passes go event = rw (scanned event) (λ h. (ground arith, ground arith), λ h. ground arith)

Passes-IsNameEvent :
    (go : Runtime) (event : Event)
    → is_kind 61600 event.kind ≡ true
    → Passes go (tags_of event)
    → IsNameEvent go event
Passes-IsNameEvent go event k (dnn, d, n, primary, others, duplicates) =
    let (apart, distinct) = check_duplicates_sound _ _ duplicates in
    record {
      kind = k;
      marked = dnn;
      d_tag = (is_nil_iff _).0 d;
      names = ((validate_name_iff go _).0 primary, (validate_other_names_iff go _).0 others);
      distinct = (map_All (λ m p e. p.0 (sym e)) _ apart, distinct);
    }

IsNameEvent-Passes :
    (go : Runtime) (event : Event) → IsNameEvent go event → Passes go (tags_of event)
IsNameEvent-Passes go event v = (
  v.marked,
  (is_nil_iff _).1 v.d_tag,
  name_not_empty go _ v.names.0,
  (validate_name_iff go _).1 v.names.0,
  (validate_other_names_iff go _).1 v.names.1,
  check_duplicates_complete _ _ (map_All (λ m p. (λ e. p (sym e), tt)) _ v.distinct.0) v.distinct.1,
)

-- ValidateNameEvent accepts exactly the events of kind 61600 with the DNN mark, a d tag that is not
-- empty, and valid names that differ as texts: the name of the last n tag and that of every o tag.
pub validate_name_event_iff :
    (go : Runtime) (event : Event) → (validate_name_event go event ≡ ok tt) ↔ IsNameEvent go event
validate_name_event_iff go event =
    let (sound, complete) = event_passes go event in
    let (tags_sound, tags_complete) = check_name_tags_iff go (tags_of event) in
    (
      λ h. let (k, c) = sound h in Passes-IsNameEvent go event k (tags_sound c),
      λ v. complete (v.kind, tags_complete (IsNameEvent-Passes go event v)),
    )

abbrev pub case_variants : Bytes → Bytes → Bytes → Event
case_variants d primary other = record {
  id = [];
  pubkey = [];
  created_at = pos 0;
  kind = pos 61600;
  tags =
      (codes "t" ∷ codes "DNN" ∷ [])
      ∷ (codes "d" ∷ d ∷ [])
      ∷ (codes "n" ∷ primary ∷ [])
      ∷ (codes "o" ∷ other ∷ [])
      ∷ [];
  content = [];
}

-- ValidateNameEvent accepts an event whose two names are different texts with the same small-letter
-- form, a valid name.
pub validate_name_event-case_variants :
    (go : Runtime) (d primary other : Bytes)
    → d ≢ []
    → IsName (to_lower go primary)
    → to_lower go primary ≡ to_lower go other
    → primary ≢ other
    → validate_name_event go (case_variants d primary other) ≡ ok tt
validate_name_event-case_variants go d primary other full v same differ =
    (validate_name_event_iff go (case_variants d primary other)).1 (record {
      kind = refl;
      marked = refl;
      d_tag = full;
      names = (v, ((rw same at v), tt));
      distinct = ((differ, tt), (tt, tt));
    })
