-- ===== src/Policy/References/Anchors.antt =====
-- What an anchor event has that `ValidateTagReferences` accepts.
use dnn_node.Base.{
  ◌≡◌, ◌≢◌, refl, sym, ap, ◌∙◌, Bool, true, false, ◌||◌, List, [], ◌∷◌, ok, ◌>>=◌, bind_ok, All,
  is_nil, length, Bool-cases, inl, inr, arith,
}
use dnn_node.Base.Bytes.{Bytes, codes, bytes_eq, bytes_eq_sound, has_prefix}
use dnn_node.Nostr.{Event, is_kind}
use dnn_node.Policy.References.{
  SeenTags, no_tags, check_tag, check_naddr, mark_tag, scan_tags, check_seen,
  validate_tag_references,
}
use dnn_node.Validation.Tags.{values}

-- The tag passed the tests of the loop.
abbrev Checked : (Bytes → Bool) → List Bytes → Type 0
Checked decodes (key ∷ value ∷ rest) = check_tag decodes key value ≡ ok tt
Checked decodes _ = Unit

scan_tags_sound :
    (decodes : Bytes → Bool) (tags : List (List Bytes)) (s t : SeenTags)
    → scan_tags decodes tags s ≡ ok t
    → All (Checked decodes) tags
unfolding scan_tags
scan_tags_sound decodes [] s t h = tt
scan_tags_sound decodes ([] ∷ tags) s t h = (tt, scan_tags_sound decodes tags s t h)
scan_tags_sound decodes ((key ∷ []) ∷ tags) s t h = (tt, scan_tags_sound decodes tags s t h)
scan_tags_sound decodes ((key ∷ value ∷ rest) ∷ tags) s t h =
    let (_, a, b) = bind_ok (check_tag decodes key value) _ t h in
    (a, scan_tags_sound decodes tags (mark_tag key s) t b)

-- One flag at a time.
module _ (k : Bytes) (flag : SeenTags → Bool)
    (marks : (key : Bytes) (s : SeenTags)
      → flag (mark_tag key s) ≡ (flag s || bytes_eq key k)) where
  scan_tags-flag :
      (decodes : Bytes → Bool) (tags : List (List Bytes)) (s t : SeenTags)
      → scan_tags decodes tags s ≡ ok t
      → flag t ≡ true
      → flag s ≡ false
      → values k tags ≢ []
  unfolding scan_tags
  scan_tags-flag decodes [] s t h on off =
      let same : s ≡ t = cc in absurd (flag_same s t same on off)
    where
      flag_same : (s t : SeenTags) → s ≡ t → flag t ≡ true → flag s ≢ false
      flag_same s t e on off = let f = ap flag e in cc
  scan_tags-flag decodes ([] ∷ tags) s t h on off = scan_tags-flag decodes tags s t h on off
  scan_tags-flag decodes ((key ∷ []) ∷ tags) s t h on off = scan_tags-flag decodes tags s t h on off
  scan_tags-flag decodes ((key ∷ value ∷ rest) ∷ tags) s t h on off =
      let (_, a, b) = bind_ok (check_tag decodes key value) _ t h in
      elim (Bool-cases (bytes_eq key k)) [
        | inl e ↦ rw (e) (λ z. cc)
        | inr e ↦
            rw (e)
              (scan_tags-flag decodes tags (mark_tag key s) t b on (marks key s ∙ rw (off, e) refl))
      ]

values-All :
    (decodes : Bytes → Bool) (k : Bytes) (P : Bytes → Type 0) (tags : List (List Bytes))
    → ((value : Bytes) → check_tag decodes k value ≡ ok tt → P value)
    → All (Checked decodes) tags
    → All P (values k tags)
values-All decodes k P [] f h = tt
values-All decodes k P ([] ∷ tags) f h = values-All decodes k P tags f h.1
values-All decodes k P ((key ∷ []) ∷ tags) f h = values-All decodes k P tags f h.1
values-All decodes k P ((key ∷ value ∷ rest) ∷ tags) f h = elim (Bool-cases (bytes_eq key k)) [
  | inl e ↦
      let same = ap (λ x. check_tag decodes x value) (sym (bytes_eq_sound key k e)) in
      rw (e) (f value (same ∙ h.0), values-All decodes k P tags f h.1)
  | inr e ↦ rw (e) (values-All decodes k P tags f h.1)
]

-- There is a value, and each one has the property.
abbrev pub EachOf : (Bytes → Type 0) → List Bytes → Type 0
EachOf P xs = (xs ≢ []) × All P xs

abbrev pub IsNaddr : (Bytes → Bool) → Bytes → Type 0
IsNaddr decodes value = (has_prefix value (codes "naddr1") ≡ true) × (decodes value ≡ true)

-- The five tags of an anchor, and what their values are.
pub record IsAnchor (decodes : Bytes → Bool) (tags : List (List Bytes)) : Type 0 where
  pub d : EachOf (λ v. v ≢ []) (values (codes "d") tags)
  pub names : EachOf (IsNaddr decodes) (values (codes "n") tags)
  pub connection : EachOf (IsNaddr decodes) (values (codes "c") tags)
  pub metadata : EachOf (IsNaddr decodes) (values (codes "m") tags)
  pub transaction : EachOf (λ v. length v ≡ 64) (values (codes "x") tags)

filled : (v : Bytes) → is_nil v ≡ false → v ≢ []
filled [] h e = cc
filled (c ∷ v) h e = cc

check_d : (decodes : Bytes → Bool) (v : Bytes) → check_tag decodes (codes "d") v ≡ ok tt → v ≢ []
unfolding check_tag
check_d decodes v h = filled v (ground arith)

naddr_sound :
    (decodes : Bytes → Bool) (key v : Bytes) → check_naddr decodes key v ≡ ok tt → IsNaddr decodes v
naddr_sound decodes key v h = (ground arith, ground arith)

check_x :
    (decodes : Bytes → Bool) (v : Bytes) → check_tag decodes (codes "x") v ≡ ok tt → length v ≡ 64
unfolding check_tag
check_x decodes v h = ground arith

seen_sound :
    (s : SeenTags)
    → check_seen s ≡ ok tt
    → (s.has_d ≡ true)
      × (s.has_names ≡ true)
      × (s.has_connection ≡ true)
      × (s.has_metadata ≡ true)
      × (s.has_transaction ≡ true)
seen_sound s h = ground arith

check_ncm :
    (decodes : Bytes → Bool) (v : Bytes)
    → ((check_tag decodes (codes "n") v ≡ ok tt) → IsNaddr decodes v)
      × ((check_tag decodes (codes "c") v ≡ ok tt) → IsNaddr decodes v)
      × ((check_tag decodes (codes "m") v ≡ ok tt) → IsNaddr decodes v)
unfolding check_tag
check_ncm decodes v = (
  naddr_sound decodes (codes "n") v,
  naddr_sound decodes (codes "c") v,
  naddr_sound decodes (codes "m") v,
)

-- An event of kind 60600 that ValidateTagReferences accepts has a d tag, and none of its d values
-- is empty; it has n, c and m tags, whose values all begin with naddr1 and decode; and it has an x
-- tag, and each x value has 64 bytes.
pub validate_tag_references-IsAnchor :
    (decodes : Bytes → Bool) (event : Event)
    → is_kind 60600 event.kind ≡ true
    → validate_tag_references decodes event ≡ ok tt
    → IsAnchor decodes event.tags
unfolding validate_tag_references
validate_tag_references-IsAnchor decodes event kind h =
    let tags = event.tags in
    let scanned : scan_tags decodes tags no_tags >>= check_seen ≡ ok tt = ground (arith, kind, h) in
    let (s, found, seen) = bind_ok (scan_tags decodes tags no_tags) check_seen tt scanned in
    let checked = scan_tags_sound decodes tags no_tags s found in
    let (d, n, c, m, x) = seen_sound s seen in
    record {
      d = (
        scan_tags-flag (codes "d") (λ s. s.has_d) (λ key s. refl) decodes tags no_tags s found d
            refl,
        values-All decodes (codes "d") _ tags (check_d decodes) checked,
      );
      names = (
        scan_tags-flag (codes "n") (λ s. s.has_names) (λ key s. refl) decodes tags no_tags s found n
            refl,
        values-All decodes (codes "n") _ tags (λ v. (check_ncm decodes v).0) checked,
      );
      connection = (
        scan_tags-flag (codes "c") (λ s. s.has_connection) (λ key s. refl) decodes tags no_tags s
            found c refl,
        values-All decodes (codes "c") _ tags (λ v. (check_ncm decodes v).1) checked,
      );
      metadata = (
        scan_tags-flag (codes "m") (λ s. s.has_metadata) (λ key s. refl) decodes tags no_tags s
            found m refl,
        values-All decodes (codes "m") _ tags (λ v. (check_ncm decodes v).2) checked,
      );
      transaction = (
        scan_tags-flag (codes "x") (λ s. s.has_transaction) (λ key s. refl) decodes tags no_tags s
            found x refl,
        values-All decodes (codes "x") _ tags (check_x decodes) checked,
      );
    }
