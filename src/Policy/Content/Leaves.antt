-- ===== src/Policy/Content/Leaves.antt =====
-- `checkForBinaryData` looks at every text of a document, however deep it stands.
use dnn_node.Base.{
  ℕ, ◌+◌, ◌≡◌, ◌≢◌, refl, ◌<◌, ◌↔◌, true, false, List, [], ◌∷◌, ◌++◌, ok, any, All, All-append,
  length, arith,
}
use dnn_node.Base.Bytes.{Bytes, contains, contains_iff}
use dnn_node.Nostr.{Json, null, bool, num, str, arr, obj, Elems, nil, cons, Props, end, prop}
use dnn_node.Policy.Content.{
  base64_pattern, data_url_pattern, binary_patterns, check_text, check_for_binary_data, check_items,
  check_fields,
}

-- The texts of a document, the keys left out.
unfoldable mutual
  pub texts : Json → List Bytes
  texts null = []
  texts (bool b) = []
  texts (num n) = []
  texts (str v) = v ∷ []
  texts (arr items) = item_texts items
  texts (obj fields) = field_texts fields

  pub item_texts : Elems → List Bytes
  item_texts nil = []
  item_texts (cons item items) = texts item ++ item_texts items

  pub field_texts : Props → List Bytes
  field_texts end = []
  field_texts (prop key value fields) = texts value ++ field_texts fields

-- No data URL, no long base64 text, none of the five signatures.
pub record IsClean (v : Bytes) : Type 0 where
  pub no_url : data_url_pattern v ≡ false
  pub no_file : 2048 < length v → base64_pattern v ≡ false
  pub no_signature : any (contains v) binary_patterns ≡ false

check_text_iff : (v : Bytes) → (check_text v ≡ ok tt) ↔ IsClean v
unfolding check_text
check_text_iff v = (
  λ h. record { no_url = ground arith; no_file = λ l. ground arith; no_signature = ground arith },
  λ c. ground (arith, c.no_url, c.no_file, c.no_signature),
)

All-append_left {ℓ} :
    (P : Bytes → Type ℓ) (xs ys : List Bytes) → All P (xs ++ ys) → All P xs × All P ys
All-append_left P [] ys h = (tt, h)
All-append_left P (x ∷ xs) ys h = let (l, r) = All-append_left P xs ys h.1 in ((h.0, l), r)

mutual
  unfolding check_for_binary_data texts

  check_sound : (j : Json) → check_for_binary_data j ≡ ok tt → All IsClean (texts j)
  check_sound null h = tt
  check_sound (bool b) h = tt
  check_sound (num n) h = tt
  check_sound (str v) h = ((check_text_iff v).0 h, tt)
  check_sound (arr items) h = items_sound 0 items h
  check_sound (obj fields) h = fields_sound fields h

  items_sound : (i : ℕ) (js : Elems) → check_items i js ≡ ok tt → All IsClean (item_texts js)
  items_sound i nil h = tt
  items_sound i (cons item items) h =
      All-append IsClean (texts item) (item_texts items) (check_sound item (ground arith))
        (items_sound (i + 1) items (ground arith))

  fields_sound : (ps : Props) → check_fields ps ≡ ok tt → All IsClean (field_texts ps)
  fields_sound end h = tt
  fields_sound (prop key value fields) h =
      All-append IsClean (texts value) (field_texts fields) (check_sound value (ground arith))
        (fields_sound fields (ground arith))

mutual
  unfolding check_for_binary_data texts

  check_complete : (j : Json) → All IsClean (texts j) → check_for_binary_data j ≡ ok tt
  check_complete null h = refl
  check_complete (bool b) h = refl
  check_complete (num n) h = refl
  check_complete (str v) h = (check_text_iff v).1 h.0
  check_complete (arr items) h = items_complete 0 items h
  check_complete (obj fields) h = fields_complete fields h

  items_complete : (i : ℕ) (js : Elems) → All IsClean (item_texts js) → check_items i js ≡ ok tt
  items_complete i nil h = refl
  items_complete i (cons item items) h =
      let (l, r) = All-append_left IsClean (texts item) (item_texts items) h in
      rw (check_complete item l) (items_complete (i + 1) items r)

  fields_complete : (ps : Props) → All IsClean (field_texts ps) → check_fields ps ≡ ok tt
  fields_complete end h = refl
  fields_complete (prop key value fields) h =
      let (l, r) = All-append_left IsClean (texts value) (field_texts fields) h in
      rw (check_complete value l) (fields_complete fields r)

-- checkForBinaryData accepts a document exactly when each of its texts, at any depth, is no data
-- URL, no base64 text of more than 2048 bytes, and has none of the five signatures.
pub check_for_binary_data_iff :
    (j : Json) → (check_for_binary_data j ≡ ok tt) ↔ All IsClean (texts j)
check_for_binary_data_iff j = (check_sound j, check_complete j)

-- checkForBinaryData accepts no text that has the letters PK in it.
pub check_for_binary_data-letters_pk :
    (s t : Bytes) → check_for_binary_data (str (s ++ (b'P' ∷ b'K' ∷ t))) ≢ ok tt
unfolding texts
check_for_binary_data-letters_pk s t h =
    let has : contains (s ++ (b'P' ∷ b'K' ∷ t)) (b'P' ∷ b'K' ∷ []) ≡ true =
      (contains_iff _ _).1 (s, t, refl) in
    let clean = ((check_for_binary_data_iff _).0 h).0.no_signature in ground arith
