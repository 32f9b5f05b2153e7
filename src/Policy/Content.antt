-- ===== src/Policy/Content.antt =====
-- internal/policy/policy.go: `ValidateMetadataContent` and `checkForBinaryData`.
pub mod Leaves
use dnn_node.Base.{
  ℕ, zero, suc, ◌+◌, ◌≡◌, refl, sym, ap, ◌∙◌, ◌↔◌, Bool, true, false, not, ◌&&◌, ◌||◌, List, [],
  ◌∷◌, ◌++◌, Option, none, some, Result, ok, err, panic, ◌>>=◌, ◌>>◌, fail_if, wrap_err, or_err,
  ltb, leb, ◌==◌, in_range, if◌then◌else◌, any, All, length,
}
use dnn_node.Base.Bytes.{Bytes, codes, bytes_eq, has_prefix, trim_prefix, contains}
use dnn_node.Nostr.{
  Event, is_kind, Json, null, bool, num, str, arr, obj, Elems, nil, cons, Props, end, prop,
  lookup_prop,
}
use dnn_node.Validation.{Runtime}

abbrev letter : ℕ → Bool
letter c = in_range b'a' b'z' c || in_range b'A' b'Z' c

abbrev alnum : ℕ → Bool
alnum c = letter c || in_range b'0' b'9' c

-- The longest prefix whose bytes pass the test: its length, and what follows.
unfoldable pub span : (ℕ → Bool) → Bytes → ℕ × Bytes
span p [] = (0, [])
span p (c ∷ s) = let (n, rest) = span p s in if p c then (suc n, rest) else (0, c ∷ s)

-- `={0,2}$`
abbrev padding : Bytes → Bool
padding s = bytes_eq s [] || (bytes_eq s (codes "=") || bytes_eq s (codes "=="))

-- `^[A-Za-z0-9+/]{100,}={0,2}$`
unfoldable pub base64_pattern : Bytes → Bool
base64_pattern s =
    let (n, rest) = span (λ c. alnum c || (c == b'+' || c == b'/')) s in leb 100 n && padding rest

-- `[a-zA-Z0-9.+-]+;base64,`
abbrev subtype : Bytes → Bool
subtype s =
    let (n, rest) = span (λ c. alnum c || (c == b'.' || (c == b'+' || c == b'-'))) s in
    ltb 0 n && has_prefix rest (codes ";base64,")

abbrev slash : Bytes → Bool
slash [] = false
slash (c ∷ s) = c == b'/' && subtype s

-- `^data:[a-zA-Z]+/[a-zA-Z0-9.+-]+;base64,`: no class has the byte that ends it.
unfoldable pub data_url_pattern : Bytes → Bool
data_url_pattern s =
    let (n, rest) = span letter (trim_prefix s (codes "data:")) in
    has_prefix s (codes "data:") && (ltb 0 n && slash rest)

abbrev pub binary_patterns : List Bytes
binary_patterns =
    (255 ∷ 216 ∷ [])
    ∷ (137 ∷ 80 ∷ 78 ∷ [])
    ∷ (71 ∷ 73 ∷ 70 ∷ [])
    ∷ (37 ∷ 80 ∷ 68 ∷ [])
    ∷ (80 ∷ 75 ∷ [])
    ∷ []

pub data BinaryError : Type 0 where
  data_url suspected_base64 binary_signature : BinaryError
  in_field : Bytes → BinaryError → BinaryError
  in_array_index : ℕ → BinaryError → BinaryError

unfoldable pub check_text : Bytes → Result BinaryError (Unit {0})
check_text v = do
  fail_if (data_url_pattern v) data_url
  fail_if (ltb 2048 (length v) && base64_pattern v) suspected_base64
  fail_if (any (contains v) binary_patterns) binary_signature

-- A map is walked in the order in which its properties stand here.
unfoldable mutual
  pub check_for_binary_data : Json → Result BinaryError (Unit {0})
  check_for_binary_data null = ok tt
  check_for_binary_data (bool b) = ok tt
  check_for_binary_data (num n) = ok tt
  check_for_binary_data (str v) = check_text v
  check_for_binary_data (arr items) = check_items 0 items
  check_for_binary_data (obj fields) = check_fields fields

  pub check_items : ℕ → Elems → Result BinaryError (Unit {0})
  check_items i nil = ok tt
  check_items i (cons item items) = do
    wrap_err (in_array_index i) (check_for_binary_data item)
    check_items (i + 1) items

  pub check_fields : Props → Result BinaryError (Unit {0})
  check_fields end = ok tt
  check_fields (prop key value fields) = do
    wrap_err (in_field key) (check_for_binary_data value)
    check_fields fields

pub data ContentError : Type 0 where
  invalid_json missing_metadata : ContentError
  prohibited_content : BinaryError → ContentError

abbrev check_content : Option Props → Result ContentError (Unit {0})
check_content none = err invalid_json
check_content (some content) = do
  metadata ← or_err (lookup_prop (codes "metadata") content) missing_metadata
  wrap_err prohibited_content (check_for_binary_data metadata)

unfoldable pub validate_metadata_content : Runtime → Event → Result ContentError (Unit {0})
validate_metadata_content go event =
    if not (is_kind 63600 event.kind) then ok tt else check_content (go.unmarshal event.content)
