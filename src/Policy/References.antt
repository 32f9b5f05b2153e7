-- ===== src/Policy/References.antt =====
-- internal/policy/policy.go: `ValidateTagReferences`. `nip19.Decode` of go-nostr is a parameter.
pub mod Anchors
use dnn_node.Base.{
  ℕ, Bool, false, not, ◌||◌, List, [], ◌∷◌, Result, ok, ◌>>=◌, ◌>>◌, fail_if, ◌==◌, if◌then◌else◌,
  is_nil, length,
}
use dnn_node.Base.Bytes.{Bytes, codes, bytes_eq, has_prefix}
use dnn_node.Nostr.{Event, is_kind}

pub data ReferenceError : Type 0 where
  empty_value not_naddr invalid_naddr missing_tag : Bytes → ReferenceError
  invalid_transaction_id_length : ℕ → ReferenceError

pub record SeenTags : Type 0 where
  pub has_d : Bool
  pub has_names : Bool
  pub has_connection : Bool
  pub has_metadata : Bool
  pub has_transaction : Bool

abbrev pub no_tags : SeenTags
no_tags = record {
  has_d = false;
  has_names = false;
  has_connection = false;
  has_metadata = false;
  has_transaction = false;
}

-- The three tests of the cases `n`, `c` and `m`.
abbrev pub check_naddr : (Bytes → Bool) → Bytes → Bytes → Result ReferenceError (Unit {0})
check_naddr decodes key value = do
  fail_if (is_nil value) (empty_value key)
  fail_if (not (has_prefix value (codes "naddr1"))) (not_naddr key)
  fail_if (not (decodes value)) (invalid_naddr key)

abbrev pub check_tx_id : Bytes → Bytes → Result ReferenceError (Unit {0})
check_tx_id key value = do
  fail_if (is_nil value) (empty_value key)
  fail_if (not (length value == 64)) (invalid_transaction_id_length (length value))

-- The `switch` of the loop: a test, and a flag.
unfoldable pub check_tag : (Bytes → Bool) → Bytes → Bytes → Result ReferenceError (Unit {0})
check_tag decodes key value =
    if bytes_eq key (codes "d")
    then fail_if (is_nil value) (empty_value key)
    else if bytes_eq key (codes "n") || (bytes_eq key (codes "c") || bytes_eq key (codes "m"))
    then check_naddr decodes key value
    else if bytes_eq key (codes "x")
    then check_tx_id key value
    else ok tt

abbrev pub mark_tag : Bytes → SeenTags → SeenTags
mark_tag key s = record {
  has_d = s.has_d || bytes_eq key (codes "d");
  has_names = s.has_names || bytes_eq key (codes "n");
  has_connection = s.has_connection || bytes_eq key (codes "c");
  has_metadata = s.has_metadata || bytes_eq key (codes "m");
  has_transaction = s.has_transaction || bytes_eq key (codes "x");
}

unfoldable pub scan_tags :
    (Bytes → Bool) → List (List Bytes) → SeenTags → Result ReferenceError SeenTags
scan_tags decodes [] s = ok s
scan_tags decodes ((key ∷ value ∷ rest) ∷ tags) s = do
  check_tag decodes key value
  scan_tags decodes tags (mark_tag key s)
scan_tags decodes (_ ∷ tags) s = scan_tags decodes tags s

abbrev pub check_seen : SeenTags → Result ReferenceError (Unit {0})
check_seen s = do
  fail_if (not s.has_d) (missing_tag (codes "d"))
  fail_if (not s.has_names) (missing_tag (codes "n"))
  fail_if (not s.has_connection) (missing_tag (codes "c"))
  fail_if (not s.has_metadata) (missing_tag (codes "m"))
  fail_if (not s.has_transaction) (missing_tag (codes "x"))

abbrev scan_and_check : (Bytes → Bool) → List (List Bytes) → Result ReferenceError (Unit {0})
scan_and_check decodes tags = scan_tags decodes tags no_tags >>= check_seen

unfoldable pub validate_tag_references : (Bytes → Bool) → Event → Result ReferenceError (Unit {0})
validate_tag_references decodes event =
    if not (is_kind 60600 event.kind) then ok tt else scan_and_check decodes event.tags
