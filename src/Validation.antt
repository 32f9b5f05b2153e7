-- ===== src/Validation.antt =====
-- internal/validation/validator.go. The Go runtime's part (case mapping outside ASCII, JSON parsing)
-- and go-nostr's signature check are the fields of `Runtime`.
pub mod Content
pub mod Names
pub mod Tags
pub mod NameEvents
mod Tests
use dnn_node.Base.{
  ℕ, zero, suc, ◌+◌, Bool, true, false, not, ◌&&◌, ◌||◌, List, [], ◌∷◌, ◌++◌, map, Option, none,
  some, Result, ok, err, panic, ◌>>=◌, ◌>>◌, fail_if, wrap_err, ltb, ◌==◌, in_range, any, all,
  is_nil, length, if◌then◌else◌,
}
use dnn_node.Base.Bytes.{Bytes, codes, bytes_eq, contains}
use dnn_node.Base.Int.{ℤ}
use dnn_node.Nostr.{
  Event, is_kind, has_dnn_tag, is_dnn_tag, Json, null, bool, num, str, arr, obj, Elems, nil, cons,
  Props, end, prop, lookup_prop,
}

pub record Runtime : Type 0 where
  -- `strings.ToLower` on a text that is not ASCII.
  pub lower_unicode : Bytes → Bytes
  -- `json.Unmarshal` into a map, in the order in which a `range` loop then walks it.
  pub unmarshal : Bytes → Option Props
  -- `event.CheckSignature()`: true for `ok` without an error.
  pub check_signature : Event → Bool

abbrev pub lower_byte : ℕ → ℕ
lower_byte c = if in_range b'A' b'Z' c then c + 32 else c

-- strings.ToLower
unfoldable pub to_lower : Runtime → Bytes → Bytes
to_lower go s = if all (λ c. ltb c 128) s then map lower_byte s else go.lower_unicode s

pub data NameError : Type 0 where
  too_short too_long invalid_format consecutive_hyphens reserved_name : NameError

abbrev pub is_alnum : ℕ → Bool
is_alnum c = in_range b'a' b'z' c || in_range b'0' b'9' c

-- `[a-z0-9-]{0,n}[a-z0-9]$`
pattern_rest : ℕ → Bytes → Bool
pattern_rest n [] = false
pattern_rest n (c ∷ []) = is_alnum c
pattern_rest zero (c ∷ d ∷ s) = false
pattern_rest (suc n) (c ∷ d ∷ s) = (is_alnum c || c == b'-') && pattern_rest n (d ∷ s)

-- `^[a-z0-9][a-z0-9-]{0,61}[a-z0-9]$`
name_pattern : Bytes → Bool
unfolding pattern_rest
name_pattern [] = false
name_pattern (c ∷ s) = is_alnum c && pattern_rest 61 s

abbrev pub reserved : List Bytes
reserved =
    codes "admin"
    ∷ codes "root"
    ∷ codes "system"
    ∷ codes "api"
    ∷ codes "www"
    ∷ codes "mail"
    ∷ codes "ftp"
    ∷ codes "localhost"
    ∷ []

-- The loop over the reserved names.
unfoldable pub is_reserved : Bytes → Bool
is_reserved name = any (bytes_eq name) reserved

-- `ValidateName` behind the case mapping.
check_name : Bytes → Result NameError (Unit {0})
check_name name = do
  fail_if (ltb (length name) 2) too_short
  fail_if (ltb 63 (length name)) too_long
  fail_if (not (name_pattern name)) invalid_format
  fail_if (contains name (codes "--")) consecutive_hyphens
  fail_if (is_reserved name) reserved_name

unfoldable pub validate_name : Runtime → Bytes → Result NameError (Unit {0})
unfolding check_name name_pattern
validate_name go name = check_name (to_lower go name)

pub data EventError : Type 0 where
  invalid_kind missing_dnn_tag missing_d_tag missing_n_tag : EventError
  invalid_primary_name invalid_other_name : NameError → EventError
  duplicate_name empty_content invalid_json no_domain_key : EventError
  invalid_connection invalid_records invalid_dns_record invalid_certificate : EventError
  missing_c_tag missing_m_tag missing_x_tag : EventError
  invalid_signature unsupported_kind : EventError

-- The variables of the loop over the tags of a name event.
pub record NameTags : Type 0 where
  pub has_dnn_tag : Bool
  pub d_tag : Bytes
  pub primary_name : Bytes
  pub other_names : List Bytes

unfoldable pub no_name_tags : NameTags
no_name_tags = record { has_dnn_tag = false; d_tag = []; primary_name = []; other_names = [] }

abbrev pub set_dnn : Bytes → Bytes → NameTags → NameTags
set_dnn key value t =
    if bytes_eq key (codes "t") && bytes_eq value (codes "DNN")
    then record t { has_dnn_tag = true }
    else t

abbrev pub set_d : Bytes → Bytes → NameTags → NameTags
set_d key value t = if bytes_eq key (codes "d") then record t { d_tag = value } else t

abbrev pub set_n : Bytes → Bytes → NameTags → NameTags
set_n key value t = if bytes_eq key (codes "n") then record t { primary_name = value } else t

abbrev pub set_o : Bytes → Bytes → NameTags → NameTags
set_o key value t =
    if bytes_eq key (codes "o") then record t { other_names = t.other_names ++ (value ∷ []) } else t

unfoldable pub scan_name_tags : List (List Bytes) → NameTags → NameTags
scan_name_tags [] t = t
scan_name_tags ([] ∷ tags) t = scan_name_tags tags t
scan_name_tags ((key ∷ []) ∷ tags) t = scan_name_tags tags t
scan_name_tags ((key ∷ value ∷ rest) ∷ tags) t =
    scan_name_tags tags (set_o key value (set_n key value (set_d key value (set_dnn key value t))))

unfoldable pub validate_other_names : Runtime → List Bytes → Result EventError (Unit {0})
validate_other_names go [] = ok tt
validate_other_names go (name ∷ names) = do
  wrap_err invalid_other_name (validate_name go name)
  validate_other_names go names

-- `nameMap` holds the names met so far.
unfoldable pub check_duplicates : List Bytes → List Bytes → Result EventError (Unit {0})
check_duplicates name_map [] = ok tt
check_duplicates name_map (name ∷ names) = do
  fail_if (any (bytes_eq name) name_map) duplicate_name
  check_duplicates (name ∷ name_map) names

unfoldable pub check_name_tags : Runtime → NameTags → Result EventError (Unit {0})
check_name_tags go t = do
  fail_if (not t.has_dnn_tag) missing_dnn_tag
  fail_if (is_nil t.d_tag) missing_d_tag
  fail_if (is_nil t.primary_name) missing_n_tag
  wrap_err invalid_primary_name (validate_name go t.primary_name)
  validate_other_names go t.other_names
  check_duplicates (t.primary_name ∷ []) t.other_names

unfoldable pub validate_name_event : Runtime → Event → Result EventError (Unit {0})
validate_name_event go event = do
  fail_if (not (is_kind 61600 event.kind)) invalid_kind
  check_name_tags go (scan_name_tags event.tags no_name_tags)
