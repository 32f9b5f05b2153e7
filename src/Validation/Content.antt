-- ===== src/Validation/Content.antt =====
-- internal/validation/validator.go: connection, metadata and anchor events, and `ValidateDNNEvent`.
use dnn_node.Base.{
  Bool, false, not, List, [], ◌∷◌, Option, none, some, Result, ok, err, ◌>>◌, fail_if, any, is_nil,
  if◌then◌else◌,
}
use dnn_node.Base.Bytes.{Bytes, codes, bytes_eq, contains}
use dnn_node.Nostr.{
  Event, is_kind, has_dnn_tag, Json, str, arr, obj, Elems, nil, cons, Props, end, prop, lookup_prop,
}
use dnn_node.Validation.{
  Runtime, EventError, invalid_kind, missing_dnn_tag, missing_d_tag, missing_n_tag, missing_c_tag,
  missing_m_tag, missing_x_tag, empty_content, invalid_json, no_domain_key, invalid_connection,
  invalid_records, invalid_dns_record, invalid_certificate, invalid_signature, unsupported_kind,
  validate_name_event,
}

pub valid_types : List Bytes
valid_types =
    codes "A"
    ∷ codes "AAAA"
    ∷ codes "CNAME"
    ∷ codes "MX"
    ∷ codes "TXT"
    ∷ codes "SRV"
    ∷ codes "NS"
    ∷ codes "PTR"
    ∷ codes "SOA"
    ∷ codes "CAA"
    ∷ []

-- A record is an array of three or more elements whose first is the text of a known type.
unfoldable pub validate_dns_record : Json → Result EventError (Unit {0})
unfolding valid_types
validate_dns_record (arr (cons (str record_type) (cons name (cons value rest)))) =
    fail_if (not (any (bytes_eq record_type) valid_types)) invalid_dns_record
validate_dns_record _ = err invalid_dns_record

unfoldable pub validate_dns_records : Elems → Result EventError (Unit {0})
unfolding validate_dns_record
validate_dns_records nil = ok tt
validate_dns_records (cons r rs) = do validate_dns_record r; validate_dns_records rs

abbrev pem_header : Bytes
pem_header = codes "-----BEGIN CERTIFICATE-----"

-- `pem, ok := certData["pem"].(string)`
abbrev check_pem : Option Json → Result EventError (Unit {0})
check_pem (some (str pem)) = fail_if (not (contains pem pem_header)) invalid_certificate
check_pem _ = err invalid_certificate

abbrev present : Option Json → Result EventError (Unit {0})
present none = err invalid_certificate
present (some v) = ok tt

unfoldable pub validate_certificate : Json → Result EventError (Unit {0})
validate_certificate (obj cert_data) = do
  present (lookup_prop (codes "type") cert_data)
  present (lookup_prop (codes "pem") cert_data)
  check_pem (lookup_prop (codes "pem") cert_data)
validate_certificate _ = err invalid_certificate

unfoldable pub validate_chain : Elems → Result EventError (Unit {0})
unfolding validate_certificate
validate_chain nil = ok tt
validate_chain (cons c cs) = do validate_certificate c; validate_chain cs

check_chain : Option Json → Result EventError (Unit {0})
check_chain none = ok tt
check_chain (some (arr chain)) = validate_chain chain
check_chain (some _) = err invalid_certificate

unfoldable pub validate_certificates : Json → Result EventError (Unit {0})
unfolding check_chain validate_chain
validate_certificates (obj cert_map) = check_chain (lookup_prop (codes "chain") cert_map)
validate_certificates _ = err invalid_certificate

check_records : Option Json → Result EventError (Unit {0})
check_records none = ok tt
check_records (some (arr records)) = validate_dns_records records
check_records (some _) = err invalid_records

check_cert : Option Json → Result EventError (Unit {0})
check_cert none = ok tt
check_cert (some cert) = validate_certificates cert

-- One entry of the connection content.
unfoldable pub validate_connection : Json → Result EventError (Unit {0})
unfolding check_records check_cert
validate_connection (obj conn) = do
  check_records (lookup_prop (codes "records") conn)
  check_cert (lookup_prop (codes "cert") conn)
validate_connection _ = err invalid_connection

unfoldable pub validate_connections : Props → Result EventError (Unit {0})
validate_connections end = ok tt
validate_connections (prop key value ps) = do validate_connection value; validate_connections ps

abbrev check_domains : Option Props → Result EventError (Unit {0})
check_domains none = err invalid_json
check_domains (some end) = err no_domain_key
check_domains (some (prop key value ps)) = validate_connections (prop key value ps)

unfoldable pub validate_connection_event : Runtime → Event → Result EventError (Unit {0})
validate_connection_event go event = do
  fail_if (not (is_kind 62600 event.kind)) invalid_kind
  fail_if (not (has_dnn_tag event.tags)) missing_dnn_tag
  fail_if (is_nil event.content) empty_content
  check_domains (go.unmarshal event.content)

abbrev is_json : Option Props → Result EventError (Unit {0})
is_json none = err invalid_json
is_json (some content) = ok tt

unfoldable pub validate_metadata_event : Runtime → Event → Result EventError (Unit {0})
validate_metadata_event go event = do
  fail_if (not (is_kind 63600 event.kind)) invalid_kind
  fail_if (not (has_dnn_tag event.tags)) missing_dnn_tag
  fail_if (is_nil event.content) empty_content
  is_json (go.unmarshal event.content)

-- A tag with this key and a value: `hasX = true` in the `switch` of the source.
abbrev pub keyed : Bytes → List Bytes → Bool
keyed k (key ∷ value ∷ rest) = bytes_eq key k
keyed k _ = false

unfoldable pub validate_anchor_event : Event → Result EventError (Unit {0})
validate_anchor_event event = do
  fail_if (not (is_kind 60600 event.kind)) invalid_kind
  fail_if (not (has_dnn_tag event.tags)) missing_dnn_tag
  fail_if (not (any (keyed (codes "d")) event.tags)) missing_d_tag
  fail_if (not (any (keyed (codes "n")) event.tags)) missing_n_tag
  fail_if (not (any (keyed (codes "c")) event.tags)) missing_c_tag
  fail_if (not (any (keyed (codes "m")) event.tags)) missing_m_tag
  fail_if (not (any (keyed (codes "x")) event.tags)) missing_x_tag

validate_by_kind : Runtime → Event → Result EventError (Unit {0})
validate_by_kind go event =
    if is_kind 61600 event.kind
    then validate_name_event go event
    else if is_kind 62600 event.kind
    then validate_connection_event go event
    else if is_kind 63600 event.kind
    then validate_metadata_event go event
    else if is_kind 60600 event.kind
    then validate_anchor_event event
    else err unsupported_kind

unfoldable pub validate_dnn_event : Runtime → Event → Result EventError (Unit {0})
unfolding validate_by_kind
validate_dnn_event go event = do
  fail_if (not (go.check_signature event)) invalid_signature
  validate_by_kind go event
