-- ===== src/Dns.antt =====
-- internal/dns/server.go: the answers of the DNS server. The database, the package net, the JSON
-- decoder and the queries to other servers are the fields of `Server`; sockets are left out.
pub mod Records
pub mod Names
pub mod Answers
mod Tests
use dnn_node.Base.{
  ℕ, ◌-◌, Bool, true, false, not, ◌&&◌, ◌||◌, List, [], ◌∷◌, ◌++◌, Option, none, some, Result, ok,
  err, panic, ltb, length, is_nil, any, drop, take, if◌then◌else◌, in_range, ◌==◌,
}
use dnn_node.Base.Bytes.{is_letter, Bytes, codes, split, join, trim_suffix}
use dnn_node.Base.Dict.{Dict, lookup}
use dnn_node.Base.Int.{ℤ}
use dnn_node.Encoder.{Encoder, DecodeError, decode}
use dnn_node.Dns.Records.{NetLib, Rr, convert_to_dns_records}

pub data Rcode : Type 0 where
  success format_error server_failure name_error : Rcode

pub record Msg : Type 0 where
  pub rcode : Rcode
  pub authoritative : Bool
  pub answer : List Rr

-- A query of the database that fails is `none`; an upstream that does not answer is `none`.
pub record Server : Type 0 where
  pub net : NetLib
  pub encoder : Encoder
  pub to_lower : Bytes → Bytes
  pub equal_fold : Bytes → Bytes → Bool
  pub db_is_blocked : ℤ → ℤ → Bytes → Option Bool
  pub get_primary_name : ℤ → ℤ → Option Bytes
  pub get_connection_content : ℤ → ℤ → Option Bytes
  pub unmarshal : Bytes → Option (Dict (List (List Bytes)))
  pub upstream_dns : List Bytes
  pub exchange : Bytes → Option Msg

-- `SetReply`, and `SetRcode` on it.
abbrev pub failed : Rcode → Msg
failed rcode = record { rcode = rcode; authoritative = false; answer = [] }

-- `n`, and a letter among the characters behind it.
abbrev pub looks_encoded : Bytes → Bool
looks_encoded [] = false
looks_encoded (c ∷ s) = c == b'n' && any is_letter s

-- `parts[len(parts)-1]`
abbrev pub last_part : Bytes → List Bytes → Bytes
last_part p [] = p
last_part p (q ∷ ps) = last_part q ps

-- `parts[:len(parts)-1]`
abbrev pub front_parts : Bytes → List Bytes → List Bytes
front_parts p [] = []
front_parts p (q ∷ ps) = p ∷ front_parts q ps

abbrev pub base_looks_encoded : List Bytes → Bool
base_looks_encoded [] = false
base_looks_encoded (p ∷ []) = false
base_looks_encoded (p ∷ q ∷ ps) = looks_encoded (last_part q ps)

unfoldable pub is_dnn_name : Bytes → Bool
is_dnn_name name = base_looks_encoded (split name b'.') || looks_encoded name

abbrev pub subdomain_of : Bytes → List Bytes → Bytes × Bytes
subdomain_of domain [] = ([], domain)
subdomain_of domain (p ∷ []) = ([], domain)
subdomain_of domain (p ∷ q ∷ ps) = (join (front_parts p (q ∷ ps)) b'.', last_part q ps)

-- The subdomain and the base name.
unfoldable pub extract_subdomain : Bytes → Bytes × Bytes
extract_subdomain domain = subdomain_of domain (split domain b'.')

-- `none` is an error, of the JSON or of the section that is not there.
unfoldable pub parse_connection_content_section :
    Server → Bytes → Bytes → Option (List (List Bytes))
parse_connection_content_section s content section_name = elim (s.unmarshal content) [
  | none ↦ none
  | some sections ↦ lookup section_name sections
]

unfoldable pub section_for : Server → Bytes → Bytes → Bytes
section_for s subdomain primary_name =
    if is_nil subdomain || s.equal_fold subdomain primary_name then primary_name else subdomain

unfoldable pub map_subdomain_to_section : Server → ℤ → ℤ → Bytes → Option Bytes
map_subdomain_to_section s block position subdomain = elim (s.get_primary_name block position) [
  | none ↦ none
  | some primary_name ↦
      some (if s.equal_fold subdomain primary_name then primary_name else subdomain)
]

abbrev pub answer_with : List Rr → Msg
answer_with [] = failed name_error
answer_with (r ∷ rs) = record { rcode = success; authoritative = true; answer = r ∷ rs }

-- The records of the section, converted.
abbrev pub answer_records : Server → Bytes → ℕ → Option (List (List Bytes)) → Msg
answer_records s domain qtype none = failed server_failure
answer_records s domain qtype (some records) =
    answer_with (convert_to_dns_records s.net domain records qtype)

unfoldable pub answer_content : Server → Bytes → ℕ → Bytes → Option Bytes → Msg
answer_content s domain qtype section_name none = failed name_error
answer_content s domain qtype section_name (some content) =
    answer_records s domain qtype (parse_connection_content_section s content section_name)

unfoldable pub answer_named : Server → Bytes → ℕ → Bytes → ℤ → ℤ → Option Bytes → Msg
unfolding answer_content
answer_named s domain qtype subdomain block position none = failed name_error
answer_named s domain qtype subdomain block position (some primary_name) =
    if is_nil primary_name
    then failed name_error
    else answer_content s domain qtype (section_for s subdomain primary_name)
        (s.get_connection_content block position)

-- A query of the block list that fails blocks nothing.
abbrev pub says_blocked : Option Bool → Bool
says_blocked (some b) = b
says_blocked none = false

unfoldable pub answer_decoded : Server → Bytes → ℕ → Bytes → ℤ → ℤ → Msg
unfolding answer_named
answer_decoded s domain qtype subdomain block position =
    if says_blocked (s.db_is_blocked block position subdomain)
    then failed name_error
    else answer_named s domain qtype subdomain block position (s.get_primary_name block position)

-- `none` is a run-time panic of the decoder.
abbrev pub answer_from : Server → Bytes → ℕ → Bytes → Result DecodeError (ℤ × ℤ) → Option Msg
answer_from s domain qtype subdomain (ok (block, position)) =
    some (answer_decoded s domain qtype subdomain block position)
answer_from s domain qtype subdomain (err _) = some (failed name_error)
answer_from s domain qtype subdomain panic = none

unfoldable pub handle_dnn_domain : Server → Bytes → ℕ → Option Msg
unfolding answer_decoded
handle_dnn_domain s domain qtype =
    let (subdomain, base_name) = extract_subdomain domain in
    answer_from s domain qtype subdomain (decode s.encoder base_name)

-- The first server that answers.
unfoldable pub forward_to_upstream : Server → List Bytes → Msg
forward_to_upstream s [] = failed server_failure
forward_to_upstream s (address ∷ addresses) = elim (s.exchange address) [
  | none ↦ forward_to_upstream s addresses
  | some resp ↦ resp
]

-- The questions of a request: names and types.
unfoldable pub handle_dns_request : Server → List (Bytes × ℕ) → Option Msg
unfolding handle_dnn_domain forward_to_upstream
handle_dns_request s [] = some (failed format_error)
handle_dns_request s ((name, qtype) ∷ questions) =
    let domain = trim_suffix (s.to_lower name) (codes ".") in
    if is_dnn_name domain
    then handle_dnn_domain s domain qtype
    else some (forward_to_upstream s s.upstream_dns)
