-- ===== src/Dns/Answers.antt =====
-- What an answer of the DNS server rests on.
use dnn_node.Base.{
  subst, ◌∙◌, sym, Each, ℕ, ◌^◌, ◌<◌, ◌≡◌, refl, ◌≢◌, ap, ◌⊎◌, inl, inr, Bool, true, false, List,
  [], ◌∷◌, Option, none, some, Result, ok, err, panic, arith, lt→ltb, All, is_nil, Bool-cases,
}
use dnn_node.Base.Bytes.{Bytes}
use dnn_node.Base.Decimal.{format_ℕ, parse_ℕ-format_ℕ}
use dnn_node.Base.Int.{ℤ}
use dnn_node.Encoder.{DecodeError, decode}
use dnn_node.Dns.{
  Server, Msg, failed, says_blocked, answer_decoded, answer_named, answer_content,
  parse_connection_content_section, section_for, answer_with, answer_records, answer_from,
  name_error, extract_subdomain, handle_dnn_domain,
}
use dnn_node.Dns.Records.{
  NetLib, Rr, RrHeader, Rdata, Ip, ipv4, ipv6, with_header, a, aaaa, cname, txt, mx, srv,
  RecordType, address, address6, canonical, text, exchange, service, unknown, get_record_type,
  matches_query_type, parse_uint, ttl_of, full_name, rdata_of, convert_single_record, is_asked,
  append_rr, convert_to_dns_records, record_type, fqdn,
}

-- The number of the type that the data has.
abbrev pub rdata_type : NetLib → Rdata → ℕ
rdata_type net (a _) = net.type_a
rdata_type net (aaaa _) = net.type_aaaa
rdata_type net (cname _) = net.type_cname
rdata_type net (txt _) = net.type_txt
rdata_type net (mx _ _) = net.type_mx
rdata_type net (srv _ _ _ _) = net.type_srv

-- An answer has the type that was asked for, in its header and in its data.
pub record IsReply (net : NetLib) (qtype : ℕ) (rr : Rr) : Type 0 where
  pub asked : (qtype ≡ net.type_any) ⊎ (qtype ≡ rr.hdr.rrtype)
  pub data_typed : rdata_type net rr.rdata ≡ rr.hdr.rrtype

ipv4_typed : (net : NetLib) (ip : Option Ip) → Each (λ d. rdata_type net d ≡ net.type_a) (ipv4 ip)
ipv4_typed net none = tt
ipv4_typed net (some ip) = to4 ip.to4
  where
    to4 :
        (four : Option Bytes)
        → Each
            (λ d. rdata_type net d ≡ net.type_a)
            (elim four [ none ↦ none | some f ↦ some (a f) ])
    to4 none = tt
    to4 (some f) = refl

ipv6_typed :
    (net : NetLib) (ip : Option Ip) → Each (λ d. rdata_type net d ≡ net.type_aaaa) (ipv6 ip)
ipv6_typed net none = tt
ipv6_typed net (some ip) = to4 ip.to4
  where
    to4 :
        (four : Option Bytes)
        → Each
            (λ d. rdata_type net d ≡ net.type_aaaa)
            (elim four [ none ↦ some (aaaa ip.bytes) | some f ↦ none ])
    to4 none = refl
    to4 (some f) = tt

rdata_of_typed :
    (net : NetLib) (kind : RecordType) (value : Bytes) (more : List Bytes)
    → Each (λ d. rdata_type net d ≡ get_record_type net kind) (rdata_of net kind value more)
unfolding rdata_of get_record_type
rdata_of_typed net address value more = ipv4_typed net (net.parse_ip value)
rdata_of_typed net address6 value more = ipv6_typed net (net.parse_ip value)
rdata_of_typed net canonical value more = refl
rdata_of_typed net text value more = refl
rdata_of_typed net exchange value [] = tt
rdata_of_typed net exchange value (host ∷ more) = refl
rdata_of_typed net service value [] = tt
rdata_of_typed net service value (w ∷ []) = tt
rdata_of_typed net service value (w ∷ p ∷ []) = tt
rdata_of_typed net service value (w ∷ p ∷ t ∷ more) = refl
rdata_of_typed net unknown value more = tt

matches_typed :
    (net : NetLib) (kind : RecordType) (qtype : ℕ)
    → is_asked net kind qtype ≡ true
    → (qtype ≡ net.type_any) ⊎ (qtype ≡ get_record_type net kind)
unfolding matches_query_type get_record_type
matches_typed net address qtype h = ground arith
matches_typed net address6 qtype h = ground arith
matches_typed net canonical qtype h = ground arith
matches_typed net text qtype h = ground arith
matches_typed net exchange qtype h = ground arith
matches_typed net service qtype h = ground arith
matches_typed net unknown qtype h = ground arith

with_header_typed :
    (net : NetLib) (qtype : ℕ) (header : RrHeader) (found : Option Rdata)
    → (qtype ≡ net.type_any) ⊎ (qtype ≡ header.rrtype)
    → Each (λ d. rdata_type net d ≡ header.rrtype) found
    → Each (IsReply net qtype) (with_header header found)
with_header_typed net qtype header none h k = tt
with_header_typed net qtype header (some d) h k = record { asked = h; data_typed = k }

convert_typed :
    (net : NetLib) (domain : Bytes) (qtype : ℕ) (kind : RecordType) (name value : Bytes)
    (more : List Bytes)
    → is_asked net kind qtype ≡ true
    → Each (IsReply net qtype) (convert_single_record net domain kind name value more)
unfolding convert_single_record
convert_typed net domain qtype kind name value more h =
    with_header_typed net qtype _ (rdata_of net kind value more) (matches_typed net kind qtype h)
      (rdata_of_typed net kind value more)

append_rr-All :
    (net : NetLib) (qtype : ℕ) (found : Option Rr) (rest : List Rr)
    → Each (IsReply net qtype) found
    → All (IsReply net qtype) rest
    → All (IsReply net qtype) (append_rr found rest)
append_rr-All net qtype none rest h k = k
append_rr-All net qtype (some rr) rest h k = (h, k)

-- Every record that convertToDNSRecords gives has the type of the question, unless all types were
-- asked for, and its data are those of the type in its header.
pub convert_to_dns_records-IsReply :
    (net : NetLib) (domain : Bytes) (records : List (List Bytes)) (qtype : ℕ)
    → All (IsReply net qtype) (convert_to_dns_records net domain records qtype)
unfolding convert_to_dns_records
convert_to_dns_records-IsReply net domain [] qtype = tt
convert_to_dns_records-IsReply net domain ([] ∷ records) qtype =
    convert_to_dns_records-IsReply net domain records qtype
convert_to_dns_records-IsReply net domain ((f ∷ []) ∷ records) qtype =
    convert_to_dns_records-IsReply net domain records qtype
convert_to_dns_records-IsReply net domain ((f ∷ n ∷ []) ∷ records) qtype =
    convert_to_dns_records-IsReply net domain records qtype
convert_to_dns_records-IsReply net domain ((f ∷ n ∷ v ∷ more) ∷ records) qtype =
    let rest = convert_to_dns_records-IsReply net domain records qtype in
    let kind = record_type (net.to_upper f) in
    elim (Bool-cases (is_asked net kind qtype)) [
      | inl asked ↦ rw asked (
          append_rr-All net qtype (convert_single_record net domain kind n v more) _
            (convert_typed net domain qtype kind n v more asked) rest)
      | inr other ↦ rw other rest
    ]

-- What an answer with records comes from.
pub record IsJustified (s : Server) (domain : Bytes) (qtype : ℕ) (msg : Msg) : Type 0 where
  pub block : ℤ
  pub position : ℤ
  pub decoded : decode s.encoder (extract_subdomain domain).1 ≡ ok (block, position)
  pub allowed : s.db_is_blocked block position (extract_subdomain domain).0 ≢ some true
  pub primary_name : Bytes
  pub named : s.get_primary_name block position ≡ some primary_name
  pub content : Bytes
  pub stored : s.get_connection_content block position ≡ some content
  pub records : List (List Bytes)
  pub section :
      parse_connection_content_section s content
        (section_for s (extract_subdomain domain).0 primary_name)
      ≡ some records
  pub converted : msg.answer ≡ convert_to_dns_records s.net domain records qtype

answer_with_answer : (rs : List Rr) → (answer_with rs).answer ≡ rs
answer_with_answer [] = refl
answer_with_answer (r ∷ rs) = refl

answered_records :
    (s : Server) (domain : Bytes) (qtype : ℕ) (found : Option (List (List Bytes)))
    → (answer_records s domain qtype found).answer ≢ []
    → (records : List (List Bytes)) × (found ≡ some records)
      × ((answer_records s domain qtype found).answer
          ≡ convert_to_dns_records s.net domain records qtype)
answered_records s domain qtype none h = absurd (h refl)
answered_records s domain qtype (some records) h = (records, refl, answer_with_answer _)

answered_content :
    (s : Server) (domain : Bytes) (qtype : ℕ) (section_name : Bytes) (found : Option Bytes)
    → (answer_content s domain qtype section_name found).answer ≢ []
    → (text : Bytes) × (records : List (List Bytes)) × (found ≡ some text)
      × (parse_connection_content_section s text section_name ≡ some records)
      × ((answer_content s domain qtype section_name found).answer
          ≡ convert_to_dns_records s.net domain records qtype)
unfolding answer_content
answered_content s domain qtype section_name none h = absurd (h refl)
answered_content s domain qtype section_name (some content) h =
    let (records, section, converted) =
      answered_records s domain qtype (parse_connection_content_section s content section_name) h in
    (content, records, refl, section, converted)

answered_named :
    (s : Server) (domain : Bytes) (qtype : ℕ) (subdomain : Bytes) (block position : ℤ)
    (found : Option Bytes)
    → (answer_named s domain qtype subdomain block position found).answer ≢ []
    → (primary_name : Bytes) × (found ≡ some primary_name)
      × (answer_named s domain qtype subdomain block position found
          ≡ answer_content s domain qtype
              (section_for s subdomain primary_name)
              (s.get_connection_content block position))
unfolding answer_named
answered_named s domain qtype subdomain block position none h = absurd (h refl)
answered_named s domain qtype subdomain block position (some primary_name) h =
    elim (Bool-cases (is_nil primary_name)) [
      | inl empty ↦ absurd (h (rw empty refl))
      | inr full ↦ (primary_name, refl, rw full refl)
    ]

not_blocked : (o : Option Bool) → says_blocked o ≡ false → o ≢ some true
not_blocked none h e = cc
not_blocked (some b) h e = cc

answered_decoded :
    (s : Server) (domain : Bytes) (qtype : ℕ) (subdomain : Bytes) (block position : ℤ)
    → (answer_decoded s domain qtype subdomain block position).answer ≢ []
    → (s.db_is_blocked block position subdomain ≢ some true)
      × (answer_decoded s domain qtype subdomain block position
          ≡ answer_named s domain qtype subdomain block position
              (s.get_primary_name block position))
unfolding answer_decoded
answered_decoded s domain qtype subdomain block position h =
    elim (Bool-cases (says_blocked (s.db_is_blocked block position subdomain))) [
      | inl blocked ↦ absurd (h (rw blocked refl))
      | inr free ↦ (not_blocked (s.db_is_blocked block position subdomain) free, rw free refl)
    ]

answered_domain :
    (s : Server) (domain : Bytes) (qtype : ℕ) (subdomain : Bytes)
    (decoded : Result DecodeError (ℤ × ℤ)) (msg : Msg)
    → answer_from s domain qtype subdomain decoded ≡ some msg
    → msg.answer ≢ []
    → (block : ℤ) × (position : ℤ) × (decoded ≡ ok (block, position))
      × (msg ≡ answer_decoded s domain qtype subdomain block position)
answered_domain s domain qtype subdomain (ok (block, position)) msg e h =
    (block, position, refl, cc)
answered_domain s domain qtype subdomain (err f) msg e h =
    let same : failed name_error ≡ msg = cc in absurd (h (rw (sym same) refl))
answered_domain s domain qtype subdomain panic msg e h = absurd (cc)

-- An answer with records to a domain rests on a code that decodes, behind the last dot, to an ID
-- that the database does not report as blocked; on a primary name and a connection stored for it;
-- and on a section of the connection, whose records, converted, are the answer.
pub handle_dnn_domain-IsJustified :
    (s : Server) (domain : Bytes) (qtype : ℕ) (msg : Msg)
    → handle_dnn_domain s domain qtype ≡ some msg
    → msg.answer ≢ []
    → IsJustified s domain qtype msg
unfolding handle_dnn_domain
handle_dnn_domain-IsJustified s domain qtype msg e h =
    let (sub, base) = extract_subdomain domain in
    let (block, position, decoded, same) =
      answered_domain s domain qtype sub (decode s.encoder base) msg e h in
    let h1 = subst (λ m. m.answer ≢ []) same h in
    let (allowed, same1) = answered_decoded s domain qtype sub block position h1 in
    let h2 = subst (λ m. m.answer ≢ []) same1 h1 in
    let (primary_name, named, same2) =
      answered_named s domain qtype sub block position (s.get_primary_name block position) h2 in
    let h3 = subst (λ m. m.answer ≢ []) same2 h2 in
    let section_name = section_for s sub primary_name in
    let (content, records, stored, section, converted) =
      answered_content s domain qtype section_name (s.get_connection_content block position) h3 in
    record {
      block = block;
      position = position;
      decoded = decoded;
      allowed = allowed;
      primary_name = primary_name;
      named = named;
      content = content;
      stored = stored;
      records = records;
      section = section;
      converted = ap (λ m. m.answer) (same ∙ same1 ∙ same2) ∙ converted;
    }

-- The fourth field is read as the time to live of every record: of a service record, whose fourth
-- field is its weight, a number of 16 bits, the time to live is the weight.
pub convert_single_record-service :
    (net : NetLib) (domain name priority port target : Bytes) (w : ℕ) (more : List Bytes)
    → w < 2 ^ 16
    → convert_single_record net domain service name priority (format_ℕ w ∷ port ∷ target ∷ more)
      ≡ some (record {
        hdr = record { name = full_name domain name; rrtype = net.type_srv; ttl = w };
        rdata = srv (parse_uint 16 priority).0 w (parse_uint 16 port).0 (fqdn target);
      })
unfolding convert_single_record rdata_of ttl_of parse_uint get_record_type
convert_single_record-service net domain name priority port target w more h =
    rw (parse_ℕ-format_ℕ w, lt→ltb w (2 ^ 16) h, lt→ltb w (2 ^ 32) (omega arith)) refl
