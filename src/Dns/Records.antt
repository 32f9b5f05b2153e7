-- ===== src/Dns/Records.antt =====
-- internal/dns/server.go: the records of a connection event as resource records. `net.ParseIP`, the
-- case mapping and the numbers of the record types are the fields of `NetLib`.
use dnn_node.Base.{
  ℕ, ◌-◌, ◌^◌, Bool, true, false, ◌||◌, List, [], ◌∷◌, ◌++◌, Option, none, some, ltb, if◌then◌else◌,
  is_nil, ◌==◌,
}
use dnn_node.Base.Bytes.{Bytes, codes, bytes_eq, has_suffix}
use dnn_node.Base.Decimal.{parse_ℕ}

-- An address as ParseIP gives it: with the four bytes of To4 if it has them.
pub record Ip : Type 0 where
  pub bytes : Bytes
  pub to4 : Option Bytes

pub record NetLib : Type 0 where
  pub to_upper : Bytes → Bytes
  pub parse_ip : Bytes → Option Ip
  pub type_none : ℕ
  pub type_a : ℕ
  pub type_aaaa : ℕ
  pub type_cname : ℕ
  pub type_txt : ℕ
  pub type_mx : ℕ
  pub type_srv : ℕ
  pub type_any : ℕ

pub record RrHeader : Type 0 where
  pub name : Bytes
  pub rrtype : ℕ
  pub ttl : ℕ

pub data Rdata : Type 0 where
  a aaaa cname : Bytes → Rdata
  txt : List Bytes → Rdata
  mx : ℕ → Bytes → Rdata
  srv : ℕ → ℕ → ℕ → Bytes → Rdata

pub record Rr : Type 0 where
  pub hdr : RrHeader
  pub rdata : Rdata

-- The types that the server knows, and the others.
pub data RecordType : Type 0 where
  address address6 canonical text exchange service : RecordType
  unknown : RecordType

-- The `switch` over the text of a type.
unfoldable pub record_type : Bytes → RecordType
record_type s =
    if bytes_eq s (codes "A")
    then address
    else if bytes_eq s (codes "AAAA")
    then address6
    else if bytes_eq s (codes "CNAME")
    then canonical
    else if bytes_eq s (codes "TXT")
    then text
    else if bytes_eq s (codes "MX")
    then exchange
    else if bytes_eq s (codes "SRV")
    then service
    else unknown

unfoldable pub get_record_type : NetLib → RecordType → ℕ
get_record_type net address = net.type_a
get_record_type net address6 = net.type_aaaa
get_record_type net canonical = net.type_cname
get_record_type net text = net.type_txt
get_record_type net exchange = net.type_mx
get_record_type net service = net.type_srv
get_record_type net unknown = net.type_none

unfoldable pub matches_query_type : NetLib → RecordType → ℕ → Bool
matches_query_type net address qtype = qtype == net.type_a
matches_query_type net address6 qtype = qtype == net.type_aaaa
matches_query_type net canonical qtype = qtype == net.type_cname
matches_query_type net text qtype = qtype == net.type_txt
matches_query_type net exchange qtype = qtype == net.type_mx
matches_query_type net service qtype = qtype == net.type_srv
matches_query_type net unknown qtype = false

-- `strconv.ParseUint(s, 10, bits)`: the value that is returned, beside an error or not.
abbrev pub uint_value : ℕ → Option ℕ → ℕ × Bool
uint_value bits none = (0, false)
uint_value bits (some n) = if ltb n (2 ^ bits) then (n, true) else (2 ^ bits - 1, false)

unfoldable pub parse_uint : ℕ → Bytes → ℕ × Bool
parse_uint bits s = uint_value bits (parse_ℕ s)

-- A name ends in a dot.
abbrev pub fqdn : Bytes → Bytes
fqdn s = if has_suffix s (codes ".") then s else s ++ codes "."

unfoldable pub full_name : Bytes → Bytes → Bytes
full_name domain name =
    fqdn (if bytes_eq name (codes "@") || is_nil name then domain else name ++ (b'.' ∷ domain))

-- The time to live: the fourth field, if it is a number of 32 bits.
unfoldable pub ttl_of : List Bytes → ℕ
unfolding parse_uint
ttl_of [] = 3600
ttl_of (field ∷ more) = let (parsed, valid) = parse_uint 32 field in if valid then parsed else 3600

abbrev pub ipv4 : Option Ip → Option Rdata
ipv4 none = none
ipv4 (some ip) = elim ip.to4 [ none ↦ none | some four ↦ some (a four) ]

abbrev pub ipv6 : Option Ip → Option Rdata
ipv6 none = none
ipv6 (some ip) = elim ip.to4 [ none ↦ some (aaaa ip.bytes) | some four ↦ none ]

-- What the `switch` makes of the third field and those behind it.
unfoldable pub rdata_of : NetLib → RecordType → Bytes → List Bytes → Option Rdata
unfolding parse_uint
rdata_of net address value more = ipv4 (net.parse_ip value)
rdata_of net address6 value more = ipv6 (net.parse_ip value)
rdata_of net canonical value more = some (cname (fqdn value))
rdata_of net text value more = some (txt (value ∷ []))
rdata_of net exchange value [] = none
rdata_of net exchange value (host ∷ more) = some (mx (parse_uint 16 value).0 (fqdn host))
rdata_of net service value (weight ∷ port ∷ target ∷ more) =
    some (srv (parse_uint 16 value).0 (parse_uint 16 weight).0 (parse_uint 16 port).0 (fqdn target))
rdata_of net service value _ = none
rdata_of net unknown value more = none

abbrev pub with_header : RrHeader → Option Rdata → Option Rr
with_header header none = none
with_header header (some rdata) = some (record { hdr = header; rdata = rdata })

-- The record has the type, the name, the value and further fields.
unfoldable pub convert_single_record :
    NetLib → Bytes → RecordType → Bytes → Bytes → List Bytes → Option Rr
unfolding rdata_of
convert_single_record net domain kind name value more =
    with_header
      (record {
        name = full_name domain name;
        rrtype = get_record_type net kind;
        ttl = ttl_of more;
      })
      (rdata_of net kind value more)

abbrev pub is_asked : NetLib → RecordType → ℕ → Bool
is_asked net kind qtype = (qtype == net.type_any) || matches_query_type net kind qtype

abbrev pub append_rr : Option Rr → List Rr → List Rr
append_rr none rest = rest
append_rr (some rr) rest = rr ∷ rest

-- A record of fewer than three fields, or of a type that was not asked for, is left out.
unfoldable pub convert_to_dns_records : NetLib → Bytes → List (List Bytes) → ℕ → List Rr
unfolding convert_single_record
convert_to_dns_records net domain [] qtype = []
convert_to_dns_records net domain ((first ∷ name ∷ value ∷ more) ∷ records) qtype =
    let rest = convert_to_dns_records net domain records qtype in
    let kind = record_type (net.to_upper first) in
    if is_asked net kind qtype
    then append_rr (convert_single_record net domain kind name value more) rest
    else rest
convert_to_dns_records net domain (_ ∷ records) qtype =
    convert_to_dns_records net domain records qtype
