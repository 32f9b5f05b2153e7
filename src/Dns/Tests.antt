-- ===== src/Dns/Tests.antt =====
-- A server with one ID, and the theorems of the answers there.
use dnn_node.Base.{◌≡◌, refl, ◌≢◌, true, false, List, [], ◌∷◌, none, some, arith, All}
use dnn_node.Base.Bytes.{Bytes, codes, split, trim_suffix, bytes_eq}
use dnn_node.Base.Decimal.{format_ℕ}
use dnn_node.Base.Int.{pos}
use dnn_node.Encoder.RoundTrip.{new_encoder_with_params-IsEncoder}
use dnn_node.Encoder.Samples.{testnet, first_code, first_decoded}
use dnn_node.Resolver.Input.{dotted}
use dnn_node.Dns.{
  Server, Msg, success, answer_decoded, answer_named, answer_content, handle_dnn_domain,
  handle_dns_request, extract_subdomain, section_for, parse_connection_content_section,
}
use dnn_node.Dns.Records.{
  NetLib, Rr, txt, srv, service, record_type, convert_to_dns_records, convert_single_record,
  rdata_of, full_name, ttl_of, parse_uint, get_record_type, matches_query_type, fqdn,
}
use dnn_node.Dns.Answers.{
  IsReply, IsJustified, convert_to_dns_records-IsReply, handle_dnn_domain-IsJustified,
  convert_single_record-service,
}
use dnn_node.Dns.Names.{handle_dns_request-encode}

-- Every text of four bytes is an address.
abbrev net : NetLib
net = record {
  to_upper = λ s. s;
  parse_ip = λ s. some (record { bytes = s; to4 = some s });
  type_none = 0;
  type_a = 1;
  type_aaaa = 28;
  type_cname = 5;
  type_txt = 16;
  type_mx = 15;
  type_srv = 33;
  type_any = 255;
}

abbrev records : List (List Bytes)
records =
    (codes "A" ∷ codes "@" ∷ codes "1.2.3.4" ∷ [])
    ∷ (codes "TXT" ∷ codes "www" ∷ codes "hello" ∷ [])
    ∷ (codes "A" ∷ [])
    ∷ []

abbrev server : Server
server = record {
  net = net;
  encoder = testnet;
  to_lower = λ s. s;
  equal_fold = bytes_eq;
  db_is_blocked = λ block position name. some false;
  get_primary_name = λ block position. some (codes "alice");
  get_connection_content = λ block position. some [];
  unmarshal = λ text. some ((codes "alice", records) ∷ []);
  upstream_dns = [];
  exchange = λ address. none;
}

abbrev text_answer : Rr
text_answer = record {
  hdr = record { name = codes "www.nabandonzooa."; rrtype = 16; ttl = 3600 };
  rdata = txt (codes "hello" ∷ []);
}

converted : convert_to_dns_records net (codes "nabandonzooa") records 16 ≡ text_answer ∷ []
unfolding convert_to_dns_records convert_single_record rdata_of record_type full_name ttl_of
    get_record_type matches_query_type
converted = refl

convert_to_dns_records-IsReply_example :
    All (IsReply net 255) (convert_to_dns_records net (codes "nabandonzooa") records 255)
convert_to_dns_records-IsReply_example =
    convert_to_dns_records-IsReply net (codes "nabandonzooa") records 255

abbrev answer : Msg
answer = record { rcode = success; authoritative = true; answer = text_answer ∷ [] }

answered : handle_dnn_domain server (codes "nabandonzooa") 16 ≡ some answer
unfolding handle_dnn_domain extract_subdomain split answer_decoded answer_named answer_content
    section_for parse_connection_content_section
answered = rw (first_decoded, converted) refl

answer_full : answer.answer ≢ []
answer_full e = cc

handle_dnn_domain-IsJustified_example : IsJustified server (codes "nabandonzooa") 16 answer
handle_dnn_domain-IsJustified_example =
    handle_dnn_domain-IsJustified server (codes "nabandonzooa") 16 answer answered answer_full

lowered :
    trim_suffix (server.to_lower (codes "www.nabandonzooa.")) (codes ".")
    ≡ dotted (codes "www") (codes "nabandonzooa")
lowered = refl

handle_dns_request-encode_example :
    handle_dns_request server ((codes "www.nabandonzooa.", 1) ∷ [])
    ≡ some (
        answer_decoded server
          (dotted (codes "www") (codes "nabandonzooa"))
          1
          (codes "www")
          (pos 1998)
          (pos 1))
handle_dns_request-encode_example =
    handle_dns_request-encode server 1998 1 (codes "nabandonzooa") (codes "www")
      (codes "www.nabandonzooa.") 1 []
      (new_encoder_with_params-IsEncoder (pos 5) (pos 1000000) (pos 940000)) (omega arith)
      (omega arith) (omega arith) first_code lowered

convert_single_record-service_example :
    convert_single_record net
      (codes "nabandonzooa")
      service
      (codes "_sip._tcp")
      (codes "10")
      (format_ℕ 20 ∷ codes "5060" ∷ codes "sip.example.com" ∷ [])
    ≡ some (record {
      hdr = record {
        name = full_name (codes "nabandonzooa") (codes "_sip._tcp");
        rrtype = net.type_srv;
        ttl = 20;
      };
      rdata =
          srv
            (parse_uint 16 (codes "10")).0
            20
            (parse_uint 16 (codes "5060")).0
            (fqdn (codes "sip.example.com"));
    })
convert_single_record-service_example =
    convert_single_record-service net (codes "nabandonzooa") (codes "_sip._tcp") (codes "10")
      (codes "5060") (codes "sip.example.com") 20 [] (omega arith)
