-- ===== src/Dns/Names.antt =====
-- Domains with a code: `isDNNName` and `extractSubdomain`.
use dnn_node.Base.{
  ℕ, ◌≤◌, ◌≡◌, refl, ◌≢◌, ap, Bool, true, false, List, [], ◌∷◌, ◌++◌, some, ok, arith, ◌==◌,
  ==_refl, sym, ltb, ◌/◌, if◌then◌else◌, Bool-cases, inl, inr, All, All-append, All-get_elem?, any,
}
use dnn_node.Base.Bytes.{
  is_letter, Bytes, cons_head, codes, split, join, Lacks, split-Lacks, split_cases, join-split,
  trim_suffix,
}
use dnn_node.Base.Decimal.{IsDigit}
use dnn_node.Base.Int.{pos, max_int64}
use dnn_node.Encoder.{Encoder, encode, decode, encode_position, cycle_digits}
use dnn_node.Encoder.Apart.{IsWord}
use dnn_node.Encoder.Position.{encode_position-letters, IsLetter}
use dnn_node.Encoder.RoundTrip.{IsEncoder, encode_print, decode-encode-IsEncoder}
use dnn_node.Encoder.Notation.RoundTrip.{format_int-IsNumeral}
use dnn_node.Resolver.Input.{dotted}
use dnn_node.Dns.{
  Server, looks_encoded, last_part, front_parts, base_looks_encoded, is_dnn_name, subdomain_of,
  extract_subdomain, answer_decoded, handle_dnn_domain, handle_dns_request,
}

cons_step :
    (b : Bool) (c : ℕ) (parts : List Bytes) (p : Bytes) (ps : List Bytes) (base : Bytes)
    → parts ≡ p ∷ ps
    → (if b then [] ∷ (parts ++ (base ∷ [])) else cons_head c (parts ++ (base ∷ [])))
      ≡ (if b then [] ∷ parts else cons_head c parts) ++ (base ∷ [])
cons_step true c parts p ps base h = refl
cons_step false c parts p ps base h = rw h refl

-- A last part without the separator is split off at the end.
split-snoc :
    (s base : Bytes) (sep : ℕ)
    → Lacks sep base
    → split (s ++ (sep ∷ base)) sep ≡ split s sep ++ (base ∷ [])
unfolding split
split-snoc [] base sep h = rw (==_refl sep) (ap (λ x. [] ∷ x) (split-Lacks base sep h))
split-snoc (c ∷ s) base sep h =
    let (p, ps, parts) = split_cases s sep in
    rw (split-snoc s base sep h) (cons_step (c == sep) c (split s sep) p ps base parts)

last_part-snoc : (q base : Bytes) (ps : List Bytes) → last_part q (ps ++ (base ∷ [])) ≡ base
last_part-snoc q base [] = refl
last_part-snoc q base (p ∷ ps) = last_part-snoc p base ps

front_parts-snoc : (q base : Bytes) (ps : List Bytes) → front_parts q (ps ++ (base ∷ [])) ≡ q ∷ ps
front_parts-snoc q base [] = refl
front_parts-snoc q base (p ∷ ps) = ap (λ x. q ∷ x) (front_parts-snoc p base ps)

subdomain_of-snoc :
    (domain p base : Bytes) (ps : List Bytes)
    → subdomain_of domain (p ∷ (ps ++ (base ∷ []))) ≡ (join (p ∷ ps) b'.', base)
subdomain_of-snoc domain p base [] = unfold join in refl
subdomain_of-snoc domain p base (q ∷ ps) =
    rw (front_parts-snoc q base ps, last_part-snoc q base ps) refl

base_looks_encoded-snoc :
    (p base : Bytes) (ps : List Bytes)
    → base_looks_encoded (p ∷ (ps ++ (base ∷ []))) ≡ looks_encoded base
base_looks_encoded-snoc p base [] = refl
base_looks_encoded-snoc p base (q ∷ ps) = rw (last_part-snoc q base ps) refl

-- A base name without a dot behind a subdomain, of any number of parts, is split off, and the
-- subdomain is left as it is.
pub extract_subdomain-dotted :
    (sub base : Bytes)
    → Lacks b'.' base
    → (extract_subdomain (dotted sub base) ≡ (sub, base)) × (extract_subdomain base ≡ ([], base))
unfolding extract_subdomain
extract_subdomain-dotted sub base h =
    let (p, ps, parts) = split_cases sub b'.' in
    let whole : join (p ∷ ps) b'.' ≡ sub = rw parts at (join-split sub b'.') in
    (
      rw (split-snoc sub base b'.' h, parts, subdomain_of-snoc (dotted sub base) p base ps, whole)
          refl,
      rw (split-Lacks base b'.' h) refl,
    )

is_dnn_name-dotted :
    (sub base : Bytes)
    → Lacks b'.' base
    → looks_encoded base ≡ true
    → is_dnn_name (dotted sub base) ≡ true
unfolding is_dnn_name
is_dnn_name-dotted sub base h k =
    let (p, ps, parts) = split_cases sub b'.' in
    rw (split-snoc sub base b'.' h, parts, base_looks_encoded-snoc p base ps, k) refl

Lacks-letters : (s : Bytes) → All IsLetter s → Lacks b'.' s
Lacks-letters [] h = tt
Lacks-letters (c ∷ s) h = ((λ e. omega (arith, h.0)), Lacks-letters s h.1)

Lacks-digits : (s : Bytes) → All IsDigit s → Lacks b'.' s
Lacks-digits [] h = tt
Lacks-digits (c ∷ s) h = ((λ e. omega (arith, h.0)), Lacks-digits s h.1)

cycle_digits-Lacks : (n : ℕ) → Lacks b'.' (cycle_digits n)
cycle_digits-Lacks n = elim (Bool-cases (ltb 0 n)) [
  | inl e ↦ rw e (Lacks-digits _ (format_int-IsNumeral n).1)
  | inr e ↦ rw e tt
]

any_letter : (w s : Bytes) → IsWord w → any is_letter (w ++ s) ≡ true
any_letter [] s h = absurd (h.0 refl)
any_letter (c ∷ w) s h = ground (arith, h.1)

n_no_dot : (c : ℕ) → c ≡ b'n' → c ≢ b'.'
n_no_dot c h e = cc

-- What Encode prints is recognised, and has no dot.
encode-recognised :
    (e : Encoder) (n p : ℕ) (code : Bytes)
    → IsEncoder e
    → 1 ≤ p
    → encode e (pos n) (pos p) ≡ ok code
    → Lacks b'.' code × (looks_encoded code ≡ true)
encode-recognised e n p code v one printed =
    let (w1, w2, first, second, print) = encode_print e n p v one in
    let word1 = All-get_elem? IsWord e.wordlist _ v.list.words first in
    let word2 = All-get_elem? IsWord e.wordlist _ v.list.words second in
    let tail = cycle_digits (n / e.cycle_size) ++ encode_position (pos p) in
    let same : b'n' ∷ (w1 ++ (w2 ++ tail)) ≡ code = cc in
    let lacks = All-append (λ c. c ≢ b'.') in
    rw (sym same) (
      (
        n_no_dot b'n' refl,
        lacks w1 _ (Lacks-letters w1 word1.1) (
            lacks w2 _ (Lacks-letters w2 word2.1) (
              lacks (cycle_digits (n / e.cycle_size)) _ (cycle_digits-Lacks (n / e.cycle_size))
                (Lacks-letters _ (encode_position-letters p).1))),
      ),
      any_letter w1 (w2 ++ tail) word1,
    )

-- A question for the code that Encode prints for a block from 0 and a position from 1, which an int
-- holds, behind any subdomain, in any case and with or without a dot at its end, is answered as
-- that for this block, this position and this subdomain.
pub handle_dns_request-encode :
    (s : Server) (n p : ℕ) (code sub name : Bytes) (qtype : ℕ) (questions : List (Bytes × ℕ))
    → IsEncoder s.encoder
    → n ≤ max_int64
    → 1 ≤ p
    → p ≤ max_int64
    → encode s.encoder (pos n) (pos p) ≡ ok code
    → trim_suffix (s.to_lower name) (codes ".") ≡ dotted sub code
    → handle_dns_request s ((name, qtype) ∷ questions)
      ≡ some (answer_decoded s (dotted sub code) qtype sub (pos n) (pos p))
unfolding handle_dns_request handle_dnn_domain
handle_dns_request-encode s n p code sub name qtype questions v h one k printed lowered =
    let (no_dot, looks) = encode-recognised s.encoder n p code v one printed in
    let (code', printed', back) = decode-encode-IsEncoder s.encoder n p v h one k in
    let same : code' ≡ code = cc in
    let decoded : decode s.encoder code ≡ ok (pos n, pos p) = rw same at back in
    rw
      (
        lowered,
        is_dnn_name-dotted sub code no_dot looks,
        (extract_subdomain-dotted sub code no_dot).0,
        decoded,
      )
      refl
