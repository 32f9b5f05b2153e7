-- ===== src/Node/Refused.antt =====
-- Names and IDs that `parseDNNName` does not read.
use dnn_node.Base.{
  ℕ, ◌≡◌, refl, ◌∙◌, true, false, List, [], ◌∷◌, Option, Result, ok, err, panic, arith, Bool-cases,
  inl, inr, ◌==◌, Ensures, bind-Ensures, ok-Ensures,
}
use dnn_node.Base.Bytes.{Bytes, codes, contains, split, split_cases, Lacks, split-Lacks}
use dnn_node.Base.Decimal.{IsDigit}
use dnn_node.Base.Int.{ℤ}
use dnn_node.Encoder.{Encoder, decode, first_word, no_word, not_a_code, DecodeError}
use dnn_node.Encoder.Apart.{IsWordlist}
use dnn_node.Encoder.Notation.RoundTrip.{decode-digit, decode-not_n}
use dnn_node.Resolver.Input.{dotted}
use dnn_node.Resolver.Input.RoundTrip.{contains-Lacks}
use dnn_node.Node.{
  DnnName, invalid_encoded, is_encoded_format, is_id_start, decoded_as, parse_block_with_shorthand,
  parse_undotted, parse_named, parse_dotted, parse_dnn_name,
}
use dnn_node.Node.Names.{starts_id, parse_dnn_name-dotted}

abbrev Nameless : DnnName → Type 0
Nameless r = r.name ≡ []

decoded_as-Ensures : (x : Result DecodeError (ℤ × ℤ)) → Ensures Nameless (decoded_as [] x)
decoded_as-Ensures (ok (b, p)) = refl
decoded_as-Ensures (err e) = tt
decoded_as-Ensures panic = tt

parse_undotted-Ensures :
    (e : Encoder) (genesis_block : ℕ) (s : Bytes)
    → starts_id s ≡ true
    → Ensures Nameless (parse_undotted e genesis_block s)
unfolding parse_undotted
parse_undotted-Ensures e genesis_block [] h = cc
parse_undotted-Ensures e genesis_block (c ∷ s) h = elim (Bool-cases (is_encoded_format s)) [
  | inl letter ↦ rw (h, letter) (decoded_as-Ensures (decode e (c ∷ s)))
  | inr digits ↦ rw (h, digits) (bind-Ensures Nameless (parse_block_with_shorthand s) _ (λ r. refl))
]

parse_dotted-Ensures :
    (e : Encoder) (genesis_block : ℕ) (scan : Bytes → Option ℤ) (c : ℕ) (s : Bytes)
    (parts : List Bytes)
    → is_id_start c ≡ true
    → Ensures Nameless (parse_dotted e genesis_block scan ((c ∷ s) ∷ parts))
unfolding parse_dotted
parse_dotted-Ensures e genesis_block scan c s parts h =
    rw h (bind-Ensures Nameless (parse_block_with_shorthand s) _ (λ r. refl))

split-first :
    (c : ℕ) (s : Bytes)
    → is_id_start c ≡ true
    → (p : Bytes) × (ps : List Bytes) × (split (c ∷ s) b'.' ≡ (c ∷ p) ∷ ps)
unfolding split
split-first c s h =
    let (p, ps, parts) = split_cases s b'.' in
    let other : (c == b'.') ≡ false = ground arith in (p, ps, rw (other, parts) refl)

parse_dnn_name-Ensures :
    (e : Encoder) (genesis_block : ℕ) (scan : Bytes → Option ℤ) (s : Bytes)
    → starts_id s ≡ true
    → Ensures Nameless (parse_dnn_name e genesis_block scan s)
unfolding parse_dnn_name
parse_dnn_name-Ensures e genesis_block scan [] h = cc
parse_dnn_name-Ensures e genesis_block scan (c ∷ s) h =
    elim (Bool-cases (contains (c ∷ s) (codes "."))) [
      | inl dot ↦
          let (p, ps, parts) = split-first c s h in
          rw (dot, parts) (parse_dotted-Ensures e genesis_block scan c p ps h)
      | inr plain ↦ rw plain (parse_undotted-Ensures e genesis_block (c ∷ s) h)
    ]

-- Whatever parseDNNName returns for an input that begins with n or b has no name: neither bob nor
-- bob.n50 is read as the name bob.
pub parse_dnn_name-Nameless :
    (e : Encoder) (genesis_block : ℕ) (scan : Bytes → Option ℤ) (full_name : Bytes) (r : DnnName)
    → starts_id full_name ≡ true
    → parse_dnn_name e genesis_block scan full_name ≡ ok r
    → r.name ≡ []
parse_dnn_name-Nameless e genesis_block scan full_name r h k =
    ok-Ensures Nameless (parse_dnn_name e genesis_block scan full_name) r k
      (parse_dnn_name-Ensures e genesis_block scan full_name h)

parse_undotted-encoded :
    (e : Encoder) (genesis_block c : ℕ) (s : Bytes)
    → is_id_start c ≡ true
    → is_encoded_format s ≡ true
    → parse_undotted e genesis_block (c ∷ s) ≡ decoded_as [] (decode e (c ∷ s))
unfolding parse_undotted
parse_undotted-encoded e genesis_block c s h k = rw (h, k) refl

parse_dnn_name-encoded :
    (e : Encoder) (genesis_block c : ℕ) (scan : Bytes → Option ℤ) (s : Bytes)
    → is_id_start c ≡ true
    → Lacks b'.' s
    → is_encoded_format s ≡ true
    → parse_dnn_name e genesis_block scan (c ∷ s) ≡ decoded_as [] (decode e (c ∷ s))
unfolding parse_dnn_name
parse_dnn_name-encoded e genesis_block c scan s h l k =
    let whole : contains (c ∷ s) (codes ".") ≡ false =
      contains-Lacks b'.' (c ∷ s) ((λ eq. ground arith), l) in
    rw whole (parse_undotted-encoded e genesis_block c s h k)

parse_named-encoded :
    (e : Encoder) (genesis_block : ℕ) (scan : Bytes → Option ℤ) (name s : Bytes)
    (parts : List Bytes)
    → is_encoded_format s ≡ true
    → parse_named e genesis_block scan name ((b'n' ∷ s) ∷ parts)
      ≡ decoded_as name (decode e (b'n' ∷ s))
unfolding parse_named
parse_named-encoded e genesis_block scan name s parts k = rw k refl

-- For a well-formed list of words, a text of a digit and further characters without a dot, one of
-- them a letter, such as 5h or 1m50, parseDNNName refuses n and the text, b and the text, and a
-- name without a dot that does not begin with n or b followed by n and the text: all three are
-- taken for a code.
pub parse_dnn_name-shorthand :
    (e : Encoder) (genesis_block : ℕ) (scan : Bytes → Option ℤ) (name : Bytes) (d : ℕ) (t : Bytes)
    → IsWordlist e.wordlist
    → Lacks b'.' name
    → starts_id name ≡ false
    → IsDigit d
    → Lacks b'.' t
    → is_encoded_format (d ∷ t) ≡ true
    → (parse_dnn_name e genesis_block scan (b'n' ∷ d ∷ t) ≡ err invalid_encoded)
      × (parse_dnn_name e genesis_block scan (b'b' ∷ d ∷ t) ≡ err invalid_encoded)
      × (parse_dnn_name e genesis_block scan (dotted name (b'n' ∷ d ∷ t)) ≡ err invalid_encoded)
parse_dnn_name-shorthand e genesis_block scan name d t v l plain digit l' letter =
    let refused : decode e (b'n' ∷ d ∷ t) ≡ err (first_word no_word) =
      decode-digit e d t v (omega arith) in
    let not_n : decode e (b'b' ∷ d ∷ t) ≡ err not_a_code = decode-not_n e b'b' d t refl in
    let no_dot : Lacks b'.' (d ∷ t) = ((λ eq. omega arith), l') in
    let whole : split (b'n' ∷ d ∷ t) b'.' ≡ (b'n' ∷ d ∷ t) ∷ [] =
      split-Lacks (b'n' ∷ d ∷ t) b'.' ((λ eq. cc eq), no_dot) in
    (
      parse_dnn_name-encoded e genesis_block b'n' scan (d ∷ t) refl no_dot letter ∙ rw refused refl,
      parse_dnn_name-encoded e genesis_block b'b' scan (d ∷ t) refl no_dot letter ∙ rw not_n refl,
      parse_dnn_name-dotted e genesis_block scan name (b'n' ∷ d ∷ t) l plain
          ∙ rw whole
              (parse_named-encoded e genesis_block scan name (d ∷ t) [] letter ∙ rw refused refl),
    )
