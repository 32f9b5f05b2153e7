-- ===== src/Resolver/Input/RoundTrip.antt =====
-- The notations that the resolver prints for a name, read back by `parseInput`.
use dnn_node.Base.{
  map, ℕ, ◌+◌, ◌-◌, ◌≤◌, ◌<◌, ◌≡◌, refl, ◌∙◌, ◌≢◌, ap, true, false, List, [], ◌∷◌, ◌++◌, ok, arith,
  Bool-cases, inl, inr, ◌==◌, All, All-append, take, drop,
}
use dnn_node.Base.Bytes.{
  Bytes, codes, contains, has_prefix, split, join, Lacks, split-append, split_cases, join-split,
}
use dnn_node.Base.Int.{ℤ, pos, max_int64, +ℤ_pos}
use dnn_node.Base.Decimal.{format_int, IsDigit}
use dnn_node.Encoder.{Encoder, encode, decode}
use dnn_node.Encoder.RoundTrip.{IsEncoder, decode-encode-IsEncoder}
use dnn_node.Encoder.Notation.{parse_notation, at_position, format_dnn_block, format_bitcoin_block}
use dnn_node.Encoder.Notation.RoundTrip.{
  format_int-IsNumeral, parse_notation-encode, parse_notation-format_dnn_block,
  parse_notation-format_bitcoin_block, parse_notation-at_bitcoin_block, bitcoin_block_lem,
}
use dnn_node.Encoder.Notation.Shorthand.{IsOrder}
use dnn_node.Resolver.Input.{
  at_block, parse_block, parse_split, parse_trimmed, trim_protocol, parse_input, dotted,
  generate_alternate_notations,
}

-- The name of a notation: no dot, no colon.
pub record IsLabel (name : Bytes) : Type 0 where
  pub no_dot : Lacks b'.' name
  pub no_colon : Lacks b':' name

pub contains-Lacks : (c : ℕ) (s : Bytes) → Lacks c s → contains s (c ∷ []) ≡ false
unfolding contains
contains-Lacks c [] h = refl
contains-Lacks c (d ∷ s) h = ground (arith, contains-Lacks c s h.1)

pub contains-dotted : (name s : Bytes) → contains (dotted name s) (codes ".") ≡ true
unfolding contains
contains-dotted [] s = ground arith
contains-dotted (c ∷ name) s = ground (arith, contains-dotted name s)

-- A prefix with a colon does not begin `name.…`.
no_prefix :
    (name s p q : Bytes)
    → Lacks b':' name
    → Lacks b'.' p
    → has_prefix (dotted name s) (p ++ (b':' ∷ q)) ≡ false
no_prefix [] s [] q h k = ground arith
no_prefix [] s (d ∷ p) q h k = ground arith
no_prefix (c ∷ name) s [] q h k = ground arith
no_prefix (c ∷ name) s (d ∷ p) q h k = ground (arith, no_prefix name s p q h.1 k.1)

trim_protocol-dotted :
    (name s : Bytes) → IsLabel name → trim_protocol (dotted name s) ≡ dotted name s
unfolding trim_protocol
trim_protocol-dotted name s h =
    let dnn = no_prefix name s (codes "dnn") (codes "//") h.no_colon (omega arith) in
    let https = no_prefix name s (codes "https") (codes "//") h.no_colon (omega arith) in
    let http = no_prefix name s (codes "http") (codes "//") h.no_colon (omega arith) in
    rw (dnn, https, http) refl

-- Such an input comes to the test for a code.
parse_input-dotted :
    (e : Encoder) (order : List (Bytes × ℕ)) (name s : Bytes)
    → IsLabel name
    → parse_input e order (dotted name s)
      ≡ parse_split e order (dotted name s) (name ∷ split s b'.')
unfolding parse_input parse_trimmed
parse_input-dotted e order name s h =
    rw (trim_protocol-dotted name s h, contains-dotted name s, split-append name s b'.' h.no_dot)
      refl

parse_split_fallback :
    (e : Encoder) (order : List (Bytes × ℕ)) (input name p s : Bytes) (ps : List Bytes)
    → join (p ∷ ps) b'.' ≡ s
    → contains s (codes "-") ≡ false
    → parse_split e order input (name ∷ p ∷ ps) ≡ parse_block e order input
unfolding parse_split
parse_split_fallback e order input name p s ps whole h = rw (whole, h) refl

parse_split_code :
    (e : Encoder) (order : List (Bytes × ℕ)) (input name p s : Bytes) (ps : List Bytes) (b q : ℤ)
    → join (p ∷ ps) b'.' ≡ s
    → contains s (codes "-") ≡ true
    → decode e s ≡ ok (b, q)
    → parse_split e order input (name ∷ p ∷ ps) ≡ at_block name b q
unfolding parse_split
parse_split_code e order input name p s ps b q whole h decoded = rw (whole, h, decoded) refl

parse_block_ok :
    (e : Encoder) (order : List (Bytes × ℕ)) (input name : Bytes) (b q : ℤ)
    → parse_notation e order input ≡ ok (name, b, q)
    → parse_block e order input ≡ at_block name b q
unfolding parse_block
parse_block_ok e order input name b q h = rw h refl

-- An input without a hyphen is read by ParseNotation.
parse_input-parse_notation :
    (e : Encoder) (order : List (Bytes × ℕ)) (name s : Bytes) (b q : ℤ)
    → IsLabel name
    → Lacks b'-' s
    → parse_notation e order (dotted name s) ≡ ok (name, b, q)
    → parse_input e order (dotted name s) ≡ at_block name b q
parse_input-parse_notation e order name s b q h k parsed =
    let (p, ps, parts) = split_cases s b'.' in
    let whole : join (p ∷ ps) b'.' ≡ s = rw parts at (join-split s b'.') in
    parse_input-dotted e order name s h
    ∙ rw parts
        (parse_split_fallback e order (dotted name s) name p s ps whole (contains-Lacks b'-' s k))
    ∙ parse_block_ok e order (dotted name s) name b q parsed

-- A code that both readers read the same way.
parse_input-decode :
    (e : Encoder) (order : List (Bytes × ℕ)) (name s : Bytes) (b q : ℤ)
    → IsLabel name
    → decode e s ≡ ok (b, q)
    → parse_notation e order (dotted name s) ≡ ok (name, b, q)
    → parse_input e order (dotted name s) ≡ at_block name b q
parse_input-decode e order name s b q h decoded parsed =
    let (p, ps, parts) = split_cases s b'.' in
    let whole : join (p ∷ ps) b'.' ≡ s = rw parts at (join-split s b'.') in
    parse_input-dotted e order name s h
    ∙ rw parts (elim (Bool-cases (contains s (codes "-"))) [
      | inl hyphen ↦ parse_split_code e order (dotted name s) name p s ps b q whole hyphen decoded
      | inr other ↦
          parse_split_fallback e order (dotted name s) name p s ps whole other
          ∙ parse_block_ok e order (dotted name s) name b q parsed
    ])

digit_no_hyphen : (c : ℕ) → IsDigit c → c ≢ b'-'
digit_no_hyphen c h e = omega arith

Lacks-digits : (s : Bytes) → All IsDigit s → Lacks b'-' s
Lacks-digits [] h = tt
Lacks-digits (c ∷ s) h = (digit_no_hyphen c h.0, Lacks-digits s h.1)

format_int-Lacks : (n : ℕ) → Lacks b'-' (format_int (pos n))
format_int-Lacks n = Lacks-digits _ (format_int-IsNumeral n).1

at_position-Lacks : (c n q : ℕ) → c ≢ b'-' → Lacks b'-' (at_position c (pos n) (pos q))
at_position-Lacks c n q h = elim (Bool-cases (q == 1)) [
  | inl one ↦ rw one (h, format_int-Lacks n)
  | inr other ↦ rw other (
    h,
    All-append (λ d. d ≢ b'-') (format_int (pos n)) _ (format_int-Lacks n)
        (λ dot. cc, format_int-Lacks q),
  )
]

format_bitcoin_block-Lacks :
    (e : Encoder) (n q g : ℕ)
    → e.genesis_block ≡ pos g
    → n + g ≤ max_int64
    → Lacks b'-' (format_bitcoin_block e (pos n) (pos q))
unfolding format_bitcoin_block
format_bitcoin_block-Lacks e n q g start h =
    rw (bitcoin_block_lem e n g start h) (at_position-Lacks b'b' (n + g) q (λ eq. cc))

-- For a well-formed encoder with a genesis block from 0, a name without a dot and a colon, a block
-- from 0 whose Bitcoin block and a position from 1 that an int64 holds, and the code that Encode
-- prints for them, parseInput reads the first three notations that generateAlternateNotations
-- prints, the DNN block, the Bitcoin block and the code, back as the name, the block and the
-- position, for every order of the map of suffixes.
pub parse_input-generate_alternate_notations :
    (e : Encoder) (order : List (Bytes × ℕ)) (name code : Bytes) (n q g : ℕ)
    → e.genesis_block ≡ pos g
    → IsEncoder e
    → IsOrder order
    → IsLabel name
    → n + g ≤ max_int64
    → 1 ≤ q
    → q ≤ max_int64
    → encode e (pos n) (pos q) ≡ ok code
    → All
        (λ notation. parse_input e order notation ≡ at_block name (pos n) (pos q))
        (take 3 (generate_alternate_notations e name (pos n) (pos q) code))
unfolding generate_alternate_notations
parse_input-generate_alternate_notations e order name code n q g start v o l h one k printed =
    let (code', printed', back) = decode-encode-IsEncoder e n q v (omega arith) one k in
    let same : code' ≡ code = cc in
    let decoded : decode e code ≡ ok (pos n, pos q) = rw same at back in
    (
      parse_input-parse_notation e order name (format_dnn_block e (pos n) (pos q)) (pos n) (pos q) l
          (unfold format_dnn_block in at_position-Lacks b'n' n q (λ eq. cc))
          (parse_notation-format_dnn_block e order name n (pos q) v o l.no_dot (omega arith) k),
      (
        parse_input-parse_notation e order name (format_bitcoin_block e (pos n) (pos q)) (pos n)
            (pos q) l (format_bitcoin_block-Lacks e n q g start h)
            (parse_notation-format_bitcoin_block e order name n g (pos q) start o l.no_dot h k),
        (
          parse_input-decode e order name code (pos n) (pos q) l decoded
              (parse_notation-encode e order name n q code v l.no_dot (omega arith) one k printed),
          tt,
        ),
      ),
    )

-- The shorthand with b that generateAlternateNotations prints for the position 1 counts from the
-- block 1000000: where the genesis block of the network is a lower one from 0, the name has no dot
-- and no colon, and the number fits into an int64, parseInput reads it as a later block, by the
-- difference.
pub parse_input-bitcoin_shorthand :
    (e : Encoder) (order : List (Bytes × ℕ)) (name code : Bytes) (n g : ℕ)
    → e.genesis_block ≡ pos g
    → IsOrder order
    → IsLabel name
    → n + 1000000 ≤ max_int64
    → g < 1000000
    → map (parse_input e order) (drop 4 (generate_alternate_notations e name (pos n) (pos 1) code))
      ≡ at_block name (pos (n + (1000000 - g))) (pos 1) ∷ []
unfolding generate_alternate_notations
parse_input-bitcoin_shorthand e order name code n g start o l h k =
    let shift : n + 1000000 ≡ n + (1000000 - g) + g = omega arith in
    rw (+ℤ_pos n 1000000 h) (
      ap (λ x. x ∷ [])
        (parse_input-parse_notation e order name _ _ (pos 1) l
          ((λ eq. cc), format_int-Lacks (n + 1000000))
          (rw shift (
            parse_notation-at_bitcoin_block e order name (n + (1000000 - g)) g (pos 1) start o
              l.no_dot (omega arith) (omega arith)))))
