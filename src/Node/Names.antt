-- ===== src/Node/Names.antt =====
-- Names that `parseDNNName` reads.
use dnn_node.Base.{
  ℕ, ◌+◌, ◌/◌, ◌≤◌, ◌≡◌, refl, ◌∙◌, ap, Bool, true, false, List, [], ◌∷◌, ◌++◌, Option, some, ◌&&◌,
  Result, ok, arith, Bool-cases, inl, inr, ◌==◌, ==_iff, All, All-append, take, All-get_elem?,
}
use dnn_node.Base.Bytes.{Bytes, split, Lacks, split-Lacks, split-append}
use dnn_node.Base.Decimal.{format_int, IsDigit}
use dnn_node.Base.Int.{ℤ, pos, max_int64, -ℤ_pos}
use dnn_node.Encoder.{Encoder, encode, decode, cycle_digits, encode_position}
use dnn_node.Encoder.RoundTrip.{IsEncoder, decode-encode-IsEncoder, encode_print, cycle_digits-All}
use dnn_node.Encoder.Position.{IsLetter, encode_position-letters}
use dnn_node.Encoder.Apart.{IsWord}
use dnn_node.Encoder.Notation.{at_position, format_dnn_block, format_bitcoin_block}
use dnn_node.Encoder.Notation.RoundTrip.{format_int-IsNumeral, bitcoin_block_lem}
use dnn_node.Resolver.Input.{dotted, generate_alternate_notations}
use dnn_node.Resolver.Input.RoundTrip.{contains-dotted}
use dnn_node.Node.{
  ParseError, DnnName, is_encoded_format, is_id_start, from_genesis, named_block, parse_named,
  parse_dotted, parse_dnn_name,
}
use dnn_node.Node.Digits.{parse_block_with_shorthand-format_int, is_encoded_format-digits}

-- The first letter of an ID.
abbrev pub starts_id : Bytes → Bool
starts_id [] = false
starts_id (c ∷ s) = is_id_start c

parse_dotted-name :
    (e : Encoder) (genesis_block : ℕ) (scan : Bytes → Option ℤ) (name : Bytes) (parts : List Bytes)
    → starts_id name ≡ false
    → parse_dotted e genesis_block scan (name ∷ parts) ≡ parse_named e genesis_block scan name parts
unfolding parse_dotted
parse_dotted-name e genesis_block scan [] parts h = refl
parse_dotted-name e genesis_block scan (c ∷ name) parts h = rw h refl

pub parse_dnn_name-dotted :
    (e : Encoder) (genesis_block : ℕ) (scan : Bytes → Option ℤ) (name s : Bytes)
    → Lacks b'.' name
    → starts_id name ≡ false
    → parse_dnn_name e genesis_block scan (dotted name s)
      ≡ parse_named e genesis_block scan name (split s b'.')
unfolding parse_dnn_name
parse_dnn_name-dotted e genesis_block scan name s h k =
    rw (contains-dotted name s, split-append name s b'.' h)
      (parse_dotted-name e genesis_block scan name (split s b'.') k)

digits-Lacks : (s : Bytes) → All IsDigit s → Lacks b'.' s
digits-Lacks [] h = tt
digits-Lacks (c ∷ s) h = (λ e. omega arith, digits-Lacks s h.1)

letters-Lacks : (s : Bytes) → All IsLetter s → Lacks b'.' s
letters-Lacks [] h = tt
letters-Lacks (c ∷ s) h = (λ e. omega arith, letters-Lacks s h.1)

and_false : (b : Bool) → (b && false) ≡ false
and_false true = refl
and_false false = refl

-- An ID with digits behind its letter, and a position if it is not 1.
module _ (e : Encoder) (genesis_block : ℕ) (scan : Bytes → Option ℤ) (name : Bytes) (c n q : ℕ)
    (start : is_id_start c ≡ true) (block : 1 ≤ n) (fits : n ≤ max_int64)
    (scanned : scan (format_int (pos q)) ≡ some (pos q)) where
  abbrev id : Bytes
  id = c ∷ format_int (pos n)

  abbrev read : ℤ → Result ParseError DnnName
  read p = ok (named_block name (from_genesis genesis_block c (pos n)) p)

  id-Lacks : Lacks b'.' id
  id-Lacks = (λ eq. ground arith, digits-Lacks _ (format_int-IsNumeral n).1)

  parse_named-one : parse_named e genesis_block scan name (id ∷ []) ≡ read (pos 1)
  unfolding parse_named
  parse_named-one =
      rw
        (
          is_encoded_format-digits _ (format_int-IsNumeral n).1,
          and_false (c == b'n'),
          start,
          parse_block_with_shorthand-format_int n block fits,
        )
        refl

  parse_named-two :
      parse_named e genesis_block scan name (id ∷ format_int (pos q) ∷ []) ≡ read (pos q)
  unfolding parse_named
  parse_named-two =
      rw
        (
          is_encoded_format-digits _ (format_int-IsNumeral n).1,
          and_false (c == b'n'),
          start,
          parse_block_with_shorthand-format_int n block fits,
          scanned,
        )
        refl

  parse_named-at_position :
      parse_named e genesis_block scan name (split (at_position c (pos n) (pos q)) b'.')
      ≡ read (pos q)
  parse_named-at_position = elim (Bool-cases (q == 1)) [
    | inl one ↦
        rw (one, split-Lacks id b'.' id-Lacks)
          (parse_named-one ∙ ap (λ a. read (pos a)) (omega (arith, (==_iff q 1).0 one)))
    | inr other ↦
        rw
          (
            other,
            split-append id (format_int (pos q)) b'.' id-Lacks,
            split-Lacks (format_int (pos q)) b'.' (digits-Lacks _ (format_int-IsNumeral q).1),
          )
          parse_named-two
  ]

any_letter-append : (w s : Bytes) → IsWord w → is_encoded_format (w ++ s) ≡ true
unfolding is_encoded_format
any_letter-append [] s h = absurd (h.0 refl)
any_letter-append (c ∷ w) s h = let letter : (b'a' ≤ c) × (c ≤ b'z') = h.1.0 in ground arith

parse_named-code :
    (e : Encoder) (genesis_block : ℕ) (scan : Bytes → Option ℤ) (name s : Bytes) (n p : ℤ)
    → is_encoded_format s ≡ true
    → decode e (b'n' ∷ s) ≡ ok (n, p)
    → parse_named e genesis_block scan name ((b'n' ∷ s) ∷ []) ≡ ok (named_block name n p)
unfolding parse_named
parse_named-code e genesis_block scan name s n p h k = rw (h, k) refl

-- The code that Encode prints: n, and behind it a text with a letter and without a dot.
encode-shape :
    (e : Encoder) (n q : ℕ) (code : Bytes)
    → IsEncoder e
    → 1 ≤ q
    → encode e (pos n) (pos q) ≡ ok code
    → (s : Bytes) × (code ≡ b'n' ∷ s) × Lacks b'.' s × (is_encoded_format s ≡ true)
encode-shape e n q code v one printed =
    let (word1, word2, first, second, printed') = encode_print e n q v one in
    let word = All-get_elem? IsWord e.wordlist _ v.list.words first in
    let word' = All-get_elem? IsWord e.wordlist _ v.list.words second in
    (
      word1 ++ (word2 ++ (cycle_digits (n / e.cycle_size) ++ encode_position (pos q))),
      cc,
      All-append _ word1 _ (letters-Lacks word1 word.1) (
          All-append _ word2 _ (letters-Lacks word2 word'.1) (
            All-append _ (cycle_digits _) _ (digits-Lacks _ (cycle_digits-All _))
              (letters-Lacks _ (encode_position-letters q).1))),
      any_letter-append word1 _ word,
    )

genesis_again : (n g : ℕ) → n + g ≤ max_int64 → from_genesis g b'b' (pos (n + g)) ≡ pos n
genesis_again n g h = -ℤ_pos (n + g) g (omega arith) h ∙ ap pos (omega arith)

-- A plain name and one of the three IDs.
module _ (e : Encoder) (scan : Bytes → Option ℤ) (name : Bytes) (n q g : ℕ)
    (start : e.genesis_block ≡ pos g) (no_dot : Lacks b'.' name) (plain : starts_id name ≡ false)
    (block : 1 ≤ n) (fits : n + g ≤ max_int64) where
  abbrev Reads : Bytes → Type 0
  Reads s = parse_dnn_name e g scan (dotted name s) ≡ ok (named_block name (pos n) (pos q))

  module _ (scanned : scan (format_int (pos q)) ≡ some (pos q)) where
    Reads-format_dnn_block : Reads (format_dnn_block e (pos n) (pos q))
    unfolding format_dnn_block
    Reads-format_dnn_block =
        parse_dnn_name-dotted e g scan name _ no_dot plain
        ∙ parse_named-at_position e g scan name b'n' n q refl block (omega arith) scanned

    Reads-format_bitcoin_block : Reads (format_bitcoin_block e (pos n) (pos q))
    unfolding format_bitcoin_block
    Reads-format_bitcoin_block =
        parse_dnn_name-dotted e g scan name _ no_dot plain
        ∙ rw (bitcoin_block_lem e n g start fits) (
            parse_named-at_position e g scan name b'b' (n + g) q refl (omega arith) fits scanned
            ∙ ap (λ b. ok (named_block name b (pos q))) (genesis_again n g fits))

  Reads-encode :
      (code : Bytes)
      → IsEncoder e
      → 1 ≤ q
      → q ≤ max_int64
      → encode e (pos n) (pos q) ≡ ok code
      → Reads code
  Reads-encode code v one k printed =
      let (code', printed', back) = decode-encode-IsEncoder e n q v (omega arith) one k in
      let same : code' ≡ code = cc in
      let (s, shape, s_no_dot, letter) = encode-shape e n q code v one printed in
      let decoded : decode e (b'n' ∷ s) ≡ ok (pos n, pos q) = rw (same, shape) at back in
      let whole : split (b'n' ∷ s) b'.' ≡ (b'n' ∷ s) ∷ [] =
        split-Lacks (b'n' ∷ s) b'.' (λ eq. cc eq, s_no_dot) in
      rw shape (
        parse_dnn_name-dotted e g scan name (b'n' ∷ s) no_dot plain
        ∙ rw whole (parse_named-code e g scan name s (pos n) (pos q) letter decoded))

-- For a well-formed encoder with a genesis block from 0, a name without a dot that does not begin
-- with n or b, a block from 1 whose Bitcoin block and a position from 1 that an int64 holds, the
-- code that Encode prints for them, and where Sscanf reads the printed position back, parseDNNName
-- reads the first three notations that generateAlternateNotations prints, the DNN block, the
-- Bitcoin block and the code, as the name, the block and the position.
pub parse_dnn_name-generate_alternate_notations :
    (e : Encoder) (scan : Bytes → Option ℤ) (name code : Bytes) (n q g : ℕ)
    → e.genesis_block ≡ pos g
    → IsEncoder e
    → Lacks b'.' name
    → starts_id name ≡ false
    → 1 ≤ n
    → n + g ≤ max_int64
    → 1 ≤ q
    → q ≤ max_int64
    → scan (format_int (pos q)) ≡ some (pos q)
    → encode e (pos n) (pos q) ≡ ok code
    → All
        (λ notation. parse_dnn_name e g scan notation ≡ ok (named_block name (pos n) (pos q)))
        (take 3 (generate_alternate_notations e name (pos n) (pos q) code))
unfolding generate_alternate_notations
parse_dnn_name-generate_alternate_notations e scan name code n q g start v l plain block h one k
      scanned printed =
    (
      Reads-format_dnn_block e scan name n q g start l plain block h scanned,
      (
        Reads-format_bitcoin_block e scan name n q g start l plain block h scanned,
        (Reads-encode e scan name n q g start l plain block h code v one k printed, tt),
      ),
    )
