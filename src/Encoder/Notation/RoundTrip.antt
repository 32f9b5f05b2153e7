-- ===== src/Encoder/Notation/RoundTrip.antt =====
-- `ParseNotation` reads what `FormatDNNBlock`, `FormatBitcoinBlock` and `Encode` print.
use dnn_node.Base.{
  ℕ, ◌+◌, ◌≤◌, ◌<◌, ◌≡◌, refl, ap, ◌∙◌, ◌≢◌, false, List, [], ◌∷◌, ◌++◌, append-nil, ok, err, arith,
  ◌==◌, ==_iff, Bool-cases, inl, inr,
}
use dnn_node.Base.Bytes.{Bytes, split, join, Lacks, split-append, split_cases, join-split}
use dnn_node.Base.Int.{ℤ, pos, negsuc, max_int64, ◌+ℤ◌, ◌-ℤ◌, +ℤ_pos, -ℤ_pos}
use dnn_node.Base.Decimal.{format_int, format_ℕ-IsNumeral, IsInt64, IsNumeral}
use dnn_node.Encoder.{Encoder, encode, decode, first_word, no_word, not_a_code}
use dnn_node.Encoder.Apart.{IsWordlist}
use dnn_node.Encoder.Matching.{match_bip39_word-no_word}
use dnn_node.Encoder.RoundTrip.{IsEncoder, decode-encode-IsEncoder}
use dnn_node.Encoder.Notation.{
  to_dnn_block, parse_block_notation, parse_remaining, parse_parts, parse_notation, at_position,
  format_dnn_block, format_bitcoin_block,
}
use dnn_node.Encoder.Notation.Blocks.{parse_block_notation-at_position}
use dnn_node.Encoder.Notation.Shorthand.{IsOrder}

parse_parts-cons :
    (e : Encoder) (order : List (Bytes × ℕ)) (name p : Bytes) (ps : List Bytes)
    → parse_parts e order (name ∷ p ∷ ps) ≡ parse_remaining e order name (join (p ∷ ps) b'.')
unfolding parse_parts
parse_parts-cons e order name p ps = refl

parse_notation-split :
    (e : Encoder) (order : List (Bytes × ℕ)) (s : Bytes)
    → parse_notation e order s ≡ parse_parts e order (split s b'.')
unfolding parse_notation
parse_notation-split e order s = refl

-- The name ends at the first dot.
parse_notation-append :
    (e : Encoder) (order : List (Bytes × ℕ)) (name s : Bytes)
    → Lacks b'.' name
    → parse_notation e order (name ++ (b'.' ∷ s)) ≡ parse_remaining e order name s
parse_notation-append e order name s h =
    let (p, ps, parts) = split_cases s b'.' in
    let whole : join (p ∷ ps) b'.' ≡ s = rw parts at (join-split s b'.') in
    rw (
      parse_notation-split e order (name ++ (b'.' ∷ s)),
      split-append name s b'.' h,
      parts,
      parse_parts-cons e order name p ps,
      whole,
    )

pub decode-digit :
    (e : Encoder) (c : ℕ) (s : Bytes)
    → IsWordlist e.wordlist
    → c < b'a'
    → decode e (b'n' ∷ c ∷ s) ≡ err (first_word no_word)
unfolding decode
decode-digit e c s v h = rw (match_bip39_word-no_word e.wordlist c s v h)

pub format_int-IsNumeral : (n : ℕ) → IsNumeral (format_int (pos n))
unfolding format_int
format_int-IsNumeral = format_ℕ-IsNumeral

remaining_n :
    (e : Encoder) (order : List (Bytes × ℕ)) (name s : Bytes)
    → IsWordlist e.wordlist
    → IsNumeral s
    → (t : Bytes)
    → parse_remaining e order name (b'n' ∷ (s ++ t))
      ≡ parse_block_notation e order name (b'n' ∷ (s ++ t))
unfolding parse_remaining
remaining_n e order name [] v h t = absurd (h.0 refl)
remaining_n e order name (c ∷ s) v h t =
    rw (decode-digit e c (s ++ t) v (omega arith)) (ground arith)

remaining_b :
    (e : Encoder) (order : List (Bytes × ℕ)) (name s : Bytes)
    → parse_remaining e order name (b'b' ∷ s) ≡ parse_block_notation e order name (b'b' ∷ s)
unfolding parse_remaining
remaining_b e order name s = ground arith

remaining_decoded :
    (e : Encoder) (order : List (Bytes × ℕ)) (name s : Bytes) {b p : ℤ}
    → decode e (b'n' ∷ s) ≡ ok (b, p)
    → s ≢ []
    → parse_remaining e order name (b'n' ∷ s) ≡ ok (name, b, p)
unfolding parse_remaining
remaining_decoded e order name [] h k = absurd (k refl)
remaining_decoded e order name (c ∷ s) h k = rw h (ground arith)

remaining-at_position :
    (e : Encoder) (order : List (Bytes × ℕ)) (name : Bytes) (n : ℕ) (p : ℤ)
    → IsWordlist e.wordlist
    → parse_remaining e order name (at_position b'n' (pos n) p)
      ≡ parse_block_notation e order name (at_position b'n' (pos n) p)
remaining-at_position e order name n (pos q) v = elim (Bool-cases (q == 1)) [
  | inl one ↦ rw one (
      rw (append-nil (format_int (pos n))) at
        (remaining_n e order name (format_int (pos n)) v (format_int-IsNumeral n) []))
  | inr other ↦ rw other (remaining_n e order name _ v (format_int-IsNumeral n) _)
]
remaining-at_position e order name n (negsuc q) v =
    remaining_n e order name _ v (format_int-IsNumeral n) _

-- For a well-formed encoder and every order of the map of suffixes, ParseNotation reads a name
-- without a dot and what FormatDNNBlock prints for a block from 0 and a position, which an int64
-- holds, back as the name, the block and the position.
pub parse_notation-format_dnn_block :
    (e : Encoder) (order : List (Bytes × ℕ)) (name : Bytes) (n : ℕ) (p : ℤ)
    → IsEncoder e
    → IsOrder order
    → Lacks b'.' name
    → n ≤ max_int64
    → IsInt64 p
    → parse_notation e order (name ++ (b'.' ∷ format_dnn_block e (pos n) p)) ≡ ok (name, pos n, p)
parse_notation-format_dnn_block e order name n p v o l h k =
    unfold format_dnn_block in
    (parse_notation-append e order name _ l
      ∙ remaining-at_position e order name n p v.list
      ∙ parse_block_notation-at_position e order o name b'n' n h p k
      ∙ unfold to_dnn_block in refl)

remaining_b-at_position :
    (e : Encoder) (order : List (Bytes × ℕ)) (name : Bytes) (n : ℕ) (p : ℤ)
    → parse_remaining e order name (at_position b'b' (pos n) p)
      ≡ parse_block_notation e order name (at_position b'b' (pos n) p)
remaining_b-at_position e order name n (pos q) = elim (Bool-cases (q == 1)) [
  | inl one ↦ rw one (remaining_b e order name (format_int (pos n)))
  | inr other ↦ rw other (remaining_b e order name _)
]
remaining_b-at_position e order name n (negsuc q) = remaining_b e order name _

-- The Bitcoin block of a DNN block, which an int64 holds.
pub bitcoin_block_lem :
    (e : Encoder) (n g : ℕ)
    → e.genesis_block ≡ pos g
    → n + g ≤ max_int64
    → pos n +ℤ e.genesis_block ≡ pos (n + g)
bitcoin_block_lem e n g start h = ap (λ x. pos n +ℤ x) start ∙ +ℤ_pos n g h

to_dnn_block-b :
    (e : Encoder) (n g : ℕ)
    → e.genesis_block ≡ pos g
    → n + g ≤ max_int64
    → to_dnn_block e b'b' (pos (n + g)) ≡ ok (pos n)
unfolding to_dnn_block
to_dnn_block-b e n g start h =
    let back : pos (n + g) -ℤ e.genesis_block ≡ pos n =
      ap (λ x. pos (n + g) -ℤ x) start ∙ -ℤ_pos (n + g) g (omega arith) h ∙ ap pos (omega arith) in
    rw back (ground arith)

-- A Bitcoin block from the genesis block on, `name.b…`, is read as its DNN block.
pub parse_notation-at_bitcoin_block :
    (e : Encoder) (order : List (Bytes × ℕ)) (name : Bytes) (n g : ℕ) (p : ℤ)
    → e.genesis_block ≡ pos g
    → IsOrder order
    → Lacks b'.' name
    → n + g ≤ max_int64
    → IsInt64 p
    → parse_notation e order (name ++ (b'.' ∷ at_position b'b' (pos (n + g)) p))
      ≡ ok (name, pos n, p)
parse_notation-at_bitcoin_block e order name n g p start o l h k =
    parse_notation-append e order name _ l
    ∙ remaining_b-at_position e order name (n + g) p
    ∙ parse_block_notation-at_position e order o name b'b' (n + g) h p k
    ∙ rw (to_dnn_block-b e n g start h)

-- For every order of the map of suffixes and a genesis block from 0, ParseNotation reads a name
-- without a dot and what FormatBitcoinBlock prints for a block from 0 and a position that an int64
-- holds back as the name, the block and the position, where the Bitcoin block is at most 2^63-1.
pub parse_notation-format_bitcoin_block :
    (e : Encoder) (order : List (Bytes × ℕ)) (name : Bytes) (n g : ℕ) (p : ℤ)
    → e.genesis_block ≡ pos g
    → IsOrder order
    → Lacks b'.' name
    → n + g ≤ max_int64
    → IsInt64 p
    → parse_notation e order (name ++ (b'.' ∷ format_bitcoin_block e (pos n) p))
      ≡ ok (name, pos n, p)
unfolding format_bitcoin_block
parse_notation-format_bitcoin_block e order name n g p start o l h k =
    rw (bitcoin_block_lem e n g start h)
      (parse_notation-at_bitcoin_block e order name n g p start o l h k)

pub decode-not_n :
    (e : Encoder) (c d : ℕ) (t : Bytes)
    → (c == b'n') ≡ false
    → decode e (c ∷ d ∷ t) ≡ err not_a_code
unfolding decode
decode-not_n e c d t k = rw (k, decode) refl

not_n :
    (e : Encoder) (c d : ℕ) (t : Bytes) {x : ℤ × ℤ}
    → (c == b'n') ≡ false
    → decode e (c ∷ d ∷ t) ≡ ok x
    → ⊥
unfolding decode
not_n e c d t k h = let f : decode e (c ∷ d ∷ t) ≡ err not_a_code = rw (k, decode) in cc

decode-shape :
    (e : Encoder) (s : Bytes) {x : ℤ × ℤ}
    → decode e s ≡ ok x
    → (t : Bytes) × (s ≡ b'n' ∷ t) × (t ≢ [])
unfolding decode
decode-shape e [] h = absurd (cc)
decode-shape e (c ∷ []) h = absurd (cc)
decode-shape e (c ∷ d ∷ t) h = elim (Bool-cases (c == b'n')) [
  | inl k ↦ (d ∷ t, ap (λ a. a ∷ d ∷ t) ((==_iff c b'n').0 k), λ z. cc z)
  | inr k ↦ absurd (not_n e c d t k h)
]

-- For a well-formed encoder, ParseNotation reads a name without a dot and the code that Encode
-- prints for a block and a position from 1, which an int holds, back as the name, the block and the
-- position.
pub parse_notation-encode :
    (e : Encoder) (order : List (Bytes × ℕ)) (name : Bytes) (n p : ℕ) (s : Bytes)
    → IsEncoder e
    → Lacks b'.' name
    → n ≤ max_int64
    → 1 ≤ p
    → p ≤ max_int64
    → encode e (pos n) (pos p) ≡ ok s
    → parse_notation e order (name ++ (b'.' ∷ s)) ≡ ok (name, pos n, pos p)
parse_notation-encode e order name n p s v l h k m printed =
    let (s', printed', back) = decode-encode-IsEncoder e n p v h k m in
    let same : s' ≡ s = cc in
    let decoded : decode e s ≡ ok (pos n, pos p) = rw same at back in
    let (t, shape, full) = decode-shape e s decoded in
    parse_notation-append e order name s l
    ∙ rw shape (remaining_decoded e order name t (rw shape at decoded) full)
