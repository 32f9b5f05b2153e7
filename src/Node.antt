-- ===== src/Node.antt =====
-- internal/node/node.go: `parseDNNName`, which reads the names that the HTTP interface is asked for.
-- `fmt.Sscanf` with "%d" on a part of the input is a parameter.
pub mod Digits
pub mod Names
pub mod Refused
mod Tests
use dnn_node.Base.{
  ℕ, Bool, true, false, not, ◌&&◌, ◌||◌, List, [], ◌∷◌, ◌++◌, Option, none, some, Result, ok, err,
  panic, ◌>>=◌, ◌>>◌, fail_if, or_err, ◌==◌, if◌then◌else◌, is_nil, any,
}
use dnn_node.Base.Bytes.{Bytes, codes, is_letter, contains, split}
use dnn_node.Base.Decimal.{is_digit, parse_int}
use dnn_node.Base.Dict.{Dict, lookup}
use dnn_node.Base.Int.{ℤ, pos, ◌+ℤ◌, ◌-ℤ◌, ◌*ℤ◌, eqb_ℤ}
use dnn_node.Encoder.{Encoder, DecodeError, decode}

pub data ParseError : Type 0 where
  invalid_encoded invalid_shorthand invalid_block_number invalid_position : ParseError
  invalid_name_format : ParseError

-- No block and no position is the latest anchor of the name.
pub record DnnName : Type 0 where
  pub name : Bytes
  pub block_num : Option ℤ
  pub position : Option ℤ

abbrev pub shorthand_multipliers : Dict ℕ
shorthand_multipliers =
    (codes "h", 100)
    ∷ (codes "k", 1000)
    ∷ (codes "m", 1000000)
    ∷ (codes "b", 1000000000)
    ∷ (codes "t", 1000000000000)
    ∷ (codes "qd", 1000000000000000)
    ∷ (codes "qt", 1000000000000000000)
    ∷ []

-- What Sscanf leaves of digits: a number out of range leaves the 0.
abbrev pub scanned : Option ℤ → ℤ
scanned none = pos 0
scanned (some n) = n

-- The number before a letter; without digits it is 1.
abbrev pub number_before : Bytes → ℤ
number_before current_num = if is_nil current_num then pos 1 else scanned (parse_int current_num)

abbrev pub plus_rest : Bytes → ℤ → ℤ
plus_rest current_num result =
    if is_nil current_num then result else result +ℤ scanned (parse_int current_num)

-- A multiplier of two letters is tried before one of one letter.
abbrev pub multiply :
    Option ℕ
    → Option ℕ
    → ℤ
    → ℤ
    → (ℤ → Result ParseError ℤ)
    → (ℤ → Result ParseError ℤ)
    → Result ParseError ℤ
multiply (some mult) one num result after_two after_one = after_two (result +ℤ num *ℤ pos mult)
multiply none (some mult) num result after_two after_one = after_one (result +ℤ num *ℤ pos mult)
multiply none none num result after_two after_one = err invalid_shorthand

unfoldable pub shorthand_loop : Bytes → Bytes → ℤ → Result ParseError ℤ
shorthand_loop [] current_num result = ok (plus_rest current_num result)
shorthand_loop (c ∷ []) current_num result =
    if is_digit c
    then ok (plus_rest (current_num ++ (c ∷ [])) result)
    else multiply none (lookup (c ∷ []) shorthand_multipliers) (number_before current_num) result
        (λ r. ok r) (λ r. ok r)
shorthand_loop (c ∷ d ∷ s) current_num result =
    let further = shorthand_loop (d ∷ s) (current_num ++ (c ∷ [])) result in
    let after_two : ℤ → Result ParseError ℤ = λ r. shorthand_loop s [] r in
    let after_one : ℤ → Result ParseError ℤ = λ r. shorthand_loop (d ∷ s) [] r in
    if is_digit c
    then further
    else multiply (lookup (c ∷ d ∷ []) shorthand_multipliers)
        (lookup (c ∷ []) shorthand_multipliers) (number_before current_num) result after_two
        after_one

-- The block; the position is always 1.
unfoldable pub parse_block_with_shorthand : Bytes → Result ParseError (ℤ × ℤ)
unfolding shorthand_loop
parse_block_with_shorthand block_str = do
  result ← shorthand_loop block_str [] (pos 0)
  fail_if (eqb_ℤ result (pos 0)) invalid_block_number
  ok (result, pos 1)

unfoldable pub is_encoded_format : Bytes → Bool
is_encoded_format s = any is_letter s

abbrev pub is_id_start : ℕ → Bool
is_id_start c = c == b'n' || c == b'b'

-- A Bitcoin block is counted from the genesis block.
abbrev pub from_genesis : ℕ → ℕ → ℤ → ℤ
from_genesis genesis_block prefix block =
    if prefix == b'b' then block -ℤ pos genesis_block else block

abbrev pub latest : Bytes → DnnName
latest name = record { name = name; block_num = none; position = none }

abbrev pub named_block : Bytes → ℤ → ℤ → DnnName
named_block name block position = record {
  name = name;
  block_num = some block;
  position = some position;
}

abbrev pub decoded_as : Bytes → Result DecodeError (ℤ × ℤ) → Result ParseError DnnName
decoded_as name (ok (block, position)) = ok (named_block name block position)
decoded_as name (err _) = err invalid_encoded
decoded_as name panic = panic

-- The whole input, which has no dot.
unfoldable pub parse_undotted : Encoder → ℕ → Bytes → Result ParseError DnnName
unfolding parse_block_with_shorthand is_encoded_format
parse_undotted e genesis_block [] = ok (latest [])
parse_undotted e genesis_block (c ∷ s) =
    if is_id_start c
    then (if is_encoded_format s
        then decoded_as [] (decode e (c ∷ s))
        else parse_block_with_shorthand s >>= λ r.
            ok (named_block [] (from_genesis genesis_block c r.0) r.1))
    else ok (latest (c ∷ s))

-- The second part of an ID without a name, if it is a number.
abbrev pub second_or : (Bytes → Option ℤ) → List Bytes → ℤ → ℤ
second_or scan [] position = position
second_or scan (q ∷ parts) position = elim (scan q) [ none ↦ position | some p ↦ p ]

-- The third part, where there are three.
abbrev pub third_or : (Bytes → Option ℤ) → List Bytes → ℤ → Result ParseError ℤ
third_or scan (q ∷ []) position = or_err (scan q) invalid_position
third_or scan _ position = ok position

unfoldable pub parse_named :
    Encoder → ℕ → (Bytes → Option ℤ) → Bytes → List Bytes → Result ParseError DnnName
unfolding parse_block_with_shorthand is_encoded_format
parse_named e genesis_block scan name [] = ok (latest name)
parse_named e genesis_block scan name ([] ∷ parts) = panic
parse_named e genesis_block scan name ((c ∷ s) ∷ parts) =
    if c == b'n' && is_encoded_format s
    then decoded_as name (decode e (c ∷ s))
    else if is_id_start c
    then (parse_block_with_shorthand s >>= λ r.
        third_or scan parts r.1 >>= λ p. ok (named_block name (from_genesis genesis_block c r.0) p))
    else err invalid_name_format

unfoldable pub parse_dotted :
    Encoder → ℕ → (Bytes → Option ℤ) → List Bytes → Result ParseError DnnName
unfolding parse_named
parse_dotted e genesis_block scan [] = panic
parse_dotted e genesis_block scan ([] ∷ parts) = parse_named e genesis_block scan [] parts
parse_dotted e genesis_block scan ((c ∷ s) ∷ parts) =
    if is_id_start c
    then (parse_block_with_shorthand s >>= λ r.
        ok (named_block [] (from_genesis genesis_block c r.0) (second_or scan parts r.1)))
    else parse_named e genesis_block scan (c ∷ s) parts

unfoldable pub parse_dnn_name : Encoder → ℕ → (Bytes → Option ℤ) → Bytes → Result ParseError DnnName
unfolding parse_undotted parse_dotted
parse_dnn_name e genesis_block scan full_name =
    if not (contains full_name (codes "."))
    then parse_undotted e genesis_block full_name
    else parse_dotted e genesis_block scan (split full_name b'.')
