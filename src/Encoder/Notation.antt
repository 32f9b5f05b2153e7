-- ===== src/Encoder/Notation.antt =====
-- internal/encoder/encoder.go: the textual notations of a block and a position.
-- `expandShorthand` ranges over a Go map, whose order is not specified: the order is a parameter.
pub mod Suffix
pub mod Shorthand
pub mod Ambiguity
pub mod Blocks
pub mod RoundTrip
use dnn_node.Base.{
  ℕ, ◌+◌, ◌^◌, Bool, true, false, ◌&&◌, List, [], ◌∷◌, ◌++◌, Option, none, some, Result, ok, err,
  panic, ◌>>=◌, or_err, ltb, ◌==◌, if◌then◌else◌, length, is_nil,
}
use dnn_node.Base.Bytes.{Bytes, codes, bytes_eq, has_prefix, has_suffix, trim_suffix, split, join}
use dnn_node.Base.Int.{ℤ, pos, negsuc, max_int64, ◌+ℤ◌, ◌-ℤ◌, ◌*ℤ◌, ltb_ℤ}
use dnn_node.Base.Decimal.{format_int, parse_int}
use dnn_node.Encoder.{Encoder, decode}

pub data NotationError : Type 0 where
  invalid_notation unrecognized_format invalid_block_position before_genesis : NotationError

-- The map literal of `expandShorthand`.
abbrev pub multipliers : List (Bytes × ℕ)
multipliers =
    (codes "h", 100)
    ∷ (codes "k", 1000)
    ∷ (codes "m", 1000000)
    ∷ (codes "b", 1000000000)
    ∷ (codes "t", 1000000000000)
    ∷ (codes "qd", 1000000000000000)
    ∷ (codes "qt", 1000000000000000000)
    ∷ []

abbrev pub value_or_zero : Option ℤ → ℤ
value_or_zero none = pos 0
value_or_zero (some n) = n

-- The body of the loop at a suffix that matches.
pub scaled : Bytes → ℕ → ℤ
scaled num_str mult = elim (parse_int (if is_nil num_str then codes "1" else num_str)) [
  | none ↦ pos 0
  | some num ↦ num *ℤ pos mult
]

pub expand_suffix : List (Bytes × ℕ) → Bytes → Option ℤ
expand_suffix [] s = none
expand_suffix ((suffix, mult) ∷ order) s =
    if has_suffix s suffix then some (scaled (trim_suffix s suffix) mult) else expand_suffix order s

-- What follows the loop.
abbrev pub or_plain : Bytes → Option ℤ → ℤ
or_plain s (some v) = v
or_plain s none = value_or_zero (parse_int s)

unfoldable pub expand_shorthand : List (Bytes × ℕ) → Bytes → ℤ
unfolding expand_suffix scaled
expand_shorthand order s =
    if has_suffix s (codes "sp")
    then pos max_int64
    else if has_suffix s (codes "o")
    then pos max_int64
    else or_plain s (expand_suffix order s)

-- The optional position: the part behind the first dot.
pub block_position : List Bytes → Result NotationError ℤ
block_position [] = ok (pos 1)
block_position (p ∷ parts) = or_err (parse_int p) invalid_block_position

-- `prefix == "b"`: a Bitcoin block is counted from the genesis block.
pub to_dnn_block : Encoder → ℕ → ℤ → Result NotationError ℤ
to_dnn_block e prefix block_num =
    if prefix == b'b'
    then (if ltb_ℤ (block_num -ℤ e.genesis_block) (pos 0)
        then err before_genesis
        else ok (block_num -ℤ e.genesis_block))
    else ok block_num

pub block_parts :
    Encoder → List (Bytes × ℕ) → Bytes → ℕ → List Bytes → Result NotationError (Bytes × ℤ × ℤ)
unfolding block_position to_dnn_block expand_shorthand
block_parts e order name prefix [] = panic
block_parts e order name prefix (block_str ∷ parts) = do
  position ← block_position parts
  block_num ← to_dnn_block e prefix (expand_shorthand order block_str)
  ok (name, block_num, position)

-- `notation[0:1]` of an empty text would panic.
pub parse_block_notation :
    Encoder → List (Bytes × ℕ) → Bytes → Bytes → Result NotationError (Bytes × ℤ × ℤ)
unfolding block_parts
parse_block_notation e order name [] = panic
parse_block_notation e order name (prefix ∷ rest) =
    block_parts e order name prefix (split rest b'.')

abbrev first_is : ℕ → Bytes → Bool
first_is c [] = false
first_is c (d ∷ s) = d == c

parse_remaining : Encoder → List (Bytes × ℕ) → Bytes → Bytes → Result NotationError (Bytes × ℤ × ℤ)
parse_remaining e order name remaining =
    if ltb 1 (length remaining) && first_is b'n' remaining
    then elim (decode e remaining) [
      | ok (block, position) ↦ ok (name, block, position)
      | err _ ↦ parse_block_notation e order name remaining
      | panic ↦ panic
    ]
    else if has_prefix remaining (codes "b")
    then parse_block_notation e order name remaining
    else err unrecognized_format

parse_parts : Encoder → List (Bytes × ℕ) → List Bytes → Result NotationError (Bytes × ℤ × ℤ)
parse_parts e order [] = err invalid_notation
parse_parts e order (name ∷ []) = err invalid_notation
parse_parts e order (name ∷ part ∷ parts) = parse_remaining e order name (join (part ∷ parts) b'.')

unfoldable pub parse_notation :
    Encoder → List (Bytes × ℕ) → Bytes → Result NotationError (Bytes × ℤ × ℤ)
unfolding parse_parts parse_remaining
parse_notation e order notation = parse_parts e order (split notation b'.')

abbrev pub at_position : ℕ → ℤ → ℤ → Bytes
at_position prefix block (pos n) =
    if n == 1
    then prefix ∷ format_int block
    else prefix ∷ (format_int block ++ (b'.' ∷ format_int (pos n)))
at_position prefix block (negsuc n) = prefix ∷ (format_int block ++ (b'.' ∷ format_int (negsuc n)))

unfoldable pub format_dnn_block : Encoder → ℤ → ℤ → Bytes
format_dnn_block e block_num position = at_position b'n' block_num position

unfoldable pub format_bitcoin_block : Encoder → ℤ → ℤ → Bytes
format_bitcoin_block e block_num position = at_position b'b' (block_num +ℤ e.genesis_block) position
