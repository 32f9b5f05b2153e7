-- ===== src/Resolver/Input.antt =====
-- internal/resolver/resolver.go: the forms of a name that `parseInput` reads, and those that
-- `generateAlternateNotations` prints.
pub mod RoundTrip
use dnn_node.Base.{
  ℕ, ◌+◌, Bool, true, false, not, List, [], ◌∷◌, ◌++◌, map, Option, none, some, Result, ok, err,
  panic, ◌==◌, if◌then◌else◌,
}
use dnn_node.Base.Bytes.{Bytes, codes, contains, trim_prefix, split, join}
use dnn_node.Base.Int.{ℤ, pos, ◌+ℤ◌}
use dnn_node.Base.Decimal.{format_int}
use dnn_node.Encoder.{Encoder, decode}
use dnn_node.Encoder.Notation.{
  NotationError, parse_notation, format_dnn_block, format_bitcoin_block,
}

-- What `GetAnchorByName` is asked for: a name, a block if the input has one, and a position.
pub record Query : Type 0 where
  pub name : Bytes
  pub block_num : Option ℤ
  pub position : ℤ

-- `none` is a run-time panic of the parser.
pub data ParsedInput : Type 0 where
  query : Query → ParsedInput
  invalid_format parse_panic : ParsedInput

abbrev pub plain_name : Bytes → ParsedInput
plain_name input = query (record { name = input; block_num = none; position = pos 1 })

abbrev pub at_block : Bytes → ℤ → ℤ → ParsedInput
at_block name block position =
    query (record { name = name; block_num = some block; position = position })

-- The block notation, or else the whole text as a name.
abbrev pub block_or_plain : Bytes → Result NotationError (Bytes × ℤ × ℤ) → ParsedInput
block_or_plain input (ok (name, block, position)) = at_block name block position
block_or_plain input (err _) = plain_name input
block_or_plain input panic = parse_panic

unfoldable pub parse_block : Encoder → List (Bytes × ℕ) → Bytes → ParsedInput
parse_block e order input = block_or_plain input (parse_notation e order input)

-- `strings.SplitN(input, ".", 2)` gives the text before the first dot and all behind it.
unfoldable pub parse_split : Encoder → List (Bytes × ℕ) → Bytes → List Bytes → ParsedInput
unfolding parse_block
parse_split e order input [] = invalid_format
parse_split e order input (name ∷ []) = invalid_format
parse_split e order input (name ∷ part ∷ parts) =
    let notation = join (part ∷ parts) b'.' in
    let fallback = parse_block e order input in
    if contains notation (codes "-")
    then elim (decode e notation) [
      | ok (block, position) ↦ at_block name block position
      | err _ ↦ fallback
      | panic ↦ parse_panic
    ]
    else fallback

unfoldable pub trim_protocol : Bytes → Bytes
trim_protocol input =
    trim_prefix (trim_prefix (trim_prefix input (codes "dnn://")) (codes "https://"))
      (codes "http://")

unfoldable pub parse_trimmed : Encoder → List (Bytes × ℕ) → Bytes → ParsedInput
unfolding parse_split
parse_trimmed e order input =
    if not (contains input (codes "."))
    then plain_name input
    else parse_split e order input (split input b'.')

unfoldable pub parse_input : Encoder → List (Bytes × ℕ) → Bytes → ParsedInput
unfolding trim_protocol parse_trimmed
parse_input e order input = parse_trimmed e order (trim_protocol input)

-- `fmt.Sprintf("%s.%s", name, notation)`
abbrev pub dotted : Bytes → Bytes → Bytes
dotted name notation = name ++ (b'.' ∷ notation)

abbrev pub is_first : ℤ → Bool
is_first (pos n) = n == 1
is_first _ = false

unfoldable pub generate_alternate_notations : Encoder → Bytes → ℤ → ℤ → Bytes → List Bytes
generate_alternate_notations e name dnn_block position encoded =
    dotted name (format_dnn_block e dnn_block position)
    ∷ dotted name (format_bitcoin_block e dnn_block position)
    ∷ dotted name encoded
    ∷ (if is_first position
        then dotted name (b'n' ∷ format_int dnn_block)
          ∷ dotted name (b'b' ∷ format_int (dnn_block +ℤ pos 1000000))
          ∷ []
        else [])
