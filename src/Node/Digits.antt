-- ===== src/Node/Digits.antt =====
-- What `parseBlockWithShorthand` makes of a block number without letters.
use dnn_node.Base.{
  ℕ, ◌≤◌, ◌≡◌, refl, ◌∙◌, ◌≢◌, ap, true, false, [], ◌∷◌, ◌++◌, some, ok, arith, All, any,
  append_assoc, append-nil, ◌==◌,
}
use dnn_node.Base.Bytes.{Bytes, is_letter}
use dnn_node.Base.Decimal.{IsDigit, is_digit, format_int, parse_int, parse_int-format_int}
use dnn_node.Base.Int.{ℤ, pos, max_int64, ◌+ℤ◌, +ℤ_pos}
use dnn_node.Encoder.Notation.RoundTrip.{format_int-IsNumeral}
use dnn_node.Node.{plus_rest, shorthand_loop, parse_block_with_shorthand, is_encoded_format}

digit_is_digit : (c : ℕ) → IsDigit c → is_digit c ≡ true
digit_is_digit c h = ground arith

-- Digits are collected.
shorthand_loop-digits :
    (s current_num : Bytes) (result : ℤ)
    → All IsDigit s
    → shorthand_loop s current_num result ≡ ok (plus_rest (current_num ++ s) result)
unfolding shorthand_loop
shorthand_loop-digits [] current_num result h = rw (append-nil current_num) refl
shorthand_loop-digits (c ∷ []) current_num result h = rw (digit_is_digit c h.0) refl
shorthand_loop-digits (c ∷ d ∷ s) current_num result h =
    let again = shorthand_loop-digits (d ∷ s) (current_num ++ (c ∷ [])) result h.1 in
    rw (digit_is_digit c h.0) (rw (append_assoc current_num (c ∷ []) (d ∷ s)) at again)

plus_rest-ne-nil :
    (s : Bytes) (n : ℤ) → s ≢ [] → parse_int s ≡ some n → plus_rest s (pos 0) ≡ pos 0 +ℤ n
plus_rest-ne-nil [] n h k = absurd (h refl)
plus_rest-ne-nil (c ∷ s) n h k = rw k refl

-- A block number from 1 that an int64 holds is read back, with the position 1.
pub parse_block_with_shorthand-format_int :
    (n : ℕ)
    → 1 ≤ n
    → n ≤ max_int64
    → parse_block_with_shorthand (format_int (pos n)) ≡ ok (pos n, pos 1)
unfolding parse_block_with_shorthand
parse_block_with_shorthand-format_int n h k =
    let numeral = format_int-IsNumeral n in
    let collected = shorthand_loop-digits (format_int (pos n)) [] (pos 0) numeral.1 in
    let sum : plus_rest (format_int (pos n)) (pos 0) ≡ pos n =
      plus_rest-ne-nil _ (pos n) numeral.0 (parse_int-format_int (pos n) k)
      ∙ +ℤ_pos 0 n (omega arith)
      ∙ ap pos (omega arith) in
    let positive : (n == 0) ≡ false = ground arith in rw (collected, sum, positive) refl

pub is_encoded_format-digits : (s : Bytes) → All IsDigit s → is_encoded_format s ≡ false
unfolding is_encoded_format
is_encoded_format-digits [] h = refl
is_encoded_format-digits (c ∷ s) h =
    let none_behind : any is_letter s ≡ false = is_encoded_format-digits s h.1 in ground arith
