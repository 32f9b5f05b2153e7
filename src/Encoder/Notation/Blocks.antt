-- ===== src/Encoder/Notation/Blocks.antt =====
-- Numbers and block notations: what `expandShorthand` and `parseBlockNotation` make of printed ones.
use mathlib.Core.Bool.{and-eq-true_iff}
use dnn_node.Base.{
  ℕ, zero, suc, ◌-◌, ◌≤◌, ◌≡◌, refl, true, false, not, List, [], ◌∷◌, ◌++◌, Result, ok, ◌>>=◌,
  arith, ◌==◌, ==_iff, Bool-cases, inl, inr, length, drop, any, all, All,
}
use dnn_node.Base.Bytes.{Bytes, codes, has_suffix, split, Lacks, split-Lacks, split-append}
use dnn_node.Base.Int.{ℤ, pos, negsuc, max_int64}
use dnn_node.Base.Decimal.{
  IsDigit, is_digit, format_ℕ, format_int, format_ℕ-IsNumeral, parse_int-format_ℕ,
  parse_int-format_int, IsInt64,
}
use dnn_node.Encoder.{Encoder}
use dnn_node.Encoder.Notation.{
  NotationError, multipliers, expand_shorthand, block_position, to_dnn_block, block_parts,
  parse_block_notation, at_position,
}
use dnn_node.Encoder.Notation.Suffix.{has_suffix-drop}
use dnn_node.Encoder.Notation.Shorthand.{IsOrder, none_in_order, expand_suffix-none}

digits-any : (s : Bytes) → All IsDigit s → any (λ c. not (is_digit c)) s ≡ false
digits-any [] h = refl
digits-any (c ∷ s) h = ground (arith, digits-any s h.1)

drop-All : (k : ℕ) (s : Bytes) → All IsDigit s → All IsDigit (drop k s)
drop-All zero s h = h
drop-All (suc k) [] h = tt
drop-All (suc k) (c ∷ s) h = drop-All k s h.1

-- A text of digits has no suffix with another character.
has_suffix-digits :
    (s t : Bytes) → All IsDigit s → any (λ c. not (is_digit c)) t ≡ true → has_suffix s t ≡ false
has_suffix-digits s t h k = elim (Bool-cases (has_suffix s t)) [
  | inl e ↦
      let tail : All IsDigit t =
        rw (has_suffix-drop s t e).1 at (drop-All (length s - length t) s h) in
      let none_there : any (λ c. not (is_digit c)) t ≡ false = digits-any t tail in cc
  | inr e ↦ e
]

table-digits :
    (s : Bytes) (table : List (Bytes × ℕ))
    → All IsDigit s
    → all (λ x. any (λ c. not (is_digit c)) x.0) table ≡ true
    → All (λ x. has_suffix s x.0 ≡ false) table
table-digits s [] h k = tt
table-digits s ((u, m) ∷ table) h k =
    let (first, rest) = (and-eq-true_iff _ _).0 k in
    (has_suffix-digits s u h first, table-digits s table h rest)

-- A plain number stands for itself.
pub expand_shorthand-format_ℕ :
    (order : List (Bytes × ℕ)) (n : ℕ)
    → IsOrder order
    → n ≤ max_int64
    → expand_shorthand order (format_ℕ n) ≡ pos n
expand_shorthand-format_ℕ order n o h =
    let digits = (format_ℕ-IsNumeral n).1 in
    let s = format_ℕ n in
    unfold expand_shorthand in
    rw (
      has_suffix-digits s (codes "sp") digits refl,
      has_suffix-digits s (codes "o") digits refl,
      expand_suffix-none s order
          (none_in_order s order (table-digits s multipliers digits refl) o.sound),
      parse_int-format_ℕ n h,
    )

digits-Lacks : (s : Bytes) → All IsDigit s → Lacks b'.' s
digits-Lacks [] h = tt
digits-Lacks (c ∷ s) h = (omega arith, digits-Lacks s h.1)

format_int-Lacks : (i : ℤ) → Lacks b'.' (format_int i)
unfolding format_int
format_int-Lacks (pos n) = digits-Lacks _ (format_ℕ-IsNumeral n).1
format_int-Lacks (negsuc n) = (omega arith, digits-Lacks _ (format_ℕ-IsNumeral (suc n)).1)

split-format_int : (i : ℤ) → split (format_int i) b'.' ≡ format_int i ∷ []
split-format_int i = split-Lacks (format_int i) b'.' (format_int-Lacks i)

expand_shorthand-format_int :
    (order : List (Bytes × ℕ)) (n : ℕ)
    → IsOrder order
    → n ≤ max_int64
    → expand_shorthand order (format_int (pos n)) ≡ pos n
unfolding format_int
expand_shorthand-format_int = expand_shorthand-format_ℕ

abbrev Parsed : Type 0
Parsed = Result NotationError (Bytes × ℤ × ℤ)

module _ (e : Encoder) (order : List (Bytes × ℕ)) (o : IsOrder order) (name : Bytes) (prefix n : ℕ)
    (h : n ≤ max_int64) where
  abbrev reading : ℤ → Parsed
  reading p = to_dnn_block e prefix (pos n) >>= λ b. ok (name, b, p)

  block_alone : parse_block_notation e order name (prefix ∷ format_int (pos n)) ≡ reading (pos 1)
  unfolding parse_block_notation block_parts block_position
  block_alone = rw (split-format_int (pos n), expand_shorthand-format_int order n o h)

  block_with_position :
      (p : ℤ)
      → IsInt64 p
      → parse_block_notation e order name (prefix ∷ (format_int (pos n) ++ (b'.' ∷ format_int p)))
        ≡ reading p
  unfolding parse_block_notation block_parts block_position
  block_with_position p k = rw (
    split-append (format_int (pos n)) (format_int p) b'.' (format_int-Lacks (pos n)),
    split-format_int p,
    parse_int-format_int p k,
    expand_shorthand-format_int order n o h,
  )

  pub parse_block_notation-at_position :
      (p : ℤ)
      → IsInt64 p
      → parse_block_notation e order name (at_position prefix (pos n) p) ≡ reading p
  parse_block_notation-at_position (pos q) k = elim (Bool-cases (q == 1)) [
    | inl one ↦ rw (one, (==_iff q 1).0 one) block_alone
    | inr other ↦ rw other (block_with_position (pos q) k)
  ]
  parse_block_notation-at_position (negsuc q) k = block_with_position (negsuc q) k
