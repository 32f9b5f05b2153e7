-- ===== src/Encoder/Notation/Ambiguity.antt =====
-- A number with the suffix `qt` also ends in `t`: here the order of the map decides.
use native.Mathlib.Nat.{zero-add}
use dnn_node.Base.{
  ℕ, suc, ◌+◌, ◌-◌, ◌*◌, ◌%◌, ◌^◌, ◌≤◌, ◌<◌, ◌≡◌, refl, ap, ◌∙◌, ◌≢◌, true, false, List, [], ◌∷◌,
  ◌++◌, append-nil, none, some, arith, length, length-append, take, drop,
}
use dnn_node.Base.Bytes.{Bytes, codes, bytes_eq, has_suffix, trim_suffix}
use dnn_node.Base.Int.{ℤ, pos, max_int64, ◌*ℤ◌, signed, bits}
use dnn_node.Base.Decimal.{
  format_ℕ, format_ℕ-IsNumeral, parse_int, parse_int-format_ℕ, parse_int-trailing,
}
use dnn_node.Encoder.Notation.{multipliers, scaled, expand_suffix, expand_shorthand}
use dnn_node.Encoder.Notation.Suffix.{has_suffix-append}
use dnn_node.Encoder.Notation.Shorthand.{IsOrder, expand_suffix_hit, expand_suffix_miss}

abbrev pub qt_first : List (Bytes × ℕ)
qt_first =
    (codes "qt", 1000000000000000000)
    ∷ (codes "h", 100)
    ∷ (codes "k", 1000)
    ∷ (codes "m", 1000000)
    ∷ (codes "b", 1000000000)
    ∷ (codes "t", 1000000000000)
    ∷ (codes "qd", 1000000000000000)
    ∷ []

pub multipliers-IsOrder : IsOrder multipliers
multipliers-IsOrder = record {
  sound =
      ((0, refl), ((1, refl), ((2, refl), ((3, refl), ((4, refl), ((5, refl), ((6, refl), tt)))))));
  complete =
      ((0, refl), ((1, refl), ((2, refl), ((3, refl), ((4, refl), ((5, refl), ((6, refl), tt)))))));
}

pub qt_first-IsOrder : IsOrder qt_first
qt_first-IsOrder = record {
  sound =
      ((6, refl), ((0, refl), ((1, refl), ((2, refl), ((3, refl), ((4, refl), ((5, refl), tt)))))));
  complete =
      ((1, refl), ((2, refl), ((3, refl), ((4, refl), ((5, refl), ((6, refl), ((0, refl), tt)))))));
}

take-append_more {ℓ} :
    {A : Type ℓ} (xs ys : List A) (k : ℕ) → take (length xs + k) (xs ++ ys) ≡ xs ++ take k ys
take-append_more [] ys k = rw zero-add
take-append_more (x ∷ xs) ys k =
    let e : suc (length xs) + k ≡ suc (length xs + k) = omega arith in
    rw (e, take-append_more xs ys k)

-- Trimming a suffix that stands in `t`.
trim_suffix-append :
    (s t u : Bytes)
    → length u ≤ length t
    → has_suffix (s ++ t) u ≡ true
    → trim_suffix (s ++ t) u ≡ s ++ take (length t - length u) t
trim_suffix-append s t u h k =
    let size = length-append s t in
    let e : length (s ++ t) - length u ≡ length s + (length t - length u) = omega arith in
    rw (k, e, take-append_more s t (length t - length u))

scaled-none : (s : Bytes) (m : ℕ) → s ≢ [] → parse_int s ≡ none → scaled s m ≡ pos 0
unfolding scaled
scaled-none [] m k h = absurd (k refl)
scaled-none (c ∷ s) m k h = rw (h, scaled)

scaled-some : (s : Bytes) (m : ℕ) {i : ℤ} → s ≢ [] → parse_int s ≡ some i → scaled s m ≡ i *ℤ pos m
unfolding scaled
scaled-some [] m k h = absurd (k refl)
scaled-some (c ∷ s) m k h = rw (h, scaled)

append-ne-nil : (s t : Bytes) → s ≢ [] → s ++ t ≢ []
append-ne-nil [] t h = absurd (h refl)
append-ne-nil (c ∷ s) t h = λ k. cc k

module _ (n : ℕ) (h : n ≤ max_int64) where
  abbrev shorthand : Bytes
  shorthand = format_ℕ n ++ codes "qt"

  ends :
      (u : Bytes)
      → length u ≤ 2
      → has_suffix shorthand u ≡ bytes_eq (drop (2 - length u) (codes "qt")) u
  ends u k = has_suffix-append (format_ℕ n) (codes "qt") u k

  not_special :
      (order : List (Bytes × ℕ)) {v : ℤ}
      → expand_suffix order shorthand ≡ some v
      → expand_shorthand order shorthand ≡ v
  not_special order k =
      unfold expand_shorthand in
      rw (ends (codes "sp") (omega arith), ends (codes "o") (omega arith), k)

  miss :
      (u : Bytes) (m : ℕ) (order : List (Bytes × ℕ))
      → length u ≤ 2
      → bytes_eq (drop (2 - length u) (codes "qt")) u ≡ false
      → expand_suffix ((u, m) ∷ order) shorthand ≡ expand_suffix order shorthand
  miss u m order k l = expand_suffix_miss shorthand u m order (ends u k ∙ l)

  read_as_t : expand_shorthand multipliers shorthand ≡ pos 0
  read_as_t =
      let cut : trim_suffix shorthand (codes "t") ≡ format_ℕ n ++ codes "q" =
        trim_suffix-append (format_ℕ n) (codes "qt") (codes "t") (omega arith)
          (ends (codes "t") (omega arith)) in
      let (full, digits) = format_ℕ-IsNumeral n in
      not_special multipliers (
        miss (codes "h") _ _ (omega arith) refl
        ∙ miss (codes "k") _ _ (omega arith) refl
        ∙ miss (codes "m") _ _ (omega arith) refl
        ∙ miss (codes "b") _ _ (omega arith) refl
        ∙ expand_suffix_hit shorthand (codes "t") _ _ (ends (codes "t") (omega arith))
        ∙ ap some (
            ap (λ s. scaled s 1000000000000) cut
            ∙ scaled-none (format_ℕ n ++ codes "q") 1000000000000
                (append-ne-nil (format_ℕ n) _ full)
                (parse_int-trailing (format_ℕ n) b'q' (format_ℕ-IsNumeral n) refl)))

  read_as_qt : expand_shorthand qt_first shorthand ≡ pos n *ℤ pos 1000000000000000000
  read_as_qt =
      let cut : trim_suffix shorthand (codes "qt") ≡ format_ℕ n =
        trim_suffix-append (format_ℕ n) (codes "qt") (codes "qt") (omega arith)
          (ends (codes "qt") (omega arith))
        ∙ append-nil (format_ℕ n) in
      not_special qt_first (
        expand_suffix_hit shorthand (codes "qt") _ _ (ends (codes "qt") (omega arith))
        ∙ ap some (
            ap (λ s. scaled s 1000000000000000000) cut
            ∙ scaled-some (format_ℕ n) 1000000000000000000 (format_ℕ-IsNumeral n).0
                (parse_int-format_ℕ n h)))

signed_zero : (m : ℕ) → m < 2 ^ 64 → pos 0 ≡ signed m → m ≡ 0
signed_zero m h e = ground arith

differ : (n : ℕ) → n ≤ max_int64 → n % 2 ^ 46 ≢ 0 → pos 0 ≢ pos n *ℤ pos 1000000000000000000
unfolding ◌*ℤ◌
differ n h k e =
    let wrapped : n * 1000000000000000000 % 2 ^ 64 ≡ 0 =
      let zero = signed_zero (bits (pos n) * 1000000000000000000 % 2 ^ 64) (omega arith) e in
      omega (arith, zero) in
    k (omega arith)

-- A number of at most 2^63-1, not a multiple of 2^46, with the suffix qt has two values: with one
-- order of the map of suffixes it is 0, with another it is the number times 10^18 in 64 bits, and
-- this is not 0.
pub expand_shorthand_ambiguous :
    (n : ℕ)
    → n ≤ max_int64
    → n % 2 ^ 46 ≢ 0
    → (order : List (Bytes × ℕ)) × (order' : List (Bytes × ℕ)) × IsOrder order
      × IsOrder order'
      × (expand_shorthand order (format_ℕ n ++ codes "qt") ≡ pos 0)
      × (expand_shorthand order' (format_ℕ n ++ codes "qt") ≡ pos n *ℤ pos 1000000000000000000)
      × (expand_shorthand order (format_ℕ n ++ codes "qt")
          ≢ expand_shorthand order' (format_ℕ n ++ codes "qt"))
expand_shorthand_ambiguous n h k =
    let apart = differ n h k in
    (
      multipliers,
      qt_first,
      multipliers-IsOrder,
      qt_first-IsOrder,
      read_as_t n h,
      read_as_qt n h,
      rw (read_as_t n h, read_as_qt n h) apart,
    )
