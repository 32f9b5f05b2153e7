-- ===== src/Encoder/Notation/Shorthand.antt =====
-- `expandShorthand` and the order in which Go walks its map of suffixes.
use mathlib.Core.Bool.{and-eq-true_iff}
use dnn_node.Base.{
  ℕ, zero, suc, ◌≡◌, refl, ◌∙◌, ◌⊎◌, inl, inr, Bool, true, false, not, ◌&&◌, ◌||◌, List, [], ◌∷◌,
  Option, none, some, arith, ◌==◌, ==_iff, Bool-cases, get_elem?, all, All, All-get_elem?,
}
use dnn_node.Base.Bytes.{Bytes, codes, bytes_eq, bytes_eq_sound, has_suffix, trim_suffix}
use dnn_node.Base.Int.{ℤ}
use dnn_node.Encoder.Notation.Suffix.{related}
use dnn_node.Encoder.Notation.{multipliers, scaled, expand_suffix, expand_shorthand}

abbrev pub Occurs {ℓ} : {A : Type ℓ} → A → List A → Type ℓ
Occurs x xs = (i : ℕ) × (get_elem? xs i ≡ some x)

-- An order in which a `range` loop may walk the map: its entries, and nothing else.
pub record IsOrder (order : List (Bytes × ℕ)) : Type 0 where
  pub sound : All (λ x. Occurs x multipliers) order
  pub complete : All (λ x. Occurs x order) multipliers

-- Two entries are one, or no text ends with both of their suffixes, or one of them is `qt`.
exclusive : Bytes × ℕ → Bytes × ℕ → Bool
exclusive (u, m) (v, n) =
    (bytes_eq u v && m == n)
    || (not (has_suffix u v || has_suffix v u)
        || (bytes_eq u (codes "qt") || bytes_eq v (codes "qt")))

multipliers-exclusive : all (λ x. all (exclusive x) multipliers) multipliers ≡ true
unfolding exclusive
multipliers-exclusive = refl

all_at {ℓ} :
    {A : Type ℓ} (p : A → Bool) (xs : List A) (i : ℕ) {x : A}
    → all p xs ≡ true
    → get_elem? xs i ≡ some x
    → p x ≡ true
all_at p [] i h e = cc
all_at p (y ∷ xs) zero {x} h e = let e' : y ≡ x = cc in rw (← e') (ground arith)
all_at p (y ∷ xs) (suc i) h e = all_at p xs i (ground arith) e

not_qt :
    (s u : Bytes)
    → has_suffix s (codes "qt") ≡ false
    → has_suffix s u ≡ true
    → bytes_eq u (codes "qt") ≡ false
not_qt s u q h = elim (Bool-cases (bytes_eq u (codes "qt"))) [
  | inl e ↦
      let same : u ≡ codes "qt" = bytes_eq_sound u (codes "qt") e in
      let found : has_suffix s (codes "qt") ≡ true = rw same at h in cc
  | inr e ↦ e
]

only_first :
    (a r p q : Bool)
    → (a || (not r || (p || q))) ≡ true
    → r ≡ true
    → p ≡ false
    → q ≡ false
    → a ≡ true
only_first a r p q h = ground arith

exclusive_same :
    (s u v : Bytes) (m n : ℕ)
    → exclusive (u, m) (v, n) ≡ true
    → has_suffix s (codes "qt") ≡ false
    → has_suffix s u ≡ true
    → has_suffix s v ≡ true
    → (u ≡ v) × (m ≡ n)
unfolding exclusive
exclusive_same s u v m n x q h k =
    let same : (bytes_eq u v && m == n) ≡ true =
      only_first _ _ _ _ x (related s u v h k) (not_qt s u q h) (not_qt s v q k) in
    let (first, second) = (and-eq-true_iff _ _).0 same in
    (bytes_eq_sound u v first, (==_iff m n).0 second)

-- Every entry of the order that the text ends with is the entry `(u, m)`.
abbrev Only : Bytes → Bytes → ℕ → List (Bytes × ℕ) → Type 0
Only s u m = All (λ x. has_suffix s x.0 ≡ true → (x.0 ≡ u) × (x.1 ≡ m))

Only-order :
    (s u : Bytes) (m i : ℕ) (order : List (Bytes × ℕ))
    → get_elem? multipliers i ≡ some (u, m)
    → has_suffix s (codes "qt") ≡ false
    → has_suffix s u ≡ true
    → All (λ x. Occurs x multipliers) order
    → Only s u m order
Only-order s u m i [] e q h o = tt
Only-order s u m i ((v, n) ∷ order) e q h ((j, found), o) = (
  (λ k.
      exclusive_same s v u n m
        (all_at (exclusive (v, n)) multipliers i
          (all_at (λ x. all (exclusive x) multipliers) multipliers j multipliers-exclusive found) e)
        q k h),
  Only-order s u m i order e q h o,
)

pub expand_suffix_hit :
    (s u : Bytes) (m : ℕ) (order : List (Bytes × ℕ))
    → has_suffix s u ≡ true
    → expand_suffix ((u, m) ∷ order) s ≡ some (scaled (trim_suffix s u) m)
unfolding expand_suffix
expand_suffix_hit s u m order h = rw h

pub expand_suffix_miss :
    (s u : Bytes) (m : ℕ) (order : List (Bytes × ℕ))
    → has_suffix s u ≡ false
    → expand_suffix ((u, m) ∷ order) s ≡ expand_suffix order s
unfolding expand_suffix
expand_suffix_miss s u m order h = rw h

expand_suffix-Only :
    (s u : Bytes) (m i : ℕ) (order : List (Bytes × ℕ))
    → get_elem? order i ≡ some (u, m)
    → has_suffix s u ≡ true
    → Only s u m order
    → expand_suffix order s ≡ some (scaled (trim_suffix s u) m)
expand_suffix-Only s u m i [] e h o = absurd (cc)
expand_suffix-Only s u m zero (x ∷ order) e h o =
    let same : x ≡ (u, m) = cc in rw same (expand_suffix_hit s u m order h)
expand_suffix-Only s u m (suc i) ((v, n) ∷ order) e h o = elim (Bool-cases (has_suffix s v)) [
  | inl k ↦ let (same, size) = o.0 k in rw (same, size) (expand_suffix_hit s u m order h)
  | inr k ↦ expand_suffix_miss s v n order k ∙ expand_suffix-Only s u m i order e h o.1
]

pub expand_suffix-none :
    (s : Bytes) (order : List (Bytes × ℕ))
    → All (λ x. has_suffix s x.0 ≡ false) order
    → expand_suffix order s ≡ none
expand_suffix-none s [] a = unfold expand_suffix in refl
expand_suffix-none s ((v, n) ∷ order) a =
    expand_suffix_miss s v n order a.0 ∙ expand_suffix-none s order a.1

abbrev Matching : Bytes → List (Bytes × ℕ) → Type 0
Matching s table =
    (i : ℕ) × (u : Bytes) × (m : ℕ) × (get_elem? table i ≡ some (u, m)) × (has_suffix s u ≡ true)

Matching-cases :
    (s : Bytes) (table : List (Bytes × ℕ))
    → Matching s table ⊎ All (λ x. has_suffix s x.0 ≡ false) table
Matching-cases s [] = inr tt
Matching-cases s ((u, m) ∷ table) = elim (Bool-cases (has_suffix s u)) [
  | inl k ↦ inl (0, u, m, refl, k)
  | inr k ↦ elim (Matching-cases s table) [
    | inl (i, v, n, e, h) ↦ inl (suc i, v, n, e, h)
    | inr a ↦ inr (k, a)
  ]
]

pub none_in_order :
    (s : Bytes) (order : List (Bytes × ℕ))
    → All (λ x. has_suffix s x.0 ≡ false) multipliers
    → All (λ x. Occurs x multipliers) order
    → All (λ x. has_suffix s x.0 ≡ false) order
none_in_order s [] a o = tt
none_in_order s (x ∷ order) a ((i, e), o) = (
  All-get_elem? (λ (y : Bytes × ℕ). has_suffix s y.0 ≡ false) multipliers i a e,
  none_in_order s order a o,
)

-- What the loop returns, whatever the order.
expand_suffix-IsOrder :
    (s : Bytes)
    → has_suffix s (codes "qt") ≡ false
    → (v : Option ℤ) × ((order : List (Bytes × ℕ)) → IsOrder order → expand_suffix order s ≡ v)
expand_suffix-IsOrder s q = elim (Matching-cases s multipliers) [
  | inl (i, u, m, e, h) ↦ (
    some (scaled (trim_suffix s u) m),
    λ order o.
        let (j, found) = All-get_elem? (λ x. Occurs x order) multipliers i o.complete e in
        expand_suffix-Only s u m j order found h (Only-order s u m i order e q h o.sound),
  )
  | inr a ↦ (none, λ order o. expand_suffix-none s order (none_in_order s order a o.sound))
]

-- The value of a shorthand that does not end in qt is the same for any two orders of the map of
-- suffixes.
pub expand_shorthand_order :
    (order order' : List (Bytes × ℕ)) (s : Bytes)
    → IsOrder order
    → IsOrder order'
    → has_suffix s (codes "qt") ≡ false
    → expand_shorthand order s ≡ expand_shorthand order' s
expand_shorthand_order order order' s o o' q =
    let (v, h) = expand_suffix-IsOrder s q in unfold expand_shorthand in rw (h order o, h order' o')
