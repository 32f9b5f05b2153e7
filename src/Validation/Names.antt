-- ===== src/Validation/Names.antt =====
-- `ValidateName` accepts exactly the names that its comments describe.
use mathlib.Core.Bool.{and-eq-true_iff}
use dnn_node.Base.{
  ℕ, zero, suc, ◌+◌, ◌≤◌, ◌≡◌, refl, ap, ◌≢◌, ◌↔◌, ◌⊎◌, inl, inr, Bool, true, false, ◌||◌, List, [],
  ◌∷◌, ◌++◌, ok, arith, Bool-cases, any, length, length-append, All,
}
use dnn_node.Base.Bytes.{Bytes, codes, bytes_eq, bytes_eq_iff, contains, contains_iff}
use dnn_node.Validation.{
  Runtime, to_lower, is_alnum, pattern_rest, name_pattern, reserved, is_reserved, check_name,
  validate_name,
}

abbrev pub IsAlnum : ℕ → Type 0
IsAlnum c = ((b'a' ≤ c) × (c ≤ b'z')) ⊎ ((b'0' ≤ c) × (c ≤ b'9'))

abbrev pub IsNameByte : ℕ → Type 0
IsNameByte c = IsAlnum c ⊎ (c ≡ b'-')

-- A letter or digit, up to `n` letters, digits or hyphens, and a letter or digit.
pub record Shaped (n : ℕ) (s : Bytes) : Type 0 where
  pub middle : Bytes
  pub last : ℕ
  pub parts : s ≡ middle ++ (last ∷ [])
  pub short : length middle ≤ n
  pub inner : All IsNameByte middle
  pub final : IsAlnum last

IsAlnum-iff : (c : ℕ) → (is_alnum c ≡ true) ↔ IsAlnum c
IsAlnum-iff c = (λ h. ground arith, λ h. ground arith)

pattern_rest_sound : (n : ℕ) (s : Bytes) → pattern_rest n s ≡ true → Shaped n s
unfolding pattern_rest
pattern_rest_sound n [] h = absurd (cc)
pattern_rest_sound n (c ∷ []) h = record {
  middle = [];
  last = c;
  parts = refl;
  short = omega arith;
  inner = tt;
  final = (IsAlnum-iff c).0 h;
}
pattern_rest_sound zero (c ∷ d ∷ s) h = absurd (cc)
pattern_rest_sound (suc n) (c ∷ d ∷ s) h =
    let rest = pattern_rest_sound n (d ∷ s) (ground arith) in
    record {
      middle = c ∷ rest.middle;
      last = rest.last;
      parts = ap (◌∷◌ c) rest.parts;
      short = omega (arith, rest.short);
      inner = (ground arith, rest.inner);
      final = rest.final;
    }

pattern_rest_complete :
    (n : ℕ) (m : Bytes) (c : ℕ)
    → length m ≤ n
    → All IsNameByte m
    → IsAlnum c
    → pattern_rest n (m ++ (c ∷ [])) ≡ true
unfolding pattern_rest
pattern_rest_complete n [] c l a f = (IsAlnum-iff c).1 f
pattern_rest_complete zero (d ∷ m) c l a f = absurd (omega arith)
pattern_rest_complete (suc n) (d ∷ []) c l a f = ground arith
pattern_rest_complete (suc n) (d ∷ e ∷ m) c l a f =
    ground (arith, pattern_rest_complete n (e ∷ m) c)

-- What the validator means by a name: the description is independent of its tests.
pub record IsName (s : Bytes) : Type 0 where
  pub first : ℕ
  pub middle : Bytes
  pub last : ℕ
  pub parts : s ≡ first ∷ (middle ++ (last ∷ []))
  pub short : length middle ≤ 61
  pub ends : IsAlnum first × IsAlnum last
  pub inner : All IsNameByte middle
  pub no_hyphens : (p q : Bytes) → s ≢ p ++ (codes "--" ++ q)
  pub not_reserved : All (λ r. s ≢ r) reserved

pub not_equal_iff : (s r : Bytes) → (bytes_eq s r ≡ false) ↔ (s ≢ r)
not_equal_iff s r = (
  λ h e. let k : bytes_eq s r ≡ true = (bytes_eq_iff s r).1 e in cc,
  λ h. elim (Bool-cases (bytes_eq s r)) [ inl k ↦ absurd (h ((bytes_eq_iff s r).0 k)) | inr k ↦ k ],
)

or_false : (a b : Bool) → (a || b) ≡ false → (a ≡ false) × (b ≡ false)
or_false a b h = ground arith

pub any-bytes_eq_sound :
    (s : Bytes) (rs : List Bytes) → any (bytes_eq s) rs ≡ false → All (λ r. s ≢ r) rs
any-bytes_eq_sound s [] h = tt
any-bytes_eq_sound s (r ∷ rs) h =
    let (first, rest) = or_false (bytes_eq s r) (any (bytes_eq s) rs) h in
    ((not_equal_iff s r).0 first, any-bytes_eq_sound s rs rest)

pub any-bytes_eq_complete :
    (s : Bytes) (rs : List Bytes) → All (λ r. s ≢ r) rs → any (bytes_eq s) rs ≡ false
any-bytes_eq_complete s [] h = refl
any-bytes_eq_complete s (r ∷ rs) h = rw ((not_equal_iff s r).1 h.0) (any-bytes_eq_complete s rs h.1)

-- The tests, in the order of the source.
abbrev Passes : Bytes → Type 0
Passes s =
    (2 ≤ length s)
    × (length s ≤ 63)
    × (name_pattern s ≡ true)
    × (contains s (codes "--") ≡ false)
    × (is_reserved s ≡ false)

check_name-Passes : (s : Bytes) → (check_name s ≡ ok tt) ↔ Passes s
unfolding check_name
check_name-Passes s = (λ h. ground arith, λ h. ground arith)

Passes-IsName : (s : Bytes) → Passes s → IsName s
Passes-IsName [] (l, u, p, c, r) = absurd (omega arith)
Passes-IsName (a ∷ s) (l, u, p, c, r) =
    unfold name_pattern in
    let (start, rest) = (and-eq-true_iff _ _).0 p in
    let shape = pattern_rest_sound 61 s rest in
    record {
      first = a;
      middle = shape.middle;
      last = shape.last;
      parts = ap (◌∷◌ a) shape.parts;
      short = shape.short;
      ends = ((IsAlnum-iff a).0 start, shape.final);
      inner = shape.inner;
      no_hyphens = λ p' q e.
          let k : contains (a ∷ s) (codes "--") ≡ true =
            (contains_iff (a ∷ s) (codes "--")).1 (p', q, e) in
          cc;
      not_reserved = any-bytes_eq_sound (a ∷ s) reserved (unfold is_reserved in r);
    }

matches : (s : Bytes) → IsName s → name_pattern s ≡ true
unfolding name_pattern
matches s v = rw (
  v.parts,
  name_pattern,
  (IsAlnum-iff v.first).1 v.ends.0,
  pattern_rest_complete 61 v.middle v.last v.short v.inner v.ends.1,
)

lacks : (s : Bytes) → IsName s → contains s (codes "--") ≡ false
lacks s v = elim (Bool-cases (contains s (codes "--"))) [
  | inl k ↦ let (p, q, e) = (contains_iff s (codes "--")).0 k in absurd (v.no_hyphens p q e)
  | inr k ↦ k
]

IsName-Passes : (s : Bytes) → IsName s → Passes s
IsName-Passes s v =
    let size : length s ≡ suc (length v.middle + 1) =
      rw v.parts (ap suc (length-append v.middle (v.last ∷ []))) in
    (
      omega (arith, size, v.short),
      omega (arith, size, v.short),
      matches s v,
      lacks s v,
      unfold is_reserved in any-bytes_eq_complete s reserved v.not_reserved,
    )

-- ValidateName accepts a text exactly when its small-letter form is a name: letters, digits and
-- hyphens, 2 to 63 of them, a letter or digit at both ends, no two hyphens in a row, not reserved.
pub validate_name_iff :
    (go : Runtime) (name : Bytes) → (validate_name go name ≡ ok tt) ↔ IsName (to_lower go name)
unfolding validate_name
validate_name_iff go name =
    let (sound, complete) = check_name-Passes (to_lower go name) in
    (λ h. Passes-IsName _ (sound h), λ v. complete (IsName-Passes _ v))
