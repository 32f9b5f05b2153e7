-- ===== src/Encoder/Notation/Suffix.antt =====
-- Facts about `strings.HasSuffix` that the shorthand notation rests on.
use native.Mathlib.Nat.{zero-add}
use dnn_node.Base.{
  length-append, ℕ, zero, suc, ◌+◌, ◌-◌, ◌≤◌, ◌≡◌, refl, ◌⊎◌, inl, inr, true, ◌||◌, [], ◌∷◌, ◌++◌,
  arith, leb, length, drop,
}
use dnn_node.Base.Bytes.{Bytes, bytes_eq, bytes_eq_sound, bytes_eq_refl, has_suffix}

drop-nil : (n : ℕ) → drop {A = ℕ} n [] ≡ []
drop-nil zero = refl
drop-nil (suc n) = refl

drop-drop : (m n : ℕ) (s : Bytes) → drop m (drop n s) ≡ drop (n + m) s
drop-drop m zero s = rw zero-add
drop-drop m (suc n) [] = rw (drop-nil m, drop-nil (suc n + m))
drop-drop m (suc n) (c ∷ s) =
    let e : suc n + m ≡ suc (n + m) = omega arith in rw e (drop-drop m n s)

pub has_suffix-drop :
    (s t : Bytes)
    → has_suffix s t ≡ true
    → (length t ≤ length s) × (drop (length s - length t) s ≡ t)
has_suffix-drop s t h = ground (arith, bytes_eq_sound (drop (length s - length t) s) t)

-- Of two suffixes of a text the shorter one is a suffix of the longer one.
suffix_of_suffix :
    (s u v : Bytes)
    → has_suffix s u ≡ true
    → has_suffix s v ≡ true
    → length u ≤ length v
    → has_suffix v u ≡ true
suffix_of_suffix s u v h k l =
    let (fits_u, eu) = has_suffix-drop s u h in
    let (fits_v, ev) = has_suffix-drop s v k in
    let n : (length s - length v) + (length v - length u) ≡ length s - length u = omega arith in
    let tail : drop (length v - length u) (drop (length s - length v) s) ≡ u =
      rw (drop-drop (length v - length u) (length s - length v) s, n) eu in
    let found : drop (length v - length u) v ≡ u = rw ev at tail in
    rw found (ground (arith, bytes_eq_refl u))

le_cases : (m n : ℕ) → (m ≤ n) ⊎ (n ≤ m)
le_cases m n = omega arith

pub related :
    (s u v : Bytes)
    → has_suffix s u ≡ true
    → has_suffix s v ≡ true
    → (has_suffix u v || has_suffix v u) ≡ true
related s u v h k = elim (le_cases (length u) (length v)) [
  | inl l ↦ let e = suffix_of_suffix s u v h k l in rw e (ground arith)
  | inr l ↦ let e = suffix_of_suffix s v u k h l in rw e
]

drop-append_more : (s t : Bytes) (k : ℕ) → drop (length s + k) (s ++ t) ≡ drop k t
drop-append_more [] t k = rw zero-add
drop-append_more (c ∷ s) t k =
    let e : suc (length s) + k ≡ suc (length s + k) = omega arith in rw e (drop-append_more s t k)

-- A suffix no longer than `t` is looked for in `t` alone.
pub has_suffix-append :
    (s t u : Bytes)
    → length u ≤ length t
    → has_suffix (s ++ t) u ≡ bytes_eq (drop (length t - length u) t) u
has_suffix-append s t u h =
    let size = length-append s t in
    let e : length (s ++ t) - length u ≡ length s + (length t - length u) = omega arith in
    let fits : leb (length u) (length (s ++ t)) ≡ true = rw size (ground arith) in
    rw (fits, e, drop-append_more s t (length t - length u))
