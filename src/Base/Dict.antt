-- ===== src/Base/Dict.antt =====
-- A Go map with texts as keys. No order is promised for it: the code's loops over a map take the
-- order, or the entry that comes first, as a parameter.
use Prim.Native.Nat.{◌+◌, ◌≤◌}
use mathlib.Core.Path.{◌≡◌, refl}
use mathlib.Core.Logic.{◌≢◌, ◌⊎◌, inl, inr}
use mathlib.Core.Bool.{Bool, true, false}
use mathlib.Core.List.{List, [], ◌∷◌}
use mathlib.Core.Option.{Option, none, some}
use native.Mathlib.Omega.{arith}
use dnn_node.Base.Tests.{if◌then◌else◌, Bool-cases}
use dnn_node.Base.Lists.{length}
use dnn_node.Base.Bytes.{Bytes, bytes_eq, bytes_eq_sound, bytes_eq_refl}

abbrev pub Dict {ℓ} : Type ℓ → Type ℓ
Dict V = List (Bytes × V)

bytes_eq-ne : (j k : Bytes) → j ≢ k → bytes_eq j k ≡ false
bytes_eq-ne j k h = elim (Bool-cases (bytes_eq j k)) [
  | inl e ↦ absurd (h (bytes_eq_sound j k e))
  | inr e ↦ e
]

not_true : true ≢ false
not_true h = cc

module _ {ℓ} {V : Type ℓ} where
  -- `m[key]`
  abbrev pub lookup : Bytes → Dict V → Option V
  lookup key [] = none
  lookup key ((k, v) ∷ d) = if bytes_eq key k then some v else lookup key d

  -- `_, ok := m[key]`
  abbrev pub has_key : Bytes → Dict V → Bool
  has_key key d = elim (lookup key d) [ none ↦ false | some _ ↦ true ]

  -- `delete(m, key)`
  abbrev pub remove : Bytes → Dict V → Dict V
  remove key [] = []
  remove key ((k, v) ∷ d) = if bytes_eq key k then remove key d else (k, v) ∷ remove key d

  -- `m[key] = value`
  abbrev pub insert : Bytes → V → Dict V → Dict V
  insert key v d = (key, v) ∷ remove key d

  pub lookup-remove_self : (key : Bytes) (d : Dict V) → lookup key (remove key d) ≡ none
  lookup-remove_self key [] = refl
  lookup-remove_self key ((k, v) ∷ d) = ground (arith, lookup-remove_self key d)

  pub lookup-remove_ne :
      (j key : Bytes) (d : Dict V) → j ≢ key → lookup j (remove key d) ≡ lookup j d
  lookup-remove_ne j key [] h = refl
  lookup-remove_ne j key ((k, v) ∷ d) h = elim (Bool-cases (bytes_eq key k)) [
    | inl e ↦
        let same : bytes_eq j k ≡ false = rw (bytes_eq_sound key k e) at (bytes_eq-ne j key h) in
        rw (e, same) (lookup-remove_ne j key d h)
    | inr e ↦ rw (e, lookup-remove_ne j key d h) refl
  ]

  pub lookup-insert_self : (key : Bytes) (v : V) (d : Dict V) → lookup key (insert key v d) ≡ some v
  lookup-insert_self key v d = rw (bytes_eq_refl key) refl

  pub lookup-insert_ne :
      (j key : Bytes) (v : V) (d : Dict V) → j ≢ key → lookup j (insert key v d) ≡ lookup j d
  lookup-insert_ne j key v d h = rw (bytes_eq-ne j key h, lookup-remove_ne j key d h) refl

  pub length-remove : (key : Bytes) (d : Dict V) → length (remove key d) ≤ length d
  length-remove key [] = omega arith
  length-remove key ((k, v) ∷ d) = ground (arith, length-remove key d)

  -- A map that has the key loses an entry.
  pub length-remove_lt :
      (key : Bytes) (v : V) (d : Dict V)
      → lookup key d ≡ some v
      → length (remove key d) + 1 ≤ length d
  length-remove_lt key v [] h = absurd (cc)
  length-remove_lt key v ((k, w) ∷ d) h =
      ground (arith, length-remove key d, length-remove_lt key v d)

  pub lookup_of_removed :
      (j key : Bytes) (e : V) (d : Dict V) → lookup j (remove key d) ≡ some e → lookup j d ≡ some e
  lookup_of_removed j key e d h = elim (Bool-cases (bytes_eq j key)) [
    | inl same ↦
        let gone = lookup-remove_self key d in
        let k : j ≡ key = bytes_eq_sound j key same in absurd (cc)
    | inr other ↦
        rw (lookup-remove_ne j key d (λ eq. not_true (rw (eq, bytes_eq_refl key) at other))) at h
  ]

  pub lookup-insert_cases :
      (j key : Bytes) (v e : V) (d : Dict V)
      → lookup j (insert key v d) ≡ some e
      → ((bytes_eq j key ≡ true) × (v ≡ e)) ⊎ ((bytes_eq j key ≡ false) × (lookup j d ≡ some e))
  lookup-insert_cases j key v e d h = elim (Bool-cases (bytes_eq j key)) [
    | inl same ↦ inl (same, cc)
    | inr other ↦ inr (other, lookup_of_removed j key e d (rw other at h))
  ]
