-- ===== src/Peers/Exchange.antt =====
-- The two loops that exchange peers sort them.
use mathlib.Core.List.{Perm, Mem, Pairwise, forall_mem-cons, not-mem-nil}
use mathlib.Core.List.Perm
use dnn_node.Base.{
  ℕ, zero, suc, ◌≤◌, ◌≡◌, refl, ap, Bool, false, List, [], ◌∷◌, length, if◌then◌else◌, inl, inr,
  Bool-cases, arith,
}
use dnn_node.Base.Bytes.{Bytes}
use dnn_node.Sync.Sorting.{IsStrictWeakOrder, IsOrdered}
use dnn_node.Peers.{exchange_pass, exchange_loop}

abbrev pub Any : Bytes → Type 0
Any x = Unit {0}

-- `before y x` says that y is to stand before x.
module _ (before : Bytes → Bytes → Bool) where
  abbrev exchanged : Bytes → Bytes → Bool
  exchanged x y = before y x

  pass-Perm :
      (x : Bytes) (xs : List Bytes)
      → Perm ((exchange_pass exchanged x xs).0 ∷ (exchange_pass exchanged x xs).1) (x ∷ xs)
  unfolding exchange_pass
  pass-Perm x [] = Perm.rfl
  pass-Perm x (y ∷ ys) = elim (Bool-cases (before y x)) [
    | inl e ↦ rw e (Perm.trans (Perm.swap _ _ _) (Perm.cons x (pass-Perm y ys)))
    | inr e ↦
        rw e (
          Perm.trans (Perm.swap _ _ _)
            (Perm.trans (Perm.cons y (pass-Perm x ys)) (Perm.swap _ _ _)))
  ]

  length-pass : (x : Bytes) (xs : List Bytes) → length (exchange_pass exchanged x xs).1 ≡ length xs
  unfolding exchange_pass
  length-pass x [] = refl
  length-pass x (y ∷ ys) = ap suc (length-pass (if before y x then y else x) ys)

  -- The first element is the least.
  module _ (o : IsStrictWeakOrder Any before) where
    stays_behind : (x y z : Bytes) → before x y ≡ false → before y z ≡ false → before x z ≡ false
    stays_behind x y z h k = elim (Bool-cases (before x z)) [
      | inl e ↦ elim (o.cotrans x y z tt tt tt e) [ inl a ↦ absurd (cc) | inr b ↦ absurd (cc) ]
      | inr e ↦ e
    ]

    not_itself : (x : Bytes) → before x x ≡ false
    not_itself x = elim (Bool-cases (before x x)) [ inl e ↦ o.asym x x tt tt e | inr e ↦ e ]

    abbrev Least : Bytes → Bytes × List Bytes → Type 0
    Least x r = (before x r.0 ≡ false) × ((z : Bytes) → Mem z r.1 → before z r.0 ≡ false)

    least : (x : Bytes) (xs : List Bytes) → Least x (exchange_pass exchanged x xs)
    unfolding exchange_pass
    least x [] = (not_itself x, λ z m. absurd (not-mem-nil m))
    least x (y ∷ ys) = elim (Bool-cases (before y x)) [
      | inl e ↦
          let (first, behind) = least y ys in
          let here = stays_behind x y _ (o.asym y x tt tt e) first in
          rw e (here, (forall_mem-cons (λ z. hlevel)).1 (here, behind))
      | inr e ↦
          let (first, behind) = least x ys in
          let here = stays_behind y x _ e first in
          rw e (first, (forall_mem-cons (λ z. hlevel)).1 (here, behind))
    ]

    pub exchange_loop-sorts :
        (rounds : ℕ) (xs : List Bytes)
        → length xs ≤ rounds
        → Perm (exchange_loop exchanged rounds xs) xs
          × IsOrdered Any before (exchange_loop exchanged rounds xs)
    unfolding exchange_loop
    exchange_loop-sorts zero [] h = (Perm.rfl, Pairwise.nil)
    exchange_loop-sorts zero (x ∷ xs) h = absurd (omega arith)
    exchange_loop-sorts (suc rounds) [] h = (Perm.rfl, Pairwise.nil)
    exchange_loop-sorts (suc rounds) (x ∷ xs) h =
        let (first, behind) = least x xs in
        let size = length-pass x xs in
        let (perm, ordered) =
          exchange_loop-sorts rounds (exchange_pass exchanged x xs).1 (omega arith) in
        (
          Perm.trans (Perm.cons _ perm) (pass-Perm x xs),
          Pairwise.cons (λ z m. behind z ((Perm.mem_iff perm).0 m)) ordered,
        )
