-- ===== src/Sync/Sorting.antt =====
-- What sort.Slice documents, for a test that may write to the elements it compares: the keys that
-- the test reads and keeps come out as an ordered permutation. An insertion sort does that.
use mathlib.Core.List.{Perm, Pairwise, forall_mem-cons, mem-cons_self}
use mathlib.Core.List.Pairwise
use mathlib.Core.List.Perm
use dnn_node.Base.{◌≡◌, ◌⊎◌, Bool, true, false, List, [], ◌∷◌, map, All}
use dnn_node.Sync.{SortSlice}

module _ {K : Type 0} (P : K → Type 0) (before : K → K → Bool) where
  -- A strict weak order, on the keys of a predicate.
  pub record IsStrictWeakOrder : Type 0 where
    pub asym : (x y : K) → P x → P y → before x y ≡ true → before y x ≡ false
    pub cotrans :
        (x y z : K)
        → P x
        → P y
        → P z
        → before x z ≡ true
        → (before x y ≡ true) ⊎ (before y z ≡ true)

  -- No later key is before an earlier one.
  abbrev pub IsOrdered : List K → Type 0
  IsOrdered = Pairwise (λ x y. before y x ≡ false)

-- The test answers by the keys and keeps them.
pub record ReadsKeys {A K : Type 0} (key : A → K) (P : K → Type 0) (before : K → K → Bool)
    (less : A → A → Bool × A × A) : Type 0 where
  pub answers : (x y : A) → P (key x) → P (key y) → (less x y).0 ≡ before (key x) (key y)
  pub keeps_first : (x y : A) → key (less x y).1 ≡ key x
  pub keeps_second : (x y : A) → key (less x y).2 ≡ key y

pub record IsSort (sort_slice : SortSlice) : Type 1 where
  pub permutes :
      {A K : Type 0} (key : A → K) (P : K → Type 0) (before : K → K → Bool)
      (less : A → A → Bool × A × A) (xs : List A)
      → ReadsKeys key P before less
      → IsStrictWeakOrder P before
      → All P (map key xs)
      → Perm (map key (sort_slice A less xs)) (map key xs)
  pub orders :
      {A K : Type 0} (key : A → K) (P : K → Type 0) (before : K → K → Bool)
      (less : A → A → Bool × A × A) (xs : List A)
      → ReadsKeys key P before less
      → IsStrictWeakOrder P before
      → All P (map key xs)
      → IsOrdered P before (map key (sort_slice A less xs))

-- Two ordered permutations of one list agree, where keys that are not before one another are equal.
module _ {K : Type 0} (P : K → Type 0) (before : K → K → Bool)
    (connected : (x y : K) → P x → P y → before x y ≡ false → before y x ≡ false → x ≡ y)
    (irrefl : (x : K) → P x → before x x ≡ false) where
  heads :
      (x y : K) (xs ys : List K)
      → IsOrdered P before (x ∷ xs)
      → P x
      → Perm (y ∷ ys) (x ∷ xs)
      → before y x ≡ false
  heads x y xs ys (Pairwise.cons h _) px p =
      (forall_mem-cons (λ z. hlevel)).1 (irrefl x px, h) y ((Perm.mem_iff p).0 mem-cons_self)

  pub IsOrdered-unique :
      (xs ys : List K)
      → All P xs
      → All P ys
      → IsOrdered P before xs
      → IsOrdered P before ys
      → Perm xs ys
      → xs ≡ ys
  IsOrdered-unique [] ys hx hy sx sy p = Perm.nil-eq p
  IsOrdered-unique (x ∷ xs) [] hx hy sx sy p = Perm.eq-nil p
  IsOrdered-unique (x ∷ xs) (y ∷ ys) hx hy sx sy p =
      let same : x ≡ y =
        connected x y hx.0 hy.0 (heads y x ys xs sy hy.0 p)
          (heads x y xs ys sx hx.0 (Perm.symm p)) in
      let tails = Perm.cons_inv (Perm.trans p (Perm.symm (Perm.cons' same Perm.rfl))) in
      let rest =
        IsOrdered-unique xs ys hx.1 hy.1 (Pairwise.of_cons sx) (Pairwise.of_cons sy) tails in
      cc
