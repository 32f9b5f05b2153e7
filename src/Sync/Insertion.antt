-- ===== src/Sync/Insertion.antt =====
-- An insertion sort keeps the contract of sort.Slice, also with a test that writes.
use mathlib.Core.List.{Perm, Mem, Pairwise, forall_mem-cons, not-mem-nil}
use mathlib.Core.List.Perm
use mathlib.Core.Path.{ap₂}
use dnn_node.Base.{
  ◌≡◌, refl, ap, ◌∙◌, inl, inr, Bool, true, false, List, [], ◌∷◌, map, All, if◌then◌else◌,
  Bool-cases,
}
use dnn_node.Sync.{SortSlice}
use dnn_node.Sync.Sorting.{IsStrictWeakOrder, IsOrdered, ReadsKeys, IsSort}

module _ {A : Type 0} (less : A → A → Bool × A × A) where
  unfoldable pub insert : A → List A → List A
  insert x [] = x ∷ []
  insert x (y ∷ ys) =
      let out = less x y in
      let rest = insert out.1 ys in if out.0 then out.1 ∷ out.2 ∷ ys else out.2 ∷ rest

  unfoldable pub insertion_sort : List A → List A
  insertion_sort [] = []
  insertion_sort (x ∷ xs) = insert x (insertion_sort xs)

abbrev pub insertion_slice : SortSlice
insertion_slice A less = insertion_sort less

module _ {K : Type 0} (P : K → Type 0) (before : K → K → Bool) where
  abbrev insert_key : K → List K → List K
  insert_key k [] = k ∷ []
  insert_key k (l ∷ ls) = let rest = insert_key k ls in if before k l then k ∷ l ∷ ls else l ∷ rest

  insert_key-perm : (k : K) (ls : List K) → Perm (insert_key k ls) (k ∷ ls)
  insert_key-perm k [] = Perm.rfl
  insert_key-perm k (l ∷ ls) = elim (Bool-cases (before k l)) [
    | inl h ↦ rw (h) Perm.rfl
    | inr h ↦ rw (h) (Perm.trans (Perm.cons l (insert_key-perm k ls)) (Perm.swap k l ls))
  ]

  insert_key-All : (k : K) (ls : List K) → P k → All P ls → All P (insert_key k ls)
  insert_key-All k [] hk h = (hk, tt)
  insert_key-All k (l ∷ ls) hk h = elim (Bool-cases (before k l)) [
    | inl e ↦ rw (e) (hk, h)
    | inr e ↦ rw (e) (h.0, insert_key-All k ls hk h.1)
  ]

  -- Nothing of `ls` is before `l`.
  abbrev NoneBefore : K → List K → Type 0
  NoneBefore l = All (λ z. before z l ≡ false)

  NoneBefore-mem : (l : K) (ls : List K) → NoneBefore l ls → (z : K) → Mem z ls → before z l ≡ false
  NoneBefore-mem l [] h = λ z m. absurd (not-mem-nil m)
  NoneBefore-mem l (k ∷ ls) h = (forall_mem-cons (λ z. hlevel)).1 (h.0, NoneBefore-mem l ls h.1)

  mem-NoneBefore :
      (l : K) (ls : List K) → ((z : K) → Mem z ls → before z l ≡ false) → NoneBefore l ls
  mem-NoneBefore l [] h = tt
  mem-NoneBefore l (k ∷ ls) h =
      let both = (forall_mem-cons (λ z. hlevel)).0 h in (both.0, mem-NoneBefore l ls both.1)

  insert_key-NoneBefore :
      (k l : K) (ls : List K)
      → before k l ≡ false
      → NoneBefore l ls
      → NoneBefore l (insert_key k ls)
  insert_key-NoneBefore k l [] e h = (e, tt)
  insert_key-NoneBefore k l (m ∷ ls) e h = elim (Bool-cases (before k m)) [
    | inl d ↦ rw (d) (e, h)
    | inr d ↦ rw (d) (h.0, insert_key-NoneBefore k l ls e h.1)
  ]

  -- What is not before `l` is not before `k`, which is before `l`.
  NoneBefore-below :
      (k l : K) (ls : List K)
      → IsStrictWeakOrder P before
      → P k
      → P l
      → All P ls
      → before k l ≡ true
      → NoneBefore l ls
      → NoneBefore k ls
  NoneBefore-below k l [] o hk hl h e n = tt
  NoneBefore-below k l (z ∷ ls) o hk hl h e n =
      (below z h.0 n.0, NoneBefore-below k l ls o hk hl h.1 e n.1)
    where
      below : (z : K) → P z → before z l ≡ false → before z k ≡ false
      below z hz d = elim (Bool-cases (before z k)) [
        | inl c ↦ elim (o.cotrans z l k hz hl hk c) [
          | inl a ↦ absurd (cc)
          | inr a ↦ let b = o.asym k l hk hl e in absurd (cc)
        ]
        | inr c ↦ c
      ]

  insert_key-IsOrdered :
      (k : K) (ls : List K)
      → IsStrictWeakOrder P before
      → P k
      → All P ls
      → IsOrdered P before ls
      → IsOrdered P before (insert_key k ls)
  insert_key-IsOrdered k [] o hk h s = Pairwise.cons (λ z m. absurd (not-mem-nil m)) Pairwise.nil
  insert_key-IsOrdered k (l ∷ ls) o hk h (Pairwise.cons first s) = elim (Bool-cases (before k l)) [
    | inl e ↦
        let below = NoneBefore-below k l ls o hk h.0 h.1 e (mem-NoneBefore l ls first) in
        rw (e) (
          Pairwise.cons (NoneBefore-mem k (l ∷ ls) (o.asym k l hk h.0 e, below))
            (Pairwise.cons first s))
    | inr e ↦ rw (e) (
        Pairwise.cons
          (NoneBefore-mem l (insert_key k ls)
            (insert_key-NoneBefore k l ls e (mem-NoneBefore l ls first)))
          (insert_key-IsOrdered k ls o hk h.1 s))
  ]

module _ {A K : Type 0} (key : A → K) (P : K → Type 0) (before : K → K → Bool)
    (less : A → A → Bool × A × A) (r : ReadsKeys key P before less)
    (o : IsStrictWeakOrder P before) where
  map-insert :
      (x : A) (ys : List A)
      → P (key x)
      → All P (map key ys)
      → map key (insert less x ys) ≡ insert_key P before (key x) (map key ys)
  unfolding insert
  map-insert x [] hx h = refl
  map-insert x (y ∷ ys) hx h =
      let first = r.keeps_first x y in
      let second = r.keeps_second x y in
      let answer = r.answers x y hx h.0 in
      let kept : P (key (less x y).1) = rw (first) hx in
      let rest = map-insert (less x y).1 ys kept h.1 in
      elim (Bool-cases (before (key x) (key y))) [
        | inl e ↦ rw (answer, e) (ap₂ (λ a b. a ∷ b ∷ map key ys) first second)
        | inr e ↦
            rw (answer, e)
              (ap₂ ◌∷◌ second (rest ∙ ap (λ k. insert_key P before k (map key ys)) first))
      ]

  sort_All : (xs : List A) → All P (map key xs) → All P (map key (insertion_sort less xs))
  unfolding insertion_sort
  sort_All [] h = tt
  sort_All (x ∷ xs) h =
      let rest = sort_All xs h.1 in
      rw (map-insert x (insertion_sort less xs) h.0 rest)
        (insert_key-All P before (key x) _ h.0 rest)

  sort_perm :
      (xs : List A) → All P (map key xs) → Perm (map key (insertion_sort less xs)) (map key xs)
  unfolding insertion_sort
  sort_perm [] h = Perm.rfl
  sort_perm (x ∷ xs) h =
      rw (map-insert x (insertion_sort less xs) h.0 (sort_All xs h.1))
        (Perm.trans (insert_key-perm P before (key x) _) (Perm.cons (key x) (sort_perm xs h.1)))

  sort_IsOrdered :
      (xs : List A) → All P (map key xs) → IsOrdered P before (map key (insertion_sort less xs))
  unfolding insertion_sort
  sort_IsOrdered [] h = Pairwise.nil
  sort_IsOrdered (x ∷ xs) h =
      let rest = sort_All xs h.1 in
      rw (map-insert x (insertion_sort less xs) h.0 rest)
        (insert_key-IsOrdered P before (key x) _ o h.0 rest (sort_IsOrdered xs h.1))

pub insertion_slice-IsSort : IsSort insertion_slice
insertion_slice-IsSort = record {
  permutes = λ {A} {K} key P before less xs r o h. sort_perm key P before less r o xs h;
  orders = λ {A} {K} key P before less xs r o h. sort_IsOrdered key P before less r o xs h;
}
