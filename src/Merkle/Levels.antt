-- ===== src/Merkle/Levels.antt =====
-- The loop of `calcMerkleRoot` comes to its end.
use dnn_node.Base.{
  ℕ, zero, suc, ◌+◌, ◌*◌, ◌/◌, ◌≤◌, ◌≡◌, refl, sym, ◌∙◌, ap, List, [], ◌∷◌, ◌++◌, map, none, some,
  arith, length,
}
use dnn_node.Base.Bytes.{Bytes}
use dnn_node.Merkle.{last_again, evened, combine_pairs, merkle_loop, calc_merkle_root, zero_hash}

pub length-map : (f : Bytes → Bytes) (s : List Bytes) → length (map f s) ≡ length s
length-map f [] = refl
length-map f (a ∷ s) = ap suc (length-map f s)

pub length-last_again :
    (h : Bytes) (hashes : List Bytes) → length (last_again (h ∷ hashes)) ≡ length hashes + 2
length-last_again h [] = refl
length-last_again h (g ∷ hashes) = omega (arith, length-last_again g hashes)

pub length-evened :
    (h : Bytes) (hashes : List Bytes)
    → let n = length (h ∷ hashes) in length (evened (h ∷ hashes)) ≡ 2 * ((n + 1) / 2)
unfolding evened
length-evened h hashes = ground (arith, length-last_again h hashes)

pub combine_pairs_total :
    (double_hash : Bytes → Bytes) (n : ℕ) (hashes : List Bytes)
    → length hashes ≡ 2 * n
    → (next_level : List Bytes) × (combine_pairs double_hash hashes ≡ some next_level)
      × (length next_level ≡ n)
unfolding combine_pairs
combine_pairs_total double_hash zero [] e = ([], refl, refl)
combine_pairs_total double_hash (suc n) [] e = absurd (omega arith)
combine_pairs_total double_hash n (h ∷ []) e = absurd (omega arith)
combine_pairs_total double_hash zero (h ∷ g ∷ hashes) e = absurd (omega arith)
combine_pairs_total double_hash (suc n) (h ∷ g ∷ hashes) e =
    let (next_level, done, size) = combine_pairs_total double_hash n hashes (omega arith) in
    (double_hash (h ++ g) ∷ next_level, rw done refl, omega arith)

-- One round: from n hashes to half as many, rounded up.
pub level_total :
    (double_hash : Bytes → Bytes) (h : Bytes) (hashes : List Bytes)
    → (next_level : List Bytes) × (combine_pairs double_hash (evened (h ∷ hashes))
        ≡ some next_level)
      × (length next_level ≡ (length hashes + 2) / 2)
level_total double_hash h hashes =
    let (next_level, done, size) =
      combine_pairs_total double_hash _ (evened (h ∷ hashes)) (length-evened h hashes) in
    (next_level, done, omega arith)

pub merkle_loop_step :
    (double_hash : Bytes → Bytes) (rounds : ℕ) (h g : Bytes) (hashes next_level : List Bytes)
    → combine_pairs double_hash (evened (h ∷ g ∷ hashes)) ≡ some next_level
    → merkle_loop double_hash (suc rounds) (h ∷ g ∷ hashes)
      ≡ merkle_loop double_hash rounds next_level
unfolding merkle_loop
merkle_loop_step double_hash rounds h g hashes next_level e =
    ap (λ x. elim x [ none ↦ none | some n ↦ merkle_loop double_hash rounds n ]) e

merkle_loop_total :
    (double_hash : Bytes → Bytes) (rounds : ℕ) (hashes : List Bytes)
    → 1 ≤ length hashes
    → length hashes ≤ rounds
    → (root : Bytes) × (merkle_loop double_hash rounds hashes ≡ some root)
merkle_loop_total double_hash rounds [] h k = absurd (omega arith)
merkle_loop_total double_hash rounds (x ∷ []) h k = (x, unfold merkle_loop in refl)
merkle_loop_total double_hash zero (x ∷ y ∷ hashes) h k = absurd (omega arith)
merkle_loop_total double_hash (suc rounds) (x ∷ y ∷ hashes) h k =
    let (next_level, done, size) = level_total double_hash x (y ∷ hashes) in
    let (root, found) =
      merkle_loop_total double_hash rounds next_level (omega arith) (omega arith) in
    (root, merkle_loop_step double_hash rounds x y hashes next_level done ∙ found)

-- Any two numbers of rounds that are enough give the same.
merkle_loop_same :
    (double_hash : Bytes → Bytes) (m n : ℕ) (hashes : List Bytes)
    → length hashes ≤ m
    → length hashes ≤ n
    → merkle_loop double_hash m hashes ≡ merkle_loop double_hash n hashes
merkle_loop_same double_hash m n [] h k = unfold merkle_loop in refl
merkle_loop_same double_hash m n (x ∷ []) h k = unfold merkle_loop in refl
merkle_loop_same double_hash zero n (x ∷ y ∷ hashes) h k = absurd (omega arith)
merkle_loop_same double_hash (suc m) zero (x ∷ y ∷ hashes) h k = absurd (omega arith)
merkle_loop_same double_hash (suc m) (suc n) (x ∷ y ∷ hashes) h k =
    let (next_level, done, size) = level_total double_hash x (y ∷ hashes) in
    merkle_loop_step double_hash m x y hashes next_level done
    ∙ merkle_loop_same double_hash m n next_level (omega arith) (omega arith)
    ∙ sym (merkle_loop_step double_hash n x y hashes next_level done)

pub calc_merkle_root-loop :
    (double_hash : Bytes → Bytes) (rounds : ℕ) (h : Bytes) (hashes : List Bytes)
    → length (h ∷ hashes) ≤ rounds
    → calc_merkle_root double_hash (h ∷ hashes) ≡ merkle_loop double_hash rounds (h ∷ hashes)
unfolding calc_merkle_root
calc_merkle_root-loop double_hash rounds h hashes k =
    merkle_loop_same double_hash (length (h ∷ hashes)) rounds (h ∷ hashes) (omega arith) k

-- calcMerkleRoot ends with a root for every list of hashes: no index is out of range, and the
-- rounds, as many as hashes, are enough.
pub calc_merkle_root_total :
    (double_hash : Bytes → Bytes) (hashes : List Bytes)
    → (root : Bytes) × (calc_merkle_root double_hash hashes ≡ some root)
unfolding calc_merkle_root
calc_merkle_root_total double_hash [] = (zero_hash, refl)
calc_merkle_root_total double_hash (h ∷ hashes) =
    merkle_loop_total double_hash (length (h ∷ hashes)) (h ∷ hashes) (omega arith) (omega arith)
