-- ===== src/Merkle/Tests.antt =====
-- Roots of small lists, and the theorems at some.
use dnn_node.Base.{
  ℕ, zero, suc, ◌≤◌, ◌≡◌, refl, ap, ◌⊎◌, List, [], ◌∷◌, ◌++◌, map, some, ok, err, arith, length,
  take,
}
use dnn_node.Base.Bytes.{Bytes, codes}
use dnn_node.Merkle.{
  MsgBlock, merkle_mismatch, zeros, zero_hash, evened, combine_pairs, merkle_loop, calc_merkle_root,
  validate_block_merkle_root,
}
use dnn_node.Merkle.Levels.{calc_merkle_root_total}
use dnn_node.Merkle.Binding.{Collision, IsHash, validate_block_merkle_root-binding}
use dnn_node.Merkle.Doubled.{validate_block_merkle_root_doubled}

-- A hash function for the tests: the first 32 bytes, filled up with zeros.
abbrev first_bytes : Bytes → Bytes
first_bytes s = take 32 (s ++ zero_hash)

length-zeros : (n m : ℕ) → n ≤ m → length (take n (zeros m)) ≡ n
length-zeros zero m h = refl
length-zeros (suc n) zero h = absurd (omega arith)
length-zeros (suc n) (suc m) h = ap suc (length-zeros n m (omega arith))

length-filled : (n m : ℕ) (s : Bytes) → n ≤ m → length (take n (s ++ zeros m)) ≡ n
length-filled zero m s h = refl
length-filled (suc n) m [] h = length-zeros (suc n) m h
length-filled (suc n) m (c ∷ s) h = ap suc (length-filled n m s (omega arith))

first_bytes-IsHash : (s : Bytes) → IsHash (first_bytes s)
first_bytes-IsHash s = length-filled 32 32 s (omega arith)

abbrev with_root : List Bytes → MsgBlock
with_root transactions = record {
  merkle_root = first_bytes (codes "a");
  transactions = transactions;
}

abbrev three : List Bytes
three = codes "a" ∷ codes "b" ∷ codes "c" ∷ []

-- Its root is that of `three`: this hash function has collisions.
abbrev three_others : List Bytes
three_others = codes "a" ∷ codes "d" ∷ codes "e" ∷ []

-- The first hash fills all 32 bytes.
accepted : validate_block_merkle_root first_bytes first_bytes (with_root three) ≡ ok tt
unfolding validate_block_merkle_root calc_merkle_root merkle_loop evened combine_pairs
accepted = refl

accepted_others :
    validate_block_merkle_root first_bytes first_bytes (with_root three_others) ≡ ok tt
unfolding validate_block_merkle_root calc_merkle_root merkle_loop evened combine_pairs
accepted_others = refl

refused :
    validate_block_merkle_root first_bytes first_bytes (with_root (codes "b" ∷ []))
    ≡ err merkle_mismatch
unfolding validate_block_merkle_root calc_merkle_root merkle_loop
refused = refl

calc_merkle_root_total_example :
    (root : Bytes) × (calc_merkle_root first_bytes (map first_bytes three) ≡ some root)
calc_merkle_root_total_example = calc_merkle_root_total first_bytes (map first_bytes three)

validate_block_merkle_root-binding_example :
    (map first_bytes three ≡ map first_bytes three_others) ⊎ Collision first_bytes
validate_block_merkle_root-binding_example =
    validate_block_merkle_root-binding first_bytes first_bytes (first_bytes (codes "a")) three
      three_others first_bytes-IsHash first_bytes-IsHash refl accepted accepted_others

validate_block_merkle_root_doubled_example :
    validate_block_merkle_root first_bytes first_bytes (with_root (three ++ (codes "c" ∷ [])))
    ≡ validate_block_merkle_root first_bytes first_bytes (with_root three)
validate_block_merkle_root_doubled_example =
    validate_block_merkle_root_doubled first_bytes first_bytes (first_bytes (codes "a")) (codes "a")
      (codes "b") (codes "c") [] refl
