-- ===== src/Merkle/Binding.antt =====
-- A root stands for one list of hashes of its length, unless the hash function has a collision.
use dnn_node.Base.{
  ℕ, zero, suc, ◌+◌, ◌*◌, ◌/◌, ◌%◌, ◌≡◌, refl, sym, ◌∙◌, ◌≢◌, ap, ◌⊎◌, List, [], ◌∷◌, ◌++◌, map,
  Option, some, none, ok, arith, length, take, All, ◌==◌, Bool-cases, inl, inr, is_nil,
}
use dnn_node.Base.Bytes.{Bytes, bytes_eq, bytes_eq_sound, bytes_eq_iff}
use dnn_node.Merkle.{
  MsgBlock, last_again, evened, combine_pairs, merkle_loop, calc_merkle_root,
  validate_block_merkle_root,
}
use dnn_node.Merkle.Levels.{
  length-map, length-evened, level_total, merkle_loop_step, calc_merkle_root-loop,
  calc_merkle_root_total,
}

-- Two texts with one hash.
pub record Collision (hash : Bytes → Bytes) : Type 0 where
  pub first : Bytes
  pub second : Bytes
  pub differ : first ≢ second
  pub same : hash first ≡ hash second

abbrev pub IsHash : Bytes → Type 0
IsHash h = length h ≡ 32

append-injective : (a b c d : Bytes) → length a ≡ length c → a ++ b ≡ c ++ d → (a ≡ c) × (b ≡ d)
append-injective [] b [] d e h = (refl, h)
append-injective [] b (x ∷ c) d e h = absurd (omega arith)
append-injective (x ∷ a) b [] d e h = absurd (omega arith)
append-injective (x ∷ a) b (y ∷ c) d e h =
    let (p, q) = append-injective a b c d (omega arith) (cc) in (cc, q)

-- The two texts are one, or they are a collision.
same_or_Collision :
    (hash : Bytes → Bytes) (s t : Bytes) → hash s ≡ hash t → (s ≡ t) ⊎ Collision hash
same_or_Collision hash s t h = elim (Bool-cases (bytes_eq s t)) [
  | inl e ↦ inl (bytes_eq_sound s t e)
  | inr e ↦ inr (record {
    first = s;
    second = t;
    differ = λ eq. let e' = (bytes_eq_iff s t).1 eq in cc;
    same = h;
  })
]

consed :
    (o : Option (List Bytes)) (h : Bytes) (next_level : List Bytes)
    → elim o as (λ x. Option (List Bytes)) [ none ↦ none | some rest ↦ some (h ∷ rest) ]
      ≡ some next_level
    → (rest : List Bytes) × (o ≡ some rest) × (next_level ≡ h ∷ rest)
consed none h next_level e = absurd (cc)
consed (some rest) h next_level e = (rest, refl, cc)

combined :
    (double_hash : Bytes → Bytes) (h g : Bytes) (hashes next_level : List Bytes)
    → combine_pairs double_hash (h ∷ g ∷ hashes) ≡ some next_level
    → (rest : List Bytes) × (combine_pairs double_hash hashes ≡ some rest)
      × (next_level ≡ double_hash (h ++ g) ∷ rest)
unfolding combine_pairs
combined double_hash h g hashes next_level e =
    consed (combine_pairs double_hash hashes) (double_hash (h ++ g)) next_level e

combine_pairs-binding :
    (double_hash : Bytes → Bytes) (xs ys next_level : List Bytes)
    → All IsHash xs
    → All IsHash ys
    → length xs ≡ length ys
    → combine_pairs double_hash xs ≡ some next_level
    → combine_pairs double_hash ys ≡ some next_level
    → (xs ≡ ys) ⊎ Collision double_hash
combine_pairs-binding double_hash [] [] next_level hx hy e p q = inl refl
combine_pairs-binding double_hash [] (y ∷ ys) next_level hx hy e p q = absurd (omega arith)
combine_pairs-binding double_hash (x ∷ xs) [] next_level hx hy e p q = absurd (omega arith)
combine_pairs-binding double_hash (x ∷ []) (y ∷ ys) next_level hx hy e p q =
    absurd (unfold combine_pairs in cc)
combine_pairs-binding double_hash (x ∷ x' ∷ xs) (y ∷ []) next_level hx hy e p q =
    absurd (omega arith)
combine_pairs-binding double_hash (x ∷ x' ∷ xs) (y ∷ y' ∷ ys) next_level hx hy e p q =
    let (rest, done, whole) = combined double_hash x x' xs next_level p in
    let (rest', done', whole') = combined double_hash y y' ys next_level q in
    let head : double_hash (x ++ x') ≡ double_hash (y ++ y') = cc in
    let tail : rest ≡ rest' = cc in
    elim (same_or_Collision double_hash (x ++ x') (y ++ y') head) [
      | inr c ↦ inr c
      | inl eq ↦
          elim (combine_pairs-binding double_hash xs ys rest hx.1.1 hy.1.1 (omega arith) done
            (rw tail done')) [
              | inr c ↦ inr c
              | inl eqs ↦ let (a, b) = append-injective x x' y y' (hx.0 ∙ sym hy.0) eq in inl (cc)
            ]
    ]

take-all : (xs : List Bytes) → take (length xs) xs ≡ xs
take-all [] = refl
take-all (x ∷ xs) = ap (◌∷◌ x) (take-all xs)

take-last_again : (xs : List Bytes) → take (length xs) (last_again xs) ≡ xs
take-last_again [] = refl
take-last_again (x ∷ []) = refl
take-last_again (x ∷ y ∷ xs) = ap (◌∷◌ x) (take-last_again (y ∷ xs))

take-evened : (xs : List Bytes) → take (length xs) (evened xs) ≡ xs
unfolding evened
take-evened xs = elim (Bool-cases (length xs % 2 == 0)) [
  | inl e ↦ rw e (take-all xs)
  | inr e ↦ rw e (take-last_again xs)
]

evened-injective : (xs ys : List Bytes) → length xs ≡ length ys → evened xs ≡ evened ys → xs ≡ ys
evened-injective xs ys e h =
    sym (take-evened xs) ∙ ap (λ n. take n (evened xs)) e ∙ ap (take (length ys)) h ∙ take-evened ys

last_again-All : (xs : List Bytes) → All IsHash xs → All IsHash (last_again xs)
last_again-All [] h = tt
last_again-All (x ∷ []) h = (h.0, h)
last_again-All (x ∷ y ∷ xs) h = (h.0, last_again-All (y ∷ xs) h.1)

evened-All : (xs : List Bytes) → All IsHash xs → All IsHash (evened xs)
unfolding evened
evened-All xs h = elim (Bool-cases (length xs % 2 == 0)) [
  | inl e ↦ rw e h
  | inr e ↦ rw e (last_again-All xs h)
]

-- The hash function gives 32 bytes.
module _ (double_hash : Bytes → Bytes) (sized : (s : Bytes) → IsHash (double_hash s)) where
  combine_pairs-All :
      (xs next_level : List Bytes)
      → combine_pairs double_hash xs ≡ some next_level
      → All IsHash next_level
  combine_pairs-All [] next_level e =
      let nothing : next_level ≡ [] = unfold combine_pairs in cc in rw nothing tt
  combine_pairs-All (x ∷ []) next_level e = absurd (unfold combine_pairs in cc)
  combine_pairs-All (x ∷ y ∷ xs) next_level e =
      let (rest, done, whole) = combined double_hash x y xs next_level e in
      rw whole (sized (x ++ y), combine_pairs-All xs rest done)

  merkle_loop-binding :
      (rounds : ℕ) (xs ys : List Bytes) (root : Bytes)
      → All IsHash xs
      → All IsHash ys
      → length xs ≡ length ys
      → merkle_loop double_hash rounds xs ≡ some root
      → merkle_loop double_hash rounds ys ≡ some root
      → (xs ≡ ys) ⊎ Collision double_hash
  merkle_loop-binding rounds [] [] root hx hy e p q = inl refl
  merkle_loop-binding rounds [] (y ∷ ys) root hx hy e p q = absurd (omega arith)
  merkle_loop-binding rounds (x ∷ xs) [] root hx hy e p q = absurd (omega arith)
  merkle_loop-binding rounds (x ∷ []) (y ∷ []) root hx hy e p q =
      let same : x ≡ y = unfold merkle_loop in cc in inl (cc)
  merkle_loop-binding rounds (x ∷ []) (y ∷ y' ∷ ys) root hx hy e p q = absurd (omega arith)
  merkle_loop-binding rounds (x ∷ x' ∷ xs) (y ∷ []) root hx hy e p q = absurd (omega arith)
  merkle_loop-binding zero (x ∷ x' ∷ xs) (y ∷ y' ∷ ys) root hx hy e p q =
      absurd (unfold merkle_loop in cc)
  merkle_loop-binding (suc rounds) (x ∷ x' ∷ xs) (y ∷ y' ∷ ys) root hx hy e p q =
      let (u, done, size) = level_total double_hash x (x' ∷ xs) in
      let (v, done', size') = level_total double_hash y (y' ∷ ys) in
      let step = merkle_loop_step double_hash rounds x x' xs u done in
      let step' = merkle_loop_step double_hash rounds y y' ys v done' in
      let half : length u ≡ length v = size ∙ ap (λ n. (n + 2) / 2) (omega arith) ∙ sym size' in
      elim (merkle_loop-binding rounds u v root (combine_pairs-All _ u done)
        (combine_pairs-All _ v done') half (sym step ∙ p) (sym step' ∙ q)) [
          | inr c ↦ inr c
          | inl eq ↦
              elim (combine_pairs-binding double_hash (evened (x ∷ x' ∷ xs)) (evened (y ∷ y' ∷ ys))
                u (evened-All (x ∷ x' ∷ xs) hx) (evened-All (y ∷ y' ∷ ys) hy)
                (length-evened x (x' ∷ xs)
                  ∙ ap (λ n. 2 * ((n + 1) / 2)) e
                  ∙ sym (length-evened y (y' ∷ ys)))
                done (rw eq done')) [
                  | inr c ↦ inr c
                  | inl eqs ↦ inl (evened-injective (x ∷ x' ∷ xs) (y ∷ y' ∷ ys) e eqs)
                ]
        ]

  calc_merkle_root-binding :
      (xs ys : List Bytes) (root : Bytes)
      → All IsHash xs
      → All IsHash ys
      → length xs ≡ length ys
      → calc_merkle_root double_hash xs ≡ some root
      → calc_merkle_root double_hash ys ≡ some root
      → (xs ≡ ys) ⊎ Collision double_hash
  calc_merkle_root-binding [] [] root hx hy e p q = inl refl
  calc_merkle_root-binding [] (y ∷ ys) root hx hy e p q = absurd (omega arith)
  calc_merkle_root-binding (x ∷ xs) [] root hx hy e p q = absurd (omega arith)
  calc_merkle_root-binding (x ∷ xs) (y ∷ ys) root hx hy e p q =
      let rounds = length xs + 1 in
      let loop = calc_merkle_root-loop double_hash rounds x xs (omega arith) in
      let loop' = calc_merkle_root-loop double_hash rounds y ys (omega arith) in
      merkle_loop-binding rounds (x ∷ xs) (y ∷ ys) root hx hy e (sym loop ∙ p) (sym loop' ∙ q)

-- What an accepted block has.
validated :
    (double_hash tx_hash : Bytes → Bytes) (block : MsgBlock)
    → validate_block_merkle_root double_hash tx_hash block ≡ ok tt
    → calc_merkle_root double_hash (map tx_hash block.transactions) ≡ some block.merkle_root
unfolding validate_block_merkle_root
validated double_hash tx_hash block h =
    let (root, done) = calc_merkle_root_total double_hash (map tx_hash block.transactions) in
    elim (Bool-cases (is_nil block.transactions)) [
      | inl empty ↦ absurd (let h' = rw empty at h in cc)
      | inr full ↦ elim (Bool-cases (bytes_eq root block.merkle_root)) [
        | inl e ↦ done ∙ ap some (bytes_eq_sound root block.merkle_root e)
        | inr e ↦ absurd (let h' = rw (full, done, e) at h in cc)
      ]
    ]

map-All :
    (f : Bytes → Bytes) (xs : List Bytes) → ((s : Bytes) → IsHash (f s)) → All IsHash (map f xs)
map-All f [] h = tt
map-All f (x ∷ xs) h = (h x, map-All f xs h)

-- Where both hash functions give 32 bytes, two blocks with the same root in the header and the same
-- number of transactions that validateBlockMerkleRoot accepts have the same transaction hashes in
-- the same order, or the double hash has a collision.
pub validate_block_merkle_root-binding :
    (double_hash tx_hash : Bytes → Bytes) (merkle_root : Bytes) (ts us : List Bytes)
    → ((s : Bytes) → IsHash (double_hash s))
    → ((s : Bytes) → IsHash (tx_hash s))
    → length ts ≡ length us
    → let block : List Bytes → MsgBlock =
        λ transactions. record { merkle_root = merkle_root; transactions = transactions } in
      validate_block_merkle_root double_hash tx_hash (block ts) ≡ ok tt
      → validate_block_merkle_root double_hash tx_hash (block us) ≡ ok tt
      → (map tx_hash ts ≡ map tx_hash us) ⊎ Collision double_hash
validate_block_merkle_root-binding double_hash tx_hash merkle_root ts us sized sized' e p q =
    calc_merkle_root-binding double_hash sized (map tx_hash ts) (map tx_hash us) merkle_root
      (map-All tx_hash ts sized') (map-All tx_hash us sized')
      (length-map tx_hash ts ∙ e ∙ sym (length-map tx_hash us)) (validated double_hash tx_hash _ p)
      (validated double_hash tx_hash _ q)
