-- ===== src/Merkle/Doubled.antt =====
-- A list of transactions with its last one twice.
use dnn_node.Base.{
  suc, ◌+◌, ◌%◌, ◌≡◌, refl, sym, ◌∙◌, ap, true, false, List, [], ◌∷◌, ◌++◌, map, arith, length,
  length-append, ◌==◌,
}
use dnn_node.Base.Bytes.{Bytes}
use dnn_node.Merkle.{MsgBlock, last_again, evened, calc_merkle_root, validate_block_merkle_root}
use dnn_node.Merkle.Levels.{length-map, level_total, merkle_loop_step, calc_merkle_root-loop}

last_again-append : (hs : List Bytes) (h : Bytes) → last_again (hs ++ (h ∷ [])) ≡ hs ++ (h ∷ h ∷ [])
last_again-append [] h = refl
last_again-append (g ∷ []) h = refl
last_again-append (g ∷ k ∷ hs) h = ap (◌∷◌ g) (last_again-append (k ∷ hs) h)

-- The first round is the same.
evened-last :
    (hs : List Bytes) (h : Bytes)
    → length hs % 2 ≡ 0
    → evened (hs ++ (h ∷ h ∷ [])) ≡ evened (hs ++ (h ∷ []))
unfolding evened
evened-last hs h e =
    let odd : (length (hs ++ (h ∷ [])) % 2 == 0) ≡ false =
      rw (length-append hs (h ∷ [])) (ground (arith, e)) in
    let even : (length (hs ++ (h ∷ h ∷ [])) % 2 == 0) ≡ true =
      rw (length-append hs (h ∷ h ∷ [])) (ground (arith, e)) in
    rw (odd, even) (sym (last_again-append hs h))

calc_merkle_root-last :
    (double_hash : Bytes → Bytes) (g k h : Bytes) (hs : List Bytes)
    → length hs % 2 ≡ 0
    → calc_merkle_root double_hash (g ∷ k ∷ (hs ++ (h ∷ h ∷ [])))
      ≡ calc_merkle_root double_hash (g ∷ k ∷ (hs ++ (h ∷ [])))
calc_merkle_root-last double_hash g k h hs e =
    let rounds = length hs + 4 in
    let long = length-append hs (h ∷ h ∷ []) in
    let short = length-append hs (h ∷ []) in
    let (next_level, done, size) = level_total double_hash g (k ∷ (hs ++ (h ∷ []))) in
    let same = evened-last (g ∷ k ∷ hs) h (omega arith) in
    calc_merkle_root-loop double_hash (suc rounds) g (k ∷ (hs ++ (h ∷ h ∷ []))) (omega arith)
    ∙ merkle_loop_step double_hash rounds g k (hs ++ (h ∷ h ∷ [])) next_level (rw same done)
    ∙ sym (merkle_loop_step double_hash rounds g k (hs ++ (h ∷ [])) next_level done)
    ∙ sym (calc_merkle_root-loop double_hash (suc rounds) g (k ∷ (hs ++ (h ∷ []))) (omega arith))

map-append : (f : Bytes → Bytes) (s t : List Bytes) → map f (s ++ t) ≡ map f s ++ map f t
map-append f [] t = refl
map-append f (a ∷ s) t = ap (◌∷◌ (f a)) (map-append f s t)

-- A block of two transactions, an even number of further ones and a last one is accepted or refused
-- exactly as the block with the last one twice.
pub validate_block_merkle_root_doubled :
    (double_hash tx_hash : Bytes → Bytes) (merkle_root t u v : Bytes) (ts : List Bytes)
    → length ts % 2 ≡ 0
    → let block : List Bytes → MsgBlock =
        λ last. record { merkle_root = merkle_root; transactions = t ∷ u ∷ (ts ++ last) } in
      validate_block_merkle_root double_hash tx_hash (block (v ∷ v ∷ []))
      ≡ validate_block_merkle_root double_hash tx_hash (block (v ∷ []))
unfolding validate_block_merkle_root
validate_block_merkle_root_doubled double_hash tx_hash merkle_root t u v ts e =
    let even : length (map tx_hash ts) % 2 ≡ 0 = rw (length-map tx_hash ts) e in
    rw
      (
        map-append tx_hash ts (v ∷ v ∷ []),
        map-append tx_hash ts (v ∷ []),
        calc_merkle_root-last double_hash (tx_hash t) (tx_hash u) (tx_hash v) (map tx_hash ts) even,
      )
      refl
