-- ===== src/Encoder/Matching.antt =====
-- The greedy match finds the word that was written, whatever follows it.
use dnn_node.Base.{
  ℕ, zero, suc, ◌+◌, ◌≡◌, refl, ap, ◌≢◌, false, List, [], ◌∷◌, ◌++◌, some, ok, err, arith, ◌<◌, ◌∙◌,
  ◌&&◌, ltb, length, get_elem?, All, All-get_elem?, drop-append, if◌then◌else◌,
}
use dnn_node.Base.Bytes.{Bytes, bytes_eq_refl, has_prefix, has_prefix-append}
use dnn_node.Encoder.Apart.{
  After, Increasing, IsWord, IsWordlist, has_prefix_later, has_prefix_earlier, bytes_eq_apart,
}
use dnn_node.Encoder.{match_loop, match_bip39_word, find_loop, find_word_index, no_word}

match_loop-none :
    (ws : List Bytes) (s best : Bytes)
    → All (λ v. has_prefix s v ≡ false) ws
    → match_loop ws s best ≡ best
unfolding match_loop
match_loop-none [] s best h = refl
match_loop-none (w ∷ ws) s best h = rw h.0 (match_loop-none ws s best h.1)

After-no_prefix :
    (w t : Bytes) (ws : List Bytes) → After w ws → All (λ v. has_prefix (w ++ t) v ≡ false) ws
After-no_prefix w t [] a = tt
After-no_prefix w t (v ∷ ws) a = (has_prefix_later w v t a.0, After-no_prefix w t ws a.1)

-- The word itself is taken, and nothing behind it in the list is longer.
match_loop_takes :
    (ws : List Bytes) (c : ℕ) (w t : Bytes)
    → After (c ∷ w) ws
    → match_loop ((c ∷ w) ∷ ws) (c ∷ (w ++ t)) [] ≡ c ∷ w
unfolding match_loop
match_loop_takes ws c w t a =
    let taken : (if has_prefix (c ∷ (w ++ t)) (c ∷ w) && ltb 0 (suc (length w)) then c ∷ w else [])
        ≡ c ∷ w =
      ground (arith, has_prefix-append w t) in
    rw taken (match_loop-none ws (c ∷ (w ++ t)) (c ∷ w) (After-no_prefix (c ∷ w) t ws a))

match_loop_finds :
    (ws : List Bytes) (i : ℕ) (w t : Bytes)
    → Increasing ws
    → get_elem? ws i ≡ some w
    → w ≢ []
    → match_loop ws (w ++ t) [] ≡ w
unfolding match_loop
match_loop_finds [] i w t h e k = absurd (cc)
match_loop_finds (v ∷ ws) zero [] t h e k = absurd (k refl)
match_loop_finds (v ∷ ws) zero (c ∷ w) t h e k =
    let e' : v ≡ c ∷ w = cc in rw e' (match_loop_takes ws c w t (rw e' at h.0))
match_loop_finds (v ∷ ws) (suc i) w t h e k =
    rw (has_prefix_earlier v w t (All-get_elem? _ ws i h.0 e)) (match_loop_finds ws i w t h.1 e k)

pub match_bip39_word-append :
    (ws : List Bytes) (i : ℕ) (w t : Bytes)
    → IsWordlist ws
    → get_elem? ws i ≡ some w
    → match_bip39_word ws (w ++ t) ≡ ok (w, t)
unfolding match_bip39_word
match_bip39_word-append ws i [] t h e = absurd ((All-get_elem? IsWord ws i h.words e).0 refl)
match_bip39_word-append ws i (c ∷ w) t h e =
    let found : match_loop ws (c ∷ (w ++ t)) [] ≡ c ∷ w =
      match_loop_finds ws i (c ∷ w) t h.increasing e (λ k. cc k) in
    rw found (ap (λ r. ok (c ∷ w, r)) (drop-append (c ∷ w) t))

no_prefix :
    (ws : List Bytes) (c : ℕ) (s : Bytes)
    → All IsWord ws
    → c < b'a'
    → All (λ w. has_prefix (c ∷ s) w ≡ false) ws
no_prefix [] c s a h = tt
no_prefix ([] ∷ ws) c s a h = absurd (a.0.0 refl)
no_prefix ((d ∷ w) ∷ ws) c s a h = (ground arith, no_prefix ws c s a.1 h)

-- No word begins a text whose first byte comes before the letters.
pub match_bip39_word-no_word :
    (ws : List Bytes) (c : ℕ) (s : Bytes)
    → IsWordlist ws
    → c < b'a'
    → match_bip39_word ws (c ∷ s) ≡ err no_word
unfolding match_bip39_word
match_bip39_word-no_word ws c s v h =
    rw (match_loop-none ws (c ∷ s) [] (no_prefix ws c s v.words h))

find_loop_finds :
    (ws : List Bytes) (i k : ℕ) (w : Bytes)
    → Increasing ws
    → get_elem? ws i ≡ some w
    → find_loop ws w k ≡ some (k + i)
unfolding find_loop
find_loop_finds [] i k w h e = absurd (cc)
find_loop_finds (v ∷ ws) zero k w h e =
    let e' : v ≡ w = cc in rw (e', bytes_eq_refl w) (ap some (omega arith))
find_loop_finds (v ∷ ws) (suc i) k w h e =
    rw (bytes_eq_apart v w (All-get_elem? _ ws i h.0 e))
      (find_loop_finds ws i (k + 1) w h.1 e ∙ ap some (omega arith))

pub find_word_index-get_elem? :
    (ws : List Bytes) (i : ℕ) (w : Bytes)
    → IsWordlist ws
    → get_elem? ws i ≡ some w
    → find_word_index ws w ≡ some i
unfolding find_word_index
find_word_index-get_elem? ws i w h e =
    find_loop_finds ws i 0 w h.increasing e ∙ ap some (omega arith)
