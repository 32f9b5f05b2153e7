-- ===== src/Encoder/Position.antt =====
-- The position suffix is a numeral in bijective base 26.
use dnn_node.Base.{ℕ, zero, suc, ◌+◌, ◌/◌, ◌%◌, ◌≤◌, ◌≡◌, refl, ◌≢◌, [], ◌∷◌, ok, arith, ◌∙◌, All}
use mathlib.Core.List.{cons-ne-nil}
use dnn_node.Base.Bytes.{Bytes}
use dnn_node.Base.Int.{pos, max_int64}
use dnn_node.Encoder.{letters_loop, encode_position, position_loop, decode_position}

abbrev pub IsLetter : ℕ → Type 0
IsLetter c = (b'a' ≤ c) × (c ≤ b'z')

letters_loop-All :
    (fuel n : ℕ) (result : Bytes) → All IsLetter result → All IsLetter (letters_loop fuel n result)
unfolding letters_loop
letters_loop-All zero n result h = h
letters_loop-All (suc fuel) zero result h = h
letters_loop-All (suc fuel) (suc n) result h = letters_loop-All fuel (n / 26) _ (omega arith, h)

letters_loop-ne-nil : (fuel n : ℕ) (result : Bytes) → result ≢ [] → letters_loop fuel n result ≢ []
unfolding letters_loop
letters_loop-ne-nil zero n result h = h
letters_loop-ne-nil (suc fuel) zero result h = h
letters_loop-ne-nil (suc fuel) (suc n) result h =
    letters_loop-ne-nil fuel (n / 26) _ (cons-ne-nil _ _)

-- Reading the last letter behind the letters before it gives the position.
position_last :
    (n : ℕ) (result : Bytes)
    → suc n ≤ max_int64
    → position_loop ((b'a' + n % 26) ∷ result) (n / 26) ≡ position_loop result (suc n)
unfolding position_loop
position_last n result h = ground arith

position-letters_loop :
    (fuel n : ℕ) (result : Bytes)
    → n ≤ fuel
    → n ≤ max_int64
    → position_loop (letters_loop fuel n result) 0 ≡ position_loop result n
unfolding letters_loop
position-letters_loop zero n result h k = let e : n ≡ 0 = omega arith in rw e
position-letters_loop (suc fuel) zero result h k = refl
position-letters_loop (suc fuel) (suc n) result h k =
    position-letters_loop fuel (n / 26) _ (omega arith) (omega arith) ∙ position_last n result k

decode_position-ne-nil :
    (s : Bytes) {n : ℕ}
    → s ≢ []
    → position_loop s 0 ≡ ok n
    → n ≤ max_int64
    → decode_position s ≡ ok (pos n)
unfolding decode_position
decode_position-ne-nil [] h e k = absurd (h refl)
decode_position-ne-nil (c ∷ s) {n} h e k = rw e (ground arith)

-- A printed position is one or more letters.
pub encode_position-letters :
    (n : ℕ) → (encode_position (pos n) ≢ []) × All IsLetter (encode_position (pos n))
unfolding encode_position letters_loop
encode_position-letters zero = (cons-ne-nil _ _, omega arith)
encode_position-letters (suc n) = (
  letters_loop-ne-nil n (n / 26) _ (cons-ne-nil _ _),
  letters_loop-All n (n / 26) _ (omega arith, tt),
)

-- Every position from 1 to the largest `int` is read back from its letters.
pub decode_position-encode_position :
    (n : ℕ) → 1 ≤ n → n ≤ max_int64 → decode_position (encode_position (pos n)) ≡ ok (pos n)
decode_position-encode_position zero h k = absurd (omega arith)
decode_position-encode_position (suc n) h k =
    decode_position-ne-nil (encode_position (pos (suc n))) (encode_position-letters (suc n)).0
      (unfold encode_position position_loop in
        position-letters_loop (suc n) (suc n) [] (omega arith) k)
      k
