-- ===== src/Encoder/RoundTrip.antt =====
-- `Decode` undoes `Encode`.
use native.Mathlib.Nat.{div-lt_iff_lt-mul, div-add-mod', mod-lt, div-le_self}
use dnn_node.Base.{
  ℕ, zero, suc, ◌+◌, ◌*◌, ◌/◌, ◌%◌, ◌≤◌, ◌<◌, ◌≡◌, refl, ◌≢◌, false, List, [], ◌∷◌, ◌++◌, some, ok,
  arith, ltb, lt→ltb, or_err, drop-append, ◌==◌, length, take, get_elem?, get_elem?_total, is_nil,
  All, All-get_elem?, ap,
}
use dnn_node.Base.Bytes.{Bytes}
use dnn_node.Base.Int.{ℤ, pos, max_int64, ◌+ℤ◌, ◌*ℤ◌, +ℤ_pos, *ℤ_pos}
use dnn_node.Base.Decimal.{IsDigit, format_int, format_ℕ-IsNumeral, parse_int, parse_int-format_int}
use dnn_node.Encoder.{
  Encoder, new_encoder_with_params, encode, cycle_digits, encode_position, digit_count, read_cycle,
  decode_tail, decode, match_bip39_word, invalid_cycle,
}
use dnn_node.Encoder.Apart.{IsWordlist, IsWord, bip39_english_wordlist-IsWordlist}
use dnn_node.Encoder.Matching.{match_bip39_word-append, find_word_index-get_elem?}
use dnn_node.Encoder.Position.{IsLetter, encode_position-letters, decode_position-encode_position}

-- What `NewEncoderWithParams` establishes.
pub record IsEncoder (e : Encoder) : Type 0 where
  pub list : IsWordlist e.wordlist
  pub base : e.bip39_base ≡ length e.wordlist
  pub cycle : e.cycle_size ≡ e.bip39_base * e.bip39_base
  pub positive : 0 < e.bip39_base
  pub bounded : e.cycle_size ≤ max_int64

pub new_encoder_with_params-IsEncoder :
    (blocks_per_batch tx_max genesis_block : ℤ)
    → IsEncoder (new_encoder_with_params blocks_per_batch tx_max genesis_block)
unfolding new_encoder_with_params
new_encoder_with_params-IsEncoder blocks_per_batch tx_max genesis_block =
    let (size, list) = bip39_english_wordlist-IsWordlist in
    record {
      list = list;
      base = refl;
      cycle = refl;
      positive = rw size (omega arith);
      bounded = rw size (omega arith);
    }

digit_count-append :
    (digits s : Bytes)
    → All IsDigit digits
    → All IsLetter s
    → digit_count (digits ++ s) ≡ length digits
unfolding digit_count
digit_count-append [] [] h k = refl
digit_count-append [] (c ∷ s) h k = ground arith
digit_count-append (c ∷ digits) s h k = ground (arith, digit_count-append digits s h.1 k)

take-append {ℓ} : {A : Type ℓ} (xs ys : List A) → take (length xs) (xs ++ ys) ≡ xs
take-append [] ys = refl
take-append (x ∷ xs) ys = ap (◌∷◌ x) (take-append xs ys)

cycle_digits-suc : (n : ℕ) → cycle_digits (suc n) ≡ format_int (pos (suc n))
cycle_digits-suc n = rw (lt→ltb 0 (suc n) (omega arith))

pub cycle_digits-All : (cycle : ℕ) → All IsDigit (cycle_digits cycle)
cycle_digits-All zero = tt
cycle_digits-All (suc n) =
    rw (cycle_digits-suc n) (unfold format_int in (format_ℕ-IsNumeral (suc n)).1)

read_cycle-ne-nil : (s : Bytes) → s ≢ [] → read_cycle s ≡ or_err (parse_int s) invalid_cycle
unfolding read_cycle
read_cycle-ne-nil [] h = absurd (h refl)
read_cycle-ne-nil (c ∷ s) h = refl

read_cycle-cycle_digits :
    (cycle : ℕ) → cycle ≤ max_int64 → read_cycle (cycle_digits cycle) ≡ ok (pos cycle)
read_cycle-cycle_digits zero h = unfold read_cycle in refl
read_cycle-cycle_digits (suc n) h =
    let printed : format_int (pos (suc n)) ≢ [] =
      unfold format_int in (format_ℕ-IsNumeral (suc n)).0 in
    rw (cycle_digits-suc n, read_cycle-ne-nil _ printed, parse_int-format_int (pos (suc n)) h)

is_nil-ne-nil : (s : Bytes) → s ≢ [] → is_nil s ≡ false
is_nil-ne-nil [] h = absurd (h refl)
is_nil-ne-nil (c ∷ s) h = refl

decode_n :
    (e : Encoder) (s : Bytes) {word1 rest1 word2 rest2 : Bytes}
    → s ≢ []
    → match_bip39_word e.wordlist s ≡ ok (word1, rest1)
    → match_bip39_word e.wordlist rest1 ≡ ok (word2, rest2)
    → decode e (b'n' ∷ s) ≡ decode_tail e word1 word2 rest2
unfolding decode
decode_n e [] n h k = absurd (n refl)
decode_n e (d ∷ s) n h k = rw (h, k)

append-ne-nil : (s t : Bytes) → s ≢ [] → s ++ t ≢ []
append-ne-nil [] t h = absurd (h refl)
append-ne-nil (c ∷ s) t h = λ k. cc k

module _ (e : Encoder) (v : IsEncoder e) (i j : ℕ) (word1 word2 : Bytes)
    (first : get_elem? e.wordlist i ≡ some word1)
    (second : get_elem? e.wordlist j ≡ some word2) where
  decode_tail-print :
      (cycle p : ℕ)
      → cycle ≤ max_int64
      → 1 ≤ p
      → p ≤ max_int64
      → decode_tail e word1 word2 (cycle_digits cycle ++ encode_position (pos p))
        ≡ ok (pos cycle *ℤ pos e.cycle_size +ℤ (pos i *ℤ pos e.bip39_base +ℤ pos j), pos p)
  unfolding decode_tail
  decode_tail-print cycle p h k l =
      let (full, letters) = encode_position-letters p in
      let s = encode_position (pos p) in
      let ds = cycle_digits cycle in
      rw (
        digit_count-append ds s (cycle_digits-All cycle) letters,
        take-append ds s,
        drop-append ds s,
        read_cycle-cycle_digits cycle h,
        is_nil-ne-nil s full,
        decode_position-encode_position p k l,
        find_word_index-get_elem? e.wordlist i word1 v.list first,
        find_word_index-get_elem? e.wordlist j word2 v.list second,
      )

  decode-words :
      (rest : Bytes) → decode e (b'n' ∷ (word1 ++ (word2 ++ rest))) ≡ decode_tail e word1 word2 rest
  decode-words rest =
      decode_n e (word1 ++ (word2 ++ rest))
        (append-ne-nil word1 _ (All-get_elem? IsWord e.wordlist i v.list.words first).0)
        (match_bip39_word-append e.wordlist i word1 (word2 ++ rest) v.list first)
        (match_bip39_word-append e.wordlist j word2 rest v.list second)

-- The arithmetic: a block number is put together from its cycle and its two digits in base `b`.
digits_of_block : (n b : ℕ) → n / (b * b) * (b * b) + (n % (b * b) / b * b + n % (b * b) % b) ≡ n
digits_of_block n b = rw (div-add-mod' (n % (b * b)) b) (div-add-mod' n (b * b))

first_digit : (n b : ℕ) → 0 < b → n % (b * b) / b < b
first_digit n b h = (div-lt_iff_lt-mul h).1 (mod-lt n (grind arith))

block_number_wraps_not :
    (n b : ℕ)
    → 0 < b
    → b * b ≤ max_int64
    → n ≤ max_int64
    → pos (n / (b * b)) *ℤ pos (b * b) +ℤ (pos (n % (b * b) / b) *ℤ pos b +ℤ pos (n % (b * b) % b))
      ≡ pos n
block_number_wraps_not n b h k l =
    let sum = digits_of_block n b in
    let square : b ≤ b * b = grind arith in
    let quotient : n / (b * b) ≤ n = div-le_self n (b * b) in
    let digit : n % (b * b) / b < b = first_digit n b h in
    rw (
      *ℤ_pos (n / (b * b)) (b * b) (omega arith) k (omega arith),
      *ℤ_pos (n % (b * b) / b) b (omega arith) (omega arith) (omega arith),
      +ℤ_pos (n % (b * b) / b * b) (n % (b * b) % b) (omega arith),
      +ℤ_pos (n / (b * b) * (b * b)) (n % (b * b) / b * b + n % (b * b) % b) (omega arith),
      sum,
    )

cycle_size_positive : (e : Encoder) → IsEncoder e → (e.cycle_size == 0) ≡ false
cycle_size_positive e v =
    let square : 0 < e.bip39_base * e.bip39_base = grind (arith, v.positive) in
    rw v.cycle (ground arith)

block_number :
    (e : Encoder)
    → IsEncoder e
    → (b : ℕ) → b ≤ max_int64
    → pos (b / e.cycle_size) *ℤ pos e.cycle_size
        +ℤ (pos (b % e.cycle_size / e.bip39_base) *ℤ pos e.bip39_base
            +ℤ pos (b % e.cycle_size % e.bip39_base))
      ≡ pos b
block_number e v b h =
    rw v.cycle (block_number_wraps_not b e.bip39_base v.positive (rw v.cycle at v.bounded) h)

-- The text that `Encode` prints, for a block number and a position in range.
pub encode_print :
    (e : Encoder) (b p : ℕ)
    → IsEncoder e
    → 1 ≤ p
    → let c = e.cycle_size in
      let w = e.bip39_base in
      (word1 : Bytes) × (word2 : Bytes) × (get_elem? e.wordlist (b % c / w) ≡ some word1)
      × (get_elem? e.wordlist (b % c % w) ≡ some word2)
      × (encode e (pos b) (pos p)
          ≡ ok (b'n' ∷ (word1 ++ (word2 ++ (cycle_digits (b / c) ++ encode_position (pos p))))))
unfolding encode
encode_print e b p v h =
    let high : b % e.cycle_size / e.bip39_base < length e.wordlist =
      rw (v.cycle, ← v.base) (first_digit b e.bip39_base v.positive) in
    let low : b % e.cycle_size % e.bip39_base < length e.wordlist =
      rw (← v.base) (mod-lt (b % e.cycle_size) v.positive) in
    let (word1, first) = get_elem?_total e.wordlist _ high in
    let (word2, second) = get_elem?_total e.wordlist _ low in
    let in_order : ltb (p + 0) 1 ≡ false = ground arith in
    let base : (e.bip39_base == 0) ≡ false = ground arith in
    let size : (e.cycle_size == 0) ≡ false = cycle_size_positive e v in
    (word1, word2, first, second, rw (in_order, size, base, first, second))

-- `Decode` gives back every block number and every position that `Encode` is given.
pub decode-encode-IsEncoder :
    (e : Encoder) (b p : ℕ)
    → IsEncoder e
    → b ≤ max_int64
    → 1 ≤ p
    → p ≤ max_int64
    → (s : Bytes) × (encode e (pos b) (pos p) ≡ ok s) × (decode e s ≡ ok (pos b, pos p))
decode-encode-IsEncoder e b p v h k l =
    let (word1, word2, first, second, printed) = encode_print e b p v k in
    let cycle : b / e.cycle_size ≤ max_int64 = omega (arith, div-le_self b e.cycle_size) in
    (
      _,
      printed,
      rw (
        decode-words e v _ _ word1 word2 first second _,
        decode_tail-print e v _ _ word1 word2 first second (b / e.cycle_size) p cycle k l,
        block_number e v b h,
      ),
    )

-- For the encoder that NewEncoderWithParams builds, Encode succeeds on every block from 0 and every
-- position from 1 that an int holds, and Decode gives both back.
pub decode-encode :
    (blocks_per_batch tx_max genesis_block : ℤ) (b p : ℕ)
    → b ≤ max_int64
    → 1 ≤ p
    → p ≤ max_int64
    → let e = new_encoder_with_params blocks_per_batch tx_max genesis_block in
      (s : Bytes) × (encode e (pos b) (pos p) ≡ ok s) × (decode e s ≡ ok (pos b, pos p))
decode-encode blocks_per_batch tx_max genesis_block b p =
    decode-encode-IsEncoder _ b p
      (new_encoder_with_params-IsEncoder blocks_per_batch tx_max genesis_block)
