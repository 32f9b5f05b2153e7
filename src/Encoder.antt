-- ===== src/Encoder.antt =====
-- internal/encoder/encoder.go: the encoder, `Encode` and `Decode`. `Encoder.Notation` has the rest
-- of the file; the other children are proofs.
pub mod Words
pub mod Apart
pub mod Matching
pub mod Position
pub mod RoundTrip
pub mod Notation
pub mod Samples
mod Tests
use dnn_node.Base.{
  ℕ, zero, suc, ◌+◌, ◌-◌, ◌*◌, ◌/◌, ◌%◌, ◌^◌, Bool, true, false, not, ◌&&◌, ◌||◌, List, [], ◌∷◌,
  ◌++◌, Option, none, some, Result, ok, err, panic, ◌>>=◌, ◌>>◌, fail_if, wrap_err, or_err,
  or_panic, ltb, leb, ◌==◌, if◌then◌else◌, length, take, drop, get_elem?, is_nil,
}
use dnn_node.Base.Bytes.{Bytes, codes, bytes_eq, has_prefix}
use dnn_node.Base.Int.{ℤ, pos, negsuc, signed, ◌+ℤ◌, ◌*ℤ◌, ltb_ℤ}
use dnn_node.Base.Decimal.{is_digit, format_int, parse_int}
use dnn_node.Constants
use Words.{bip39_english_wordlist}

pub record Encoder : Type 0 where
  pub blocks_per_batch : ℤ
  pub tx_max : ℤ
  pub genesis_block : ℤ
  pub wordlist : List Bytes
  pub prefixes : List Bytes
  pub bip39_base : ℕ
  pub cycle_size : ℕ

-- The three nested loops of `generatePrefixes`, over the letters in place of their indices.
third_letters : ℕ → ℕ → Bytes → List Bytes
third_letters i j [] = []
third_letters i j (k ∷ ks) =
    let rest = third_letters i j ks in if k == i || k == j then rest else (i ∷ j ∷ k ∷ []) ∷ rest

second_letters : Bytes → ℕ → Bytes → List Bytes
second_letters alph i [] = []
second_letters alph i (j ∷ js) =
    let rest = second_letters alph i js in if j == i then rest else third_letters i j alph ++ rest

first_letters : Bytes → Bytes → List Bytes
first_letters alph [] = []
first_letters alph (i ∷ is) = second_letters alph i alph ++ first_letters alph is

generate_prefixes : List Bytes
generate_prefixes =
    first_letters (codes "abcdefghijklmnopqrstuvwxyz") (codes "abcdefghijklmnopqrstuvwxyz")

pub new_encoder_with_params : ℤ → ℤ → ℤ → Encoder
new_encoder_with_params blocks_per_batch tx_max genesis_block = record {
  blocks_per_batch = blocks_per_batch;
  tx_max = tx_max;
  genesis_block = genesis_block;
  wordlist = bip39_english_wordlist;
  prefixes = generate_prefixes;
  bip39_base = length bip39_english_wordlist;
  cycle_size = length bip39_english_wordlist * length bip39_english_wordlist;
}

pub new_encoder_with_network : Bytes → Encoder
unfolding new_encoder_with_params
new_encoder_with_network network_mode =
    new_encoder_with_params (pos Constants.default_blocks_per_batch) (pos Constants.default_tx_max)
      (pos (Constants.get_genesis_block network_mode))

pub data EncodeError : Type 0 where
  negative_block position_below_one : EncodeError

pub data PositionError : Type 0 where
  empty_position invalid_character : PositionError

pub data MatchError : Type 0 where
  empty_string no_word : MatchError

pub data DecodeError : Type 0 where
  not_a_code no_position_suffix invalid_cycle first_word_missing second_word_missing : DecodeError
  first_word second_word : MatchError → DecodeError
  invalid_position : PositionError → DecodeError

-- `for n > 0 { n--; result = 'a'+n%26 + result; n /= 26 }`; `n` rounds are enough.
letters_loop : ℕ → ℕ → Bytes → Bytes
letters_loop zero n result = result
letters_loop (suc fuel) zero result = result
letters_loop (suc fuel) (suc n) result = letters_loop fuel (n / 26) ((b'a' + n % 26) ∷ result)

-- A position below 1 is read as 1.
pub encode_position : ℤ → Bytes
unfolding letters_loop
encode_position (pos zero) = letters_loop 1 1 []
encode_position (pos (suc n)) = letters_loop (suc n) (suc n) []
encode_position (negsuc n) = letters_loop 1 1 []

-- The accumulator is an `int` that wraps around; it is held as its 64 bits.
position_loop : Bytes → ℕ → Result PositionError ℕ
position_loop [] result = ok result
position_loop (c ∷ s) result =
    if ltb c b'a' || ltb b'z' c
    then err invalid_character
    else position_loop s ((result * 26 + (c - b'a') + 1) % 2 ^ 64)

pub decode_position : Bytes → Result PositionError ℤ
unfolding position_loop
decode_position [] = err empty_position
decode_position (c ∷ s) = do result ← position_loop (c ∷ s) 0; ok (signed result)

-- The longest word so far that the text begins with.
match_loop : List Bytes → Bytes → Bytes → Bytes
match_loop [] s best_match = best_match
match_loop (w ∷ ws) s best_match =
    match_loop ws s (if has_prefix s w && ltb (length best_match) (length w) then w else best_match)

pub match_bip39_word : List Bytes → Bytes → Result MatchError (Bytes × Bytes)
unfolding match_loop
match_bip39_word wordlist s = do
  fail_if (is_nil s) empty_string
  let best_match = match_loop wordlist s []
  fail_if (is_nil best_match) no_word
  ok (best_match, drop (length best_match) s)

find_loop : List Bytes → Bytes → ℕ → Option ℕ
find_loop [] word i = none
find_loop (w ∷ ws) word i = if bytes_eq w word then some i else find_loop ws word (i + 1)

-- `none` is the source's -1.
pub find_word_index : List Bytes → Bytes → Option ℕ
unfolding find_loop
find_word_index wordlist word = find_loop wordlist word 0

-- Division panics when the divisor is 0.
abbrev div_mod : ℕ → ℕ → Result EncodeError (ℕ × ℕ)
div_mod a b = if b == 0 then panic else ok (a / b, a % b)

abbrev pub cycle_digits : ℕ → Bytes
cycle_digits cycle = if ltb 0 cycle then format_int (pos cycle) else []

pub encode : Encoder → ℤ → ℤ → Result EncodeError Bytes
encode e (negsuc n) transaction_position = err negative_block
encode e (pos block_number) transaction_position = do
  fail_if (ltb_ℤ transaction_position (pos 1)) position_below_one
  (cycle, block_in_cycle) ← div_mod block_number e.cycle_size
  (word1_index, word2_index) ← div_mod block_in_cycle e.bip39_base
  word1 ← or_panic (get_elem? e.wordlist word1_index)
  word2 ← or_panic (get_elem? e.wordlist word2_index)
  ok (b'n' ∷ (word1 ++ (word2 ++ (cycle_digits cycle ++ encode_position transaction_position))))

digit_count : Bytes → ℕ
digit_count [] = 0
digit_count (c ∷ s) = if is_digit c then suc (digit_count s) else 0

read_cycle : Bytes → Result DecodeError ℤ
read_cycle digits = if is_nil digits then ok (pos 0) else or_err (parse_int digits) invalid_cycle

-- `Decode` behind the two words: the cycle, the position, and the block number.
decode_tail : Encoder → Bytes → Bytes → Bytes → Result DecodeError (ℤ × ℤ)
unfolding digit_count read_cycle
decode_tail e word1 word2 rest = do
  let digits = digit_count rest
  cycle ← read_cycle (take digits rest)
  fail_if (is_nil (drop digits rest)) no_position_suffix
  position ← wrap_err invalid_position (decode_position (drop digits rest))
  word1_index ← or_err (find_word_index e.wordlist word1) first_word_missing
  word2_index ← or_err (find_word_index e.wordlist word2) second_word_missing
  let block_in_cycle = pos word1_index *ℤ pos e.bip39_base +ℤ pos word2_index
  ok (cycle *ℤ pos e.cycle_size +ℤ block_in_cycle, position)

pub decode : Encoder → Bytes → Result DecodeError (ℤ × ℤ)
unfolding decode_tail
decode e [] = err not_a_code
decode e (c ∷ []) = err not_a_code
decode e (c ∷ d ∷ s) = do
  fail_if (not (c == b'n')) not_a_code
  (word1, rest) ← wrap_err first_word (match_bip39_word e.wordlist (d ∷ s))
  (word2, rest) ← wrap_err second_word (match_bip39_word e.wordlist rest)
  decode_tail e word1 word2 rest
