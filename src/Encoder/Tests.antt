-- ===== src/Encoder/Tests.antt =====
-- The encoder on inputs of internal/encoder/encoder_test.go and the README, and its theorems at some.
use dnn_node.Base.{◌≢◌, ℕ, ◌≡◌, refl, List, ◌++◌, ok, err, arith}
use dnn_node.Base.Bytes.{Bytes, codes}
use dnn_node.Base.Int.{pos, negsuc, ◌*ℤ◌}
use dnn_node.Base.Decimal.{format_ℕ, format_int}
use dnn_node.Encoder.{
  Encoder, new_encoder_with_params, encode, decode, encode_position, decode_position,
  negative_block, position_below_one,
}
use dnn_node.Encoder.RoundTrip.{decode-encode}
use dnn_node.Encoder.Words.{bip39_english_wordlist}
use dnn_node.Encoder.Notation.{expand_shorthand}
use dnn_node.Encoder.Notation.Shorthand.{IsOrder}
use dnn_node.Encoder.Notation.Ambiguity.{expand_shorthand_ambiguous}

abbrev testnet : Encoder
testnet = new_encoder_with_params (pos 5) (pos 1000000) (pos 940000)

positions :
    (encode_position (pos 1) ≡ codes "a")
    × (encode_position (pos 26) ≡ codes "z")
    × (encode_position (pos 27) ≡ codes "aa")
    × (encode_position (pos 702) ≡ codes "zz")
    × (encode_position (pos 703) ≡ codes "aaa")
    × (decode_position (codes "zz") ≡ ok (pos 702))
unfolding encode_position decode_position
positions = (refl, refl, refl, refl, refl, refl)

first_block : encode testnet (pos 1998) (pos 1) ≡ ok (codes "nabandonzooa")
unfolding encode encode_position new_encoder_with_params bip39_english_wordlist
first_block = refl

second_cycle : encode testnet (pos 3996001) (pos 28) ≡ ok (codes "nabandonabandon1ab")
unfolding encode encode_position new_encoder_with_params bip39_english_wordlist format_int
second_cycle = refl

refused :
    (encode testnet (negsuc 0) (pos 1) ≡ err negative_block)
    × (encode testnet (pos 7) (pos 0) ≡ err position_below_one)
unfolding encode
refused = (refl, refl)

decode-encode_example :
    (s : Bytes) × (encode testnet (pos 3996001) (pos 28) ≡ ok s)
    × (decode testnet s ≡ ok (pos 3996001, pos 28))
decode-encode_example =
    decode-encode (pos 5) (pos 1000000) (pos 940000) 3996001 28 (omega arith) (omega arith)
      (omega arith)

expand_shorthand_ambiguous_example :
    (order : List (Bytes × ℕ)) × (order' : List (Bytes × ℕ)) × IsOrder order
    × IsOrder order'
    × (expand_shorthand order (format_ℕ 5 ++ codes "qt") ≡ pos 0)
    × (expand_shorthand order' (format_ℕ 5 ++ codes "qt") ≡ pos 5 *ℤ pos 1000000000000000000)
    × (expand_shorthand order (format_ℕ 5 ++ codes "qt")
        ≢ expand_shorthand order' (format_ℕ 5 ++ codes "qt"))
expand_shorthand_ambiguous_example = expand_shorthand_ambiguous 5 (omega arith) (omega arith)
