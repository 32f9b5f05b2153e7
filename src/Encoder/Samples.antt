-- ===== src/Encoder/Samples.antt =====
-- An encoder and what it gives on some inputs, for the tests of the modules that use it.
use dnn_node.Base.{◌≡◌, refl, ok, err, arith}
use dnn_node.Base.Bytes.{codes}
use dnn_node.Base.Int.{pos}
use dnn_node.Encoder.{
  Encoder, new_encoder_with_params, encode, encode_position, decode, position_below_one,
}
use dnn_node.Encoder.RoundTrip.{decode-encode}
use dnn_node.Encoder.Words.{bip39_english_wordlist}

abbrev pub testnet : Encoder
testnet = new_encoder_with_params (pos 5) (pos 1000000) (pos 940000)

pub first_code : encode testnet (pos 1998) (pos 1) ≡ ok (codes "nabandonzooa")
unfolding encode encode_position new_encoder_with_params bip39_english_wordlist
first_code = refl

pub no_code : encode testnet (pos 50) (pos 0) ≡ err position_below_one
unfolding encode
no_code = refl

pub testnet_start : testnet.genesis_block ≡ pos 940000
unfolding new_encoder_with_params
testnet_start = refl

pub first_decoded : decode testnet (codes "nabandonzooa") ≡ ok (pos 1998, pos 1)
first_decoded =
    let (code, printed, back) =
      decode-encode (pos 5) (pos 1000000) (pos 940000) 1998 1 (omega arith) (omega arith)
        (omega arith) in
    let same : code ≡ codes "nabandonzooa" = let first = first_code in cc in rw same at back
