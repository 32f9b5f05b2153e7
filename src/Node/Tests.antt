-- ===== src/Node/Tests.antt =====
-- `parseDNNName` on small inputs, and its theorems at some.
use dnn_node.Base.{◌≡◌, refl, [], take, All, ok, err, arith}
use dnn_node.Base.Bytes.{codes, split, contains}
use dnn_node.Base.Decimal.{parse_int, parse_int-format_int}
use dnn_node.Base.Int.{pos, ◌+ℤ◌, ◌*ℤ◌}
use dnn_node.Encoder.RoundTrip.{new_encoder_with_params-IsEncoder}
use dnn_node.Encoder.Apart.{IsWordlist}
use dnn_node.Encoder.Samples.{testnet, first_code, testnet_start}
use dnn_node.Resolver.Input.{dotted, generate_alternate_notations}
use dnn_node.Node.{
  invalid_encoded, invalid_shorthand, latest, named_block, shorthand_loop,
  parse_block_with_shorthand, parse_dotted, parse_dnn_name, is_encoded_format, parse_undotted,
}
use dnn_node.Node.Names.{parse_dnn_name-generate_alternate_notations}
use dnn_node.Node.Refused.{parse_dnn_name-Nameless, parse_dnn_name-shorthand}

two_suffixes : parse_block_with_shorthand (codes "2k5h") ≡ ok (pos 2500, pos 1)
unfolding parse_block_with_shorthand shorthand_loop ◌+ℤ◌ ◌*ℤ◌ parse_int
two_suffixes = refl

million : parse_block_with_shorthand (codes "1m50") ≡ ok (pos 1000050, pos 1)
unfolding parse_block_with_shorthand shorthand_loop ◌+ℤ◌ ◌*ℤ◌ parse_int
million = refl

only_name : parse_dnn_name testnet 940000 parse_int (codes "alice") ≡ ok (latest (codes "alice"))
unfolding parse_dnn_name contains parse_undotted
only_name = refl

at_fifty :
    parse_dnn_name testnet 940000 parse_int (codes "n50.3") ≡ ok (named_block [] (pos 50) (pos 3))
unfolding parse_dnn_name contains split parse_dotted parse_block_with_shorthand shorthand_loop ◌+ℤ◌
    parse_int
at_fifty = refl

bob_refused : parse_dnn_name testnet 940000 parse_int (codes "bob.n50") ≡ err invalid_shorthand
unfolding parse_dnn_name contains split parse_dotted parse_block_with_shorthand shorthand_loop
bob_refused = refl

testnet-IsWordlist : IsWordlist testnet.wordlist
testnet-IsWordlist = (new_encoder_with_params-IsEncoder (pos 5) (pos 1000000) (pos 940000)).list

parse_dnn_name-generate_alternate_notations_example :
    All
      (λ notation.
        parse_dnn_name testnet 940000 parse_int notation
        ≡ ok (named_block (codes "alice") (pos 1998) (pos 1)))
      (take 3 (
        generate_alternate_notations testnet
          (codes "alice")
          (pos 1998)
          (pos 1)
          (codes "nabandonzooa")))
parse_dnn_name-generate_alternate_notations_example =
    parse_dnn_name-generate_alternate_notations testnet parse_int (codes "alice")
      (codes "nabandonzooa") 1998 1 940000 testnet_start
      (new_encoder_with_params-IsEncoder (pos 5) (pos 1000000) (pos 940000)) (omega arith) refl
      (omega arith) (omega arith) (omega arith) (omega arith)
      (parse_int-format_int (pos 1) (omega arith)) first_code

parse_dnn_name-Nameless_example : (named_block [] (pos 50) (pos 3)).name ≡ []
parse_dnn_name-Nameless_example =
    parse_dnn_name-Nameless testnet 940000 parse_int (codes "n50.3")
      (named_block [] (pos 50) (pos 3)) refl at_fifty

parse_dnn_name-shorthand_example :
    (parse_dnn_name testnet 940000 parse_int (codes "n5h") ≡ err invalid_encoded)
    × (parse_dnn_name testnet 940000 parse_int (codes "b5h") ≡ err invalid_encoded)
    × (parse_dnn_name testnet 940000 parse_int (dotted (codes "alice") (codes "n5h"))
        ≡ err invalid_encoded)
parse_dnn_name-shorthand_example =
    parse_dnn_name-shorthand testnet 940000 parse_int (codes "alice") b'5' (codes "h")
      testnet-IsWordlist (omega arith) refl (omega arith) (omega arith)
      (unfold is_encoded_format in refl)
