-- ===== src/Sync/Samples.antt =====
-- A block of two self-transfers for the tests.
use dnn_node.Base.{[], ◌∷◌, none, true}
use dnn_node.Base.Bytes.{Bytes, codes}
use dnn_node.Base.Int.{pos}
use dnn_node.Chain.{Transaction, Block}
use dnn_node.Validation.{Runtime}

abbrev pub plain : Runtime
plain = record { lower_unicode = λ s. s; unmarshal = λ s. none; check_signature = λ event. true }

abbrev pub transfer : Bytes → Bytes → Transaction
transfer tx_id address = record {
  tx_id = tx_id;
  inputs = record { address = address } ∷ [];
  outputs =
      record {
        script_pub_key = record {
          script_type = codes "witness_v0_keyhash";
          addresses = [];
          address = address;
        };
      }
      ∷ [];
}

abbrev pub low_id : Bytes
low_id = codes "0000000000000000000000000000000000000000000000000000000000000001"

abbrev pub high_id : Bytes
high_id = codes "0000000000000000000000000000000000000000000000000000000000000011"

abbrev pub two_transfers : Block
two_transfers = record {
  hash = [];
  height = pos 940001;
  time = pos 0;
  transactions = transfer low_id (codes "bc1qa") ∷ transfer high_id (codes "bc1qb") ∷ [];
}
