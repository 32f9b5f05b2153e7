-- ===== src/Sync/Blocks/Tests.antt =====
-- A chain of blocks without transactions that count.
use dnn_node.Base.{◌≡◌, refl, true, List, [], ◌∷◌, none, some}
use dnn_node.Base.Bytes.{codes}
use dnn_node.Base.Decimal.{parse_int, int_value}
use dnn_node.Base.Int.{pos, ltb_ℤ, ◌-ℤ◌}
use dnn_node.Chain.{Block}
use dnn_node.Sync.Samples.{plain}
use dnn_node.Sync.Blocks.{BlockSources, Change, dnn_block_stored, block_write, synced_to}

abbrev empty_block : Block
empty_block = record { hash = []; height = pos 0; time = pos 0; transactions = [] }

abbrev chain : BlockSources
chain = record {
  go = plain;
  decodes = λ s. true;
  get_block_count = some (pos 940012);
  get_block_hash = λ n. some (codes "00");
  rest_block_hash = none;
  get_block_with_inputs = λ hash. some empty_block;
  find_anchors = λ txs. [];
  stores = λ w. true;
  stores_state = λ n. true;
  stores_time = true;
  checks_reorg = true;
}

abbrev one_block : List Change
one_block =
    block_write (dnn_block_stored (pos 940010 -ℤ pos 940000) (pos 940010) (codes "00") (pos 0))
    ∷ synced_to (pos 940010)
    ∷ []

abbrev nothing_above : ltb_ℤ (int_value (codes "")) (pos 940010) ≡ true
unfolding int_value parse_int
nothing_above = refl
