-- ===== src/Sync/Blocks.antt =====
-- internal/sync/syncer.go: `syncBitcoin` and `SyncSpecificBlock`, the processing of blocks. The
-- chain, the relays and the database are the fields of `BlockSources`; log lines are left out, but for
-- the slices of texts in them that can panic.
pub mod Steps
pub mod Gaps
mod Tests
use dnn_node.Base.{
  ℕ, zero, suc, ◌+◌, ◌%◌, Bool, true, false, not, ◌&&◌, ◌||◌, List, [], ◌∷◌, ◌++◌, map, Option,
  none, some, Result, ok, err, panic, ◌>>=◌, ◌>>◌, fail_if, or_err, ltb, ◌==◌, if◌then◌else◌,
  is_nil, length,
}
use dnn_node.Base.Bytes.{Bytes, codes, bytes_eq}
use dnn_node.Base.Decimal.{parse_int, int_value}
use dnn_node.Base.Dict.{Dict, lookup}
use dnn_node.Base.Int.{ℤ, pos, negsuc, pos_part, ◌+ℤ◌, ◌-ℤ◌, ltb_ℤ}
use dnn_node.Chain.{Block}
use dnn_node.Nostr.{Event}
use dnn_node.Policy.References.{validate_tag_references}
use dnn_node.Sync.{ValidDnnTransaction, SortSlice, Rejection, find_valid_dnn_transactions}
use dnn_node.Validation.{Runtime}

-- A transaction under its position, as the database has it.
pub record StoredTransaction : Type 0 where
  pub transaction : ValidDnnTransaction
  pub bitcoin_block : ℤ
  pub dnn_block : ℤ
  pub position : ℕ

-- What is written for a block.
pub data Write : Type 0 where
  dnn_block_stored : ℤ → ℤ → Bytes → ℤ → Write
  transaction_stored : StoredTransaction → Write
  anchor_stored : Event → StoredTransaction → Write
  referenced_fetched : Event → Write

-- What a run changes, in this order.
pub data Change : Type 0 where
  block_write : Write → Change
  synced_to : ℤ → Change
  header_cache_cleared time_updated : Change
  reorg_checked : ℤ → Change

-- A call that fails is `none`, a write that fails `false`. The relays are asked for the anchors of
-- all the stored transactions of a block. The second source of hashes is optional.
pub record BlockSources : Type 0 where
  pub go : Runtime
  pub decodes : Bytes → Bool
  pub get_block_count : Option ℤ
  pub get_block_hash : ℤ → Option Bytes
  pub rest_block_hash : Option (ℤ → Option Bytes)
  pub get_block_with_inputs : Bytes → Option Block
  pub find_anchors : List StoredTransaction → Dict Event
  pub stores : Write → Bool
  pub stores_state : ℤ → Bool
  pub stores_time : Bool
  pub checks_reorg : Bool

abbrev pub write_if : BlockSources → Write → List Write
write_if s w = if s.stores w then w ∷ [] else []

-- The position is the index behind the sort, from 1.
unfoldable pub store_transactions :
    BlockSources → ℤ → ℤ → ℕ → List ValidDnnTransaction → List StoredTransaction
store_transactions s block_num dnn_block_num dnn_index [] = []
store_transactions s block_num dnn_block_num dnn_index (tx ∷ txs) =
    let rest = store_transactions s block_num dnn_block_num (suc dnn_index) txs in
    let stored : StoredTransaction = record {
      transaction = tx;
      bitcoin_block = block_num;
      dnn_block = dnn_block_num;
      position = dnn_index + 1;
    } in
    if s.stores (transaction_stored stored) then stored ∷ rest else rest

-- The writes of a part of the program, which a run-time panic may cut short.
pub data Written : Type 0 where
  all_written cut_short : List Write → Written

abbrev pub then_written : Written → Written → Written
then_written (all_written first) (all_written rest) = all_written (first ++ rest)
then_written (all_written first) (cut_short rest) = cut_short (first ++ rest)
then_written (cut_short first) next = cut_short first

-- `event.ID[:8]`, between the first writes and the rest.
abbrev pub behind_id_prefix : Event → List Write → List Write → Written
behind_id_prefix event first rest =
    if ltb (length event.id) 8 then cut_short first else all_written (first ++ rest)

-- Only `syncBitcoin` asks for the referenced events itself.
abbrev pub anchor_writes : Bool → Event → StoredTransaction → Written
anchor_writes fetches event tx =
    if fetches
    then behind_id_prefix event (anchor_stored event tx ∷ []) (referenced_fetched event ∷ [])
    else all_written (anchor_stored event tx ∷ [])

unfoldable pub store_anchor : BlockSources → Bool → StoredTransaction → Option Event → Written
store_anchor s fetches tx none = all_written []
store_anchor s fetches tx (some event) = elim (validate_tag_references s.decodes event) [
  | ok _ ↦
      if s.stores (anchor_stored event tx) then anchor_writes fetches event tx else all_written []
  | err _ ↦ behind_id_prefix event [] []
  | panic ↦ cut_short []
]

unfoldable pub store_anchors : BlockSources → Bool → Dict Event → List StoredTransaction → Written
unfolding store_anchor
store_anchors s fetches found [] = all_written []
store_anchors s fetches found (tx ∷ txs) =
    then_written (store_anchor s fetches tx (lookup tx.transaction.tx_id found))
      (store_anchors s fetches found txs)

unfoldable pub process_valid :
    BlockSources → Bool → ℤ → ℤ → Result Rejection (List ValidDnnTransaction) → Written
unfolding store_transactions store_anchors
process_valid s fetches block_num dnn_block_num (ok valid_txs) =
    let stored = store_transactions s block_num dnn_block_num 0 valid_txs in
    then_written (all_written (map transaction_stored stored))
      (store_anchors s fetches (s.find_anchors stored) stored)
process_valid s fetches block_num dnn_block_num (err _) = cut_short []
process_valid s fetches block_num dnn_block_num panic = cut_short []

-- The transactions of the block and their anchors.
unfoldable pub process_block : BlockSources → SortSlice → Bool → ℤ → ℤ → Block → Written
unfolding process_valid
process_block s sort_slice fetches block_num dnn_block_num block =
    process_valid s fetches block_num dnn_block_num
      (find_valid_dnn_transactions s.go sort_slice block)

-- How the body of the loop ends. `crashed` is a run-time panic behind the writes, `divergence_crashed`
-- one behind the clearing of the header cache.
pub data Step : Type 0 where
  processed crashed : List Write → Step
  stopped diverged divergence_crashed : Step

unfoldable pub step_block : BlockSources → SortSlice → ℤ → ℤ → Bytes → Option Block → Step
unfolding process_block
step_block s sort_slice block_num dnn_block_num block_hash none = stopped
step_block s sort_slice block_num dnn_block_num block_hash (some block) =
    let stored = write_if s (dnn_block_stored dnn_block_num block_num block_hash block.time) in
    elim (process_block s sort_slice true block_num dnn_block_num block) [
      | all_written writes ↦ processed (stored ++ writes)
      | cut_short writes ↦ crashed (stored ++ writes)
    ]

abbrev pub every_hundredth : ℤ → Bool
every_hundredth (pos n) = n % 100 == 0
every_hundredth (negsuc n) = suc n % 100 == 0

-- The hash of the second source, where it is asked and answers.
abbrev pub other_hash : Option (ℤ → Option Bytes) → Bool → ℤ → Option Bytes
other_hash none is_first block_num = none
other_hash (some get) is_first block_num =
    if is_first || every_hundredth block_num then get block_num else none

abbrev pub differs_from : Bytes → Option Bytes → Bool
differs_from block_hash none = false
differs_from block_hash (some other) = not (bytes_eq other block_hash)

-- The error message takes sixteen bytes of both hashes.
abbrev pub divergence : Bytes → Option Bytes → Step
divergence block_hash none = diverged
divergence block_hash (some other) =
    if ltb (length block_hash) 16 || ltb (length other) 16 then divergence_crashed else diverged

unfoldable pub step_hash : BlockSources → SortSlice → Bool → ℤ → ℤ → Option Bytes → Step
unfolding step_block
step_hash s sort_slice is_first block_num dnn_block_num none = stopped
step_hash s sort_slice is_first block_num dnn_block_num (some block_hash) =
    let other = other_hash s.rest_block_hash is_first block_num in
    if differs_from block_hash other
    then divergence block_hash other
    else step_block s sort_slice block_num dnn_block_num block_hash
        (s.get_block_with_inputs block_hash)

unfoldable pub sync_step : BlockSources → SortSlice → ℕ → Bool → ℤ → Step
unfolding step_hash
sync_step s sort_slice genesis_block is_first block_num =
    step_hash s sort_slice is_first block_num (block_num -ℤ pos genesis_block)
      (s.get_block_hash block_num)

-- How the loop ends.
pub data Ending : Type 0 where
  finished broken_off : Ending
  chain_divergence : ℤ → Ending
  run_time_panic : Ending

abbrev pub state_change : BlockSources → ℤ → List Change
state_change s block_num = if s.stores_state block_num then synced_to block_num ∷ [] else []

-- One block more, or none from here on.
abbrev pub step_result : BlockSources → ℤ → List Change × Ending → Step → List Change × Ending
step_result s block_num (changes, ending) (processed writes) =
    (map block_write writes ++ (state_change s block_num ++ changes), ending)
step_result s block_num rest stopped = ([], broken_off)
step_result s block_num rest diverged = (header_cache_cleared ∷ [], chain_divergence block_num)
step_result s block_num rest divergence_crashed = (header_cache_cleared ∷ [], run_time_panic)
step_result s block_num rest (crashed writes) = (map block_write writes, run_time_panic)

-- The loop, for `count` blocks from `block_num`.
unfoldable pub sync_blocks : BlockSources → SortSlice → ℕ → Bool → ℕ → ℤ → List Change × Ending
unfolding sync_step
sync_blocks s sort_slice genesis_block is_first zero block_num = ([], finished)
sync_blocks s sort_slice genesis_block is_first (suc count) block_num =
    step_result s block_num
      (sync_blocks s sort_slice genesis_block false count (block_num +ℤ pos 1))
      (sync_step s sort_slice genesis_block is_first block_num)

-- The last block that was synchronised, from the stored text.
abbrev pub last_synced_block : ℕ → Option ℤ → ℤ
last_synced_block genesis_block none = pos genesis_block -ℤ pos 1
last_synced_block genesis_block (some parsed) = parsed

unfoldable pub last_synced : ℕ → Bytes → ℤ
last_synced genesis_block text = last_synced_block genesis_block (parse_int text)

abbrev pub smaller : ℤ → ℤ → ℤ
smaller a b = if ltb_ℤ b a then b else a

-- The number of blocks from behind `last` to `end_block`.
abbrev pub count_blocks : ℤ → ℤ → ℕ
count_blocks last end_block = if ltb_ℤ last end_block then pos_part (end_block -ℤ last) else 0

-- What follows the loop: the time of the run, and the check for reorganisations.
abbrev pub after_blocks : BlockSources → ℕ → ℤ → List Change × Ending → List Change × Ending
after_blocks s genesis_block end_block (changes, chain_divergence b) = (changes, chain_divergence b)
after_blocks s genesis_block end_block (changes, run_time_panic) = (changes, run_time_panic)
after_blocks s genesis_block end_block (changes, ending) = (
  changes
      ++ ((if s.stores_time then time_updated ∷ [] else [])
          ++ (if s.checks_reorg then reorg_checked (end_block -ℤ pos genesis_block) ∷ [] else [])),
  ending,
)

-- The blocks behind `last`, up to the height and as many as the batch allows.
unfoldable pub run_to : BlockSources → SortSlice → ℕ → ℤ → ℤ → ℤ → List Change × Ending
unfolding sync_blocks
run_to s sort_slice genesis_block batch_size last block_height =
    let end_block = smaller (last +ℤ batch_size) block_height in
    if not (ltb_ℤ last block_height)
    then ([], finished)
    else after_blocks s genesis_block end_block
        (sync_blocks s sort_slice genesis_block true (count_blocks last end_block) (last +ℤ pos 1))

abbrev pub run_at :
    BlockSources → SortSlice → ℕ → ℤ → Bytes → Option ℤ → Option (List Change × Ending)
run_at s sort_slice genesis_block batch_size text none = none
run_at s sort_slice genesis_block batch_size text (some block_height) =
    some
      (run_to s sort_slice genesis_block batch_size (last_synced genesis_block text) block_height)

-- `none` is the error that there is no height. `text` is the stored state, empty if it is missing
-- or could not be read.
unfoldable pub sync_bitcoin :
    BlockSources → SortSlice → ℕ → ℤ → Bytes → Option (List Change × Ending)
sync_bitcoin s sort_slice genesis_block batch_size text =
    run_at s sort_slice genesis_block batch_size text s.get_block_count

pub data SpecificError : Type 0 where
  no_block_hash no_block dnn_block_not_stored : SpecificError

abbrev pub advance : BlockSources → ℤ → Bytes → List Change
advance s block_num text = if ltb_ℤ (int_value text) block_num then state_change s block_num else []

-- Behind the creation of the block.
abbrev pub specific_end :
    BlockSources → ℤ → Bytes → Write → Written → List Change × Result SpecificError (Unit {0})
specific_end s block_num text created (all_written writes) =
    (block_write created ∷ (map block_write writes ++ advance s block_num text), ok tt)
specific_end s block_num text created (cut_short writes) =
    (block_write created ∷ map block_write writes, panic)

unfoldable pub specific_block :
    BlockSources
    → SortSlice
    → ℕ
    → Bytes
    → ℤ
    → Bytes
    → Option Block
    → List Change × Result SpecificError (Unit {0})
specific_block s sort_slice genesis_block text block_num block_hash none = ([], err no_block)
specific_block s sort_slice genesis_block text block_num block_hash (some block) =
    let dnn_block_num = block_num -ℤ pos genesis_block in
    let created = dnn_block_stored dnn_block_num block_num block_hash block.time in
    if s.stores created
    then specific_end s block_num text created
        (process_block s sort_slice false block_num dnn_block_num block)
    else ([], err dnn_block_not_stored)

unfoldable pub specific_hash :
    BlockSources
    → SortSlice
    → ℕ
    → Bytes
    → ℤ
    → Option Bytes
    → List Change × Result SpecificError (Unit {0})
unfolding specific_block
specific_hash s sort_slice genesis_block text block_num none = ([], err no_block_hash)
specific_hash s sort_slice genesis_block text block_num (some block_hash) =
    specific_block s sort_slice genesis_block text block_num block_hash
      (s.get_block_with_inputs block_hash)

-- What is changed, and how the call ends.
unfoldable pub sync_specific_block :
    BlockSources → SortSlice → ℕ → Bytes → ℤ → List Change × Result SpecificError (Unit {0})
unfolding specific_hash
sync_specific_block s sort_slice genesis_block text block_num =
    specific_hash s sort_slice genesis_block text block_num (s.get_block_hash block_num)
