-- ===== src/Reorg.antt =====
-- internal/reorg/reorg.go: the comparison of block hashes, and the recovery.
-- The chain and the database are parameters: the record `Sources`, and `anchor_of` for the lookup of
-- anchors inside the transaction. What the recovery writes is a list of operations, which reaches the
-- database when the transaction is committed.
pub mod Detected
pub mod Outcome
pub mod Rescan
pub mod Positions
mod Tests
use dnn_node.Base.{
  ℕ, zero, suc, ◌+◌, ◌-◌, Bool, true, false, not, ◌&&◌, ◌||◌, List, [], ◌∷◌, ◌++◌, Option, none,
  some, Result, ok, err, panic, ◌>>=◌, ◌>>◌, fail_if, wrap_err, or_err, if◌then◌else◌, is_nil,
  length,
}
use dnn_node.Base.Bytes.{Bytes, bytes_eq}
use dnn_node.Base.Int.{ℤ, pos, ◌+ℤ◌, ◌-ℤ◌, ltb_ℤ, eqb_ℤ}
use dnn_node.Chain.{Block, Transaction}
use dnn_node.Policy.{PolicyEnforcer, should_check_reorg, get_reorg_check_range}

-- The calls that read: `none` is an error. The chain may answer differently at each call, so a call
-- of the scan and one of the recovery are two fields.
pub record Sources : Type 0 where
  pub stored_hash : ℤ → Option Bytes
  pub rest_hash : ℤ → Option Bytes
  pub chain_hash : ℤ → Option Bytes

-- `currentHash`: the REST validator's answer, or the chain's where that fails or is empty.
abbrev pub fall_back : Option Bytes → Option Bytes → Option Bytes
fall_back none chain = chain
fall_back (some []) chain = chain
fall_back (some (c ∷ hash)) chain = some (c ∷ hash)

abbrev pub current_hash : Sources → ℤ → Option Bytes
current_hash src block_num = fall_back (src.rest_hash block_num) (src.chain_hash block_num)

abbrev differ : Option Bytes → Option Bytes → Bool
differ (some stored) (some current) = not (bytes_eq stored current)
differ _ _ = false

-- A stored hash and a current one, and they differ; a block without one of them is skipped.
unfoldable pub mismatch : Sources → ℤ → Bool
mismatch src block_num = differ (src.stored_hash block_num) (current_hash src block_num)

-- `reorgDetected` and `reorgStartBlock`
pub record Detection : Type 0 where
  pub reorg_detected : Bool
  pub reorg_start_block : ℤ

abbrev pub note_mismatch : ℤ → Detection → Detection
note_mismatch block_num d = record {
  reorg_detected = true;
  reorg_start_block =
      if eqb_ℤ d.reorg_start_block (pos 0) || ltb_ℤ block_num d.reorg_start_block
      then block_num
      else d.reorg_start_block;
}

-- `for blockNum := startBlock; blockNum <= endBlock; blockNum++`; `none` says that the rounds are used
-- up. The loop does not end where `endBlock` is the greatest int64.
unfoldable pub scan_blocks : Sources → ℕ → ℤ → ℤ → Detection → Option Detection
scan_blocks src zero block_num end_block d = none
scan_blocks src (suc rounds) block_num end_block d =
    let rest =
      scan_blocks src rounds (block_num +ℤ pos 1) end_block
        (if mismatch src block_num then note_mismatch block_num d else d) in
    if ltb_ℤ end_block block_num then some d else rest

unfoldable pub detect_reorg : Sources → ℕ → ℤ → ℤ → Option Detection
detect_reorg src rounds start_block end_block =
    scan_blocks src rounds start_block end_block
      (record { reorg_detected = false; reorg_start_block = pos 0 })

-- A write inside the recovery's transaction.
pub data DbOp : Type 0 where
  invalidate_dnn_blocks_after remove_anchors_after_block : ℤ → DbOp
  update_dnn_block : ℤ → ℤ → Bytes → ℤ → DbOp
  update_anchor_position : Bytes → ℤ → ℤ → ℕ → DbOp

-- The rest of the recovery's calls. `accepts` says whether a write succeeds behind the writes so far,
-- `anchor_of` gives the id of the anchor of a transaction: an error, or none, or one.
pub record Recovery : Type 0 where
  pub block_count : Option ℤ
  pub block_hash : ℤ → Option Bytes
  pub block : Bytes → Option Block
  pub accepts : List DbOp → DbOp → Bool
  pub anchor_of : List DbOp → Bytes → Option (Option Bytes)
  pub begins : Bool
  pub commits : List DbOp → Bool

-- `rounds_used` is no error of the program: the rounds of the model were too few.
pub data RecoveryError : Type 0 where
  begin_failed invalidate_failed remove_failed height_failed : RecoveryError
  hash_failed block_failed update_failed : ℤ → RecoveryError
  commit_failed rounds_used : RecoveryError

unfoldable pub is_valid_dnn_transaction : Transaction → Bool
is_valid_dnn_transaction tx = not (is_nil tx.inputs || is_nil tx.outputs)

-- A write that fails is logged and left out.
abbrev pub try_write : Recovery → List DbOp → DbOp → List DbOp
try_write r log op = if r.accepts log op then log ++ (op ∷ []) else log

abbrev pub move_anchor : Recovery → ℤ → ℤ → ℕ → List DbOp → Option (Option Bytes) → List DbOp
move_anchor r dnn_block_num height position log (some (some id)) =
    try_write r log (update_anchor_position id dnn_block_num height position)
move_anchor r dnn_block_num height position log _ = log

-- The loop of `processBlockTransactions`; `position` counts the transactions that met the criteria.
unfoldable pub process_transactions :
    Recovery → ℤ → ℤ → List Transaction → ℕ → List DbOp → List DbOp
process_transactions r dnn_block_num height [] position log = log
process_transactions r dnn_block_num height (tx ∷ txs) position log =
    if is_valid_dnn_transaction tx
    then process_transactions r dnn_block_num height txs (suc position)
        (move_anchor r dnn_block_num height (suc position) log (r.anchor_of log tx.tx_id))
    else process_transactions r dnn_block_num height txs position log

unfoldable pub process_block_transactions : Recovery → Block → ℤ → List DbOp → List DbOp
process_block_transactions r block dnn_block_num log =
    process_transactions r dnn_block_num block.height block.transactions 0 log

abbrev write_or : Recovery → List DbOp → DbOp → RecoveryError → Result RecoveryError (List DbOp)
write_or r log op e = if r.accepts log op then ok (log ++ (op ∷ [])) else err e

-- A block below the genesis block is read and left alone.
abbrev pub update_block :
    Recovery → ℤ → ℤ → Bytes → Block → List DbOp → Result RecoveryError (List DbOp)
update_block r dnn_block_num block_num hash block log =
    if ltb_ℤ dnn_block_num (pos 0)
    then ok log
    else write_or r log (update_dnn_block dnn_block_num block_num hash block.time)
        (update_failed dnn_block_num)
      >>= λ log. ok (process_block_transactions r block dnn_block_num log)

unfoldable pub rescan_block : Recovery → ℕ → ℤ → List DbOp → Result RecoveryError (List DbOp)
rescan_block r genesis_block block_num log = do
  hash ← or_err (r.block_hash block_num) (hash_failed block_num)
  block ← or_err (r.block hash) (block_failed block_num)
  update_block r (block_num -ℤ pos genesis_block) block_num hash block log

-- `for blockNum := startBlock; blockNum <= currentHeight; blockNum++`. The block number wraps around
-- behind the greatest int64.
unfoldable pub rescan : Recovery → ℕ → ℕ → ℤ → ℤ → List DbOp → Result RecoveryError (List DbOp)
rescan r genesis_block zero block_num current_height log = err rounds_used
rescan r genesis_block (suc rounds) block_num current_height log =
    if ltb_ℤ current_height block_num
    then ok log
    else rescan_block r genesis_block block_num log >>= λ log.
        rescan r genesis_block rounds (block_num +ℤ pos 1) current_height log

-- `dnnStartBlock`
unfoldable pub dnn_start : ℕ → ℤ → ℤ
dnn_start genesis_block start_block =
    let start = start_block -ℤ pos genesis_block in if ltb_ℤ start (pos 0) then pos 0 else start

-- What reaches the database: the writes of the transaction, when all of it succeeds.
unfoldable pub handle_reorg : Recovery → ℕ → ℕ → ℤ → Result RecoveryError (List DbOp)
handle_reorg r genesis_block rounds start_block = do
  fail_if (not r.begins) begin_failed
  let dnn_start_block = dnn_start genesis_block start_block
  log ← write_or r [] (invalidate_dnn_blocks_after dnn_start_block) invalidate_failed
  log ← write_or r log (remove_anchors_after_block dnn_start_block) remove_failed
  current_height ← or_err r.block_count height_failed
  log ← rescan r genesis_block rounds start_block current_height log
  fail_if (not (r.commits log)) commit_failed
  ok log

-- `scan_rounds_used` is no error of the program either.
pub data ReorgError : Type 0 where
  count_failed check_time_failed scan_rounds_used : ReorgError
  recovery_failed : RecoveryError → ReorgError

-- Behind the range: nothing is written but the time of the check (`sets_time` says whether that
-- succeeds), or the recovery runs.
abbrev handle_detection : Recovery → ℕ → ℕ → Bool → Detection → Result ReorgError (List DbOp)
handle_detection r genesis_block rounds sets_time d =
    if d.reorg_detected
    then wrap_err recovery_failed (handle_reorg r genesis_block rounds d.reorg_start_block)
    else if sets_time
    then ok []
    else err check_time_failed

-- `height` is the first answer of `GetBlockCount`; the recovery asks again. Each of the two loops has
-- the given rounds.
unfoldable pub check_and_handle_reorg :
    PolicyEnforcer → Sources → Recovery → ℕ → Option ℤ → Bool → ℤ → Result ReorgError (List DbOp)
check_and_handle_reorg pe src r rounds height sets_time current_dnn_block =
    if not (should_check_reorg current_dnn_block)
    then ok []
    else or_err height count_failed >>= λ current_bitcoin_block.
        let (start_block, end_block) = get_reorg_check_range pe current_bitcoin_block in
        or_err (detect_reorg src rounds start_block end_block) scan_rounds_used >>= λ d.
        handle_detection r pe.genesis_block rounds sets_time d
