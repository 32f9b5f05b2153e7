-- ===== src/Reorg/Rescan.antt =====
-- A recovery whose calls succeed writes every block from the first changed one on.
use dnn_node.Base.{
  ℕ, zero, suc, ◌+◌, ◌-◌, ◌≤◌, ◌<◌, ◌≡◌, refl, sym, ap, ◌∙◌, Bool, true, false, List, [], ◌∷◌, ◌++◌,
  append_assoc, append-nil, Option, none, some, ok, ltb, ◌==◌, ==_iff, if◌then◌else◌, Bool-cases,
  inl, inr, arith,
}
use dnn_node.Base.Bytes.{Bytes}
use dnn_node.Base.Int.{ℤ, pos, max_int64, ◌-ℤ◌, -ℤ_pos, -ℤ_neg, ltb_ℤ}
use dnn_node.Chain.{Block, Transaction}
use dnn_node.Reorg.Detected.{next_pos}
use dnn_node.Reorg.{
  DbOp, update_dnn_block, invalidate_dnn_blocks_after, remove_anchors_after_block, Recovery,
  move_anchor, is_valid_dnn_transaction, process_transactions, process_block_transactions,
  rescan_block, rescan, dnn_start, handle_reorg,
}

-- The log `late` continues the log `early`.
abbrev pub Extends : List DbOp → List DbOp → Type 0
Extends early late = (more : List DbOp) × (late ≡ early ++ more)

abbrev pub Occurs : DbOp → List DbOp → Type 0
Occurs op log = (before : List DbOp) × (after : List DbOp) × (log ≡ before ++ (op ∷ after))

Extends-refl : (log : List DbOp) → Extends log log
Extends-refl log = ([], sym (append-nil log))

Extends-trans : (a b c : List DbOp) → Extends a b → Extends b c → Extends a c
Extends-trans a b c (m, e) (n, f) = (m ++ n, f ∙ ap (λ l. l ++ n) e ∙ append_assoc a m n)

Occurs-Extends : (op : DbOp) (a b : List DbOp) → Occurs op a → Extends a b → Occurs op b
Occurs-Extends op a b (before, after, e) (more, f) =
    (before, after ++ more, f ∙ ap (λ l. l ++ more) e ∙ append_assoc before (op ∷ after) more)

Occurs-last : (op : DbOp) (log : List DbOp) → Occurs op (log ++ (op ∷ []))
Occurs-last op log = (log, [], refl)

if_Extends :
    (b : Bool) (log x y : List DbOp)
    → Extends log x
    → Extends log y
    → Extends log (if b then x else y)
if_Extends true log x y hx hy = hx
if_Extends false log x y hx hy = hy

move_anchor-Extends :
    (r : Recovery) (n height : ℤ) (position : ℕ) (log : List DbOp) (anchor : Option (Option Bytes))
    → Extends log (move_anchor r n height position log anchor)
move_anchor-Extends r n height position log none = Extends-refl log
move_anchor-Extends r n height position log (some none) = Extends-refl log
move_anchor-Extends r n height position log (some (some id)) =
    if_Extends (r.accepts log _) log _ log (_ ∷ [], refl) (Extends-refl log)

process_transactions-Extends :
    (r : Recovery) (n height : ℤ) (txs : List Transaction) (position : ℕ) (log : List DbOp)
    → Extends log (process_transactions r n height txs position log)
unfolding process_transactions
process_transactions-Extends r n height [] position log = Extends-refl log
process_transactions-Extends r n height (tx ∷ txs) position log =
    let moved = move_anchor r n height (suc position) log (r.anchor_of log tx.tx_id) in
    if_Extends (is_valid_dnn_transaction tx) log _ _
      (Extends-trans log moved _
        (move_anchor-Extends r n height (suc position) log (r.anchor_of log tx.tx_id))
        (process_transactions-Extends r n height txs (suc position) moved))
      (process_transactions-Extends r n height txs position log)

-- Every call of the recovery succeeds, on a chain of the height `h`.
pub record IsWorking (r : Recovery) (h : ℕ) : Type 0 where
  pub begins : r.begins ≡ true
  pub accepts : (log : List DbOp) (op : DbOp) → r.accepts log op ≡ true
  pub counts : r.block_count ≡ some (pos h)
  pub reads :
      (b : ℕ)
      → b ≤ h
      → (hash : Bytes) × (block : Block) × (r.block_hash (pos b) ≡ some hash)
        × (r.block hash ≡ some block)
  pub commits : (log : List DbOp) → r.commits log ≡ true

-- The log has the write of a block, under the hash that the chain gives for it.
abbrev pub IsWritten : Recovery → ℕ → List DbOp → ℕ → Type 0
IsWritten r genesis_block log b =
    (hash : Bytes) × (time : ℤ) × (r.block_hash (pos b) ≡ some hash)
    × Occurs (update_dnn_block (pos (b - genesis_block)) (pos b) hash time) log

-- Both are int64, so their difference does not wrap around.
below_genesis :
    (b g : ℕ) → b ≤ max_int64 → g ≤ max_int64 → b < g → ltb_ℤ (pos b -ℤ pos g) (pos 0) ≡ true
below_genesis b g h k l = rw (-ℤ_neg b g l k) (ground arith)

not_negative : (n : ℕ) → ltb_ℤ (pos n) (pos 0) ≡ false
not_negative n = ground arith

dnn_start-pos : (b g : ℕ) → b ≤ max_int64 → g ≤ max_int64 → dnn_start g (pos b) ≡ pos (b - g)
unfolding dnn_start
dnn_start-pos b g h k = elim (Bool-cases (ltb b g)) [
  | inl l ↦
      let b_lt : b < g = ground arith in
      rw (below_genesis b g h k b_lt) (ap pos (omega (arith, b_lt)))
  | inr l ↦ let g_le : g ≤ b = ground arith in rw (-ℤ_pos b g g_le h, not_negative (b - g)) refl
]

module _ (r : Recovery) (h genesis_block : ℕ) (v : IsWorking r h) (fits : h < max_int64)
    (genesis_fits : genesis_block ≤ max_int64) where
  rescan_block_lem :
      (b : ℕ) (log : List DbOp)
      → b ≤ h
      → (late : List DbOp) × (rescan_block r genesis_block (pos b) log ≡ ok late)
        × Extends log late
        × (genesis_block ≤ b → IsWritten r genesis_block late b)
  unfolding rescan_block process_block_transactions
  rescan_block_lem b log l =
      let (hash, block, e, f) = v.reads b l in
      let dnn = pos (b - genesis_block) in
      let written = log ++ (update_dnn_block dnn (pos b) hash block.time ∷ []) in
      let more = process_transactions-Extends r dnn block.height block.transactions 0 written in
      elim (Bool-cases (ltb b genesis_block)) [
        | inl k ↦
            let under = below_genesis b genesis_block (omega arith) genesis_fits (ground arith) in
            (log, rw (e, f, under) refl, Extends-refl log, λ m. absurd (ground arith))
        | inr k ↦
            let g_le : genesis_block ≤ b = ground arith in
            let number = -ℤ_pos b genesis_block g_le (omega arith) in
            (
              process_transactions r dnn block.height block.transactions 0 written,
              rw (e, f, number, not_negative (b - genesis_block), v.accepts _ _) refl,
              Extends-trans log written _ (_ ∷ [], refl) more,
              λ m. (hash, block.time, e, Occurs-Extends _ written _ (Occurs-last _ log) more),
            )
      ]

  IsWritten-Extends :
      (b : ℕ) (early late : List DbOp)
      → IsWritten r genesis_block early b
      → Extends early late
      → IsWritten r genesis_block late b
  IsWritten-Extends b early late (hash, time, e, o) x =
      (hash, time, e, Occurs-Extends _ early late o x)

  rescan_end :
      (rounds b : ℕ) (log : List DbOp)
      → h < b
      → rescan r genesis_block (suc rounds) (pos b) (pos h) log ≡ ok log
  unfolding rescan
  rescan_end rounds b log l = let over : ltb_ℤ (pos h) (pos b) ≡ true = ground arith in rw over refl

  rescan_next :
      (rounds b : ℕ) (log mid : List DbOp)
      → b ≤ h
      → rescan_block r genesis_block (pos b) log ≡ ok mid
      → rescan r genesis_block (suc rounds) (pos b) (pos h) log
        ≡ rescan r genesis_block rounds (pos (suc b)) (pos h) mid
  unfolding rescan
  rescan_next rounds b log mid l e =
      let within : ltb_ℤ (pos h) (pos b) ≡ false = ground arith in
      rw (within, e, next_pos b (omega arith)) refl

  rescan_lem :
      (rounds b : ℕ) (log : List DbOp)
      → 1 ≤ rounds
      → h + 2 ≤ b + rounds
      → (late : List DbOp) × (rescan r genesis_block rounds (pos b) (pos h) log ≡ ok late)
        × Extends log late
        × ((c : ℕ) → b ≤ c → c ≤ h → genesis_block ≤ c → IsWritten r genesis_block late c)
  rescan_lem zero b log u l = absurd (omega arith)
  rescan_lem (suc rounds) b log u l = elim (Bool-cases (ltb h b)) [
    | inl over ↦ (
      log,
      rescan_end rounds b log (ground arith),
      Extends-refl log,
      λ c k m. absurd (ground (arith, over, k, m)),
    )
    | inr within ↦
        let b_le : b ≤ h = ground arith in
        let (mid, e, x, w) = rescan_block_lem b log b_le in
        let (late, f, y, z) = rescan_lem rounds (suc b) mid (omega arith) (omega (arith, l)) in
        (
          late,
          rescan_next rounds b log mid b_le e ∙ f,
          Extends-trans log mid late x y,
          λ c k m g. elim (Bool-cases (c == b)) [
            | inl same ↦
                let e' = (==_iff c b).0 same in
                rw (e') (IsWritten-Extends b mid late (w (rw (sym e') g)) y)
            | inr other ↦ z c (ground arith) m g
          ],
        )
  ]

handle_reorg_steps :
    (r : Recovery) (h genesis_block rounds : ℕ) (start start_block : ℤ) (log : List DbOp)
    → IsWorking r h
    → dnn_start genesis_block start_block ≡ start
    → rescan r genesis_block rounds start_block
        (pos h)
        (invalidate_dnn_blocks_after start ∷ remove_anchors_after_block start ∷ [])
      ≡ ok log
    → handle_reorg r genesis_block rounds start_block ≡ ok log
unfolding handle_reorg
handle_reorg_steps r h genesis_block rounds start start_block log v d e =
    let begins = v.begins in
    let counts = v.counts in
    let invalidates = v.accepts [] (invalidate_dnn_blocks_after start) in
    let removes =
      v.accepts (invalidate_dnn_blocks_after start ∷ []) (remove_anchors_after_block start) in
    let commits = v.commits log in rw d (ground arith)

-- A recovery whose calls succeed, at a height below 2^63-1 and from a block not above it, returns
-- with rounds for all the blocks from the start to the height; what it commits begins with the
-- invalidation of the DNN blocks and the removal of the anchors behind the start, and has the write
-- of every block from the start to the height, under the hash that the chain gives for it, the
-- blocks below the genesis block left out, which is an int64.
pub handle_reorg_lem :
    (r : Recovery) (h genesis_block rounds start_block : ℕ)
    → IsWorking r h
    → h < max_int64
    → genesis_block ≤ max_int64
    → start_block ≤ h
    → h + 2 ≤ start_block + rounds
    → (log : List DbOp) × (handle_reorg r genesis_block rounds (pos start_block) ≡ ok log)
      × Extends
          (invalidate_dnn_blocks_after (pos (start_block - genesis_block))
            ∷ remove_anchors_after_block (pos (start_block - genesis_block))
            ∷ [])
          log
      × ((c : ℕ) → start_block ≤ c → c ≤ h → genesis_block ≤ c → IsWritten r genesis_block log c)
handle_reorg_lem r h genesis_block rounds start_block v fits genesis_fits l enough =
    let start = pos (start_block - genesis_block) in
    let first = invalidate_dnn_blocks_after start ∷ remove_anchors_after_block start ∷ [] in
    let (log, e, x, w) =
      rescan_lem r h genesis_block v fits genesis_fits rounds start_block first (omega arith)
        enough in
    (
      log,
      handle_reorg_steps r h genesis_block rounds start (pos start_block) log v
          (dnn_start-pos start_block genesis_block (omega arith) genesis_fits) e,
      x,
      w,
    )
