-- ===== src/Reorg/Outcome.antt =====
-- A check of the chain: a changed hash within the range starts the recovery at the first one.
use dnn_node.Base.{
  ℕ, suc, ◌+◌, ◌-◌, ◌≤◌, ◌<◌, ◌≡◌, refl, Bool, true, some, wrap_err, ltb, if◌then◌else◌, Bool-cases,
  inl, inr, arith,
}
use dnn_node.Base.Int.{ℤ, pos, max_int64}
use dnn_node.Policy.{PolicyEnforcer, should_check_reorg}
use dnn_node.Policy.Rules.{get_reorg_check_range_lem}
use dnn_node.Reorg.{
  Sources, mismatch, Detection, Recovery, recovery_failed, handle_reorg, check_and_handle_reorg,
}
use dnn_node.Reorg.Detected.{IsFirstMismatch, IsDetection, found_at, detect_reorg_lem}

-- The first block of a check at the height `n`.
abbrev pub range_start : PolicyEnforcer → ℕ → ℕ
range_start pe n = if ltb (n - 1008) pe.genesis_block then pe.genesis_block else n - 1008

-- A detection where some block of the range has another hash.
detected :
    (src : Sources) (start n b : ℕ) (d : Detection)
    → start ≤ b
    → b ≤ n
    → mismatch src (pos b) ≡ true
    → IsDetection src start (suc n) d
    → (k : ℕ) × (d ≡ found_at k) × IsFirstMismatch src start (suc n) k × (k ≤ b)
detected src start n b d l u m (inl (off, none)) =
    let same = none b l (omega (arith, u)) in absurd (cc)
detected src start n b d l u m (inr (k, found, v)) = (
  k,
  found,
  v,
  elim (Bool-cases (ltb b k)) [
    | inl below ↦ let same = v.first b l (ground arith) in absurd (cc)
    | inr not_below ↦ ground arith
  ],
)

-- At a height below 2^63-1 and with a genesis block that is not 0, where the check is due and some
-- block of the last 1008, not below the genesis block, has another hash than the stored one,
-- CheckAndHandleReorg runs the recovery from the first such block; 1010 rounds of its loop are
-- enough.
pub check_and_handle_reorg_lem :
    (pe : PolicyEnforcer) (src : Sources) (r : Recovery) (n rounds : ℕ) (sets_time : Bool)
    (current_dnn_block : ℤ) (b : ℕ)
    → n < max_int64
    → 1010 ≤ rounds
    → 1 ≤ pe.genesis_block
    → should_check_reorg current_dnn_block ≡ true
    → pe.genesis_block ≤ b
    → n ≤ b + 1008
    → b ≤ n
    → mismatch src (pos b) ≡ true
    → (k : ℕ) × IsFirstMismatch src (range_start pe n) (suc n) k
      × (k ≤ b)
      × (check_and_handle_reorg pe src r rounds (some (pos n)) sets_time current_dnn_block
          ≡ wrap_err recovery_failed (handle_reorg r pe.genesis_block rounds (pos k)))
unfolding check_and_handle_reorg
check_and_handle_reorg_lem pe src r n rounds sets_time current_dnn_block b h enough g due above near
      below m =
    let start = range_start pe n in
    let (d, done, outcome) =
      detect_reorg_lem src rounds start n h (ground arith) (omega arith) (ground arith) in
    let (k, found, v, first) = detected src start n b d (ground arith) below m outcome in
    (k, v, first, rw (due, get_reorg_check_range_lem pe n (omega arith), done, found) refl)
