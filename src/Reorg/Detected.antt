-- ===== src/Reorg/Detected.antt =====
-- The scan over the block hashes finds the first block whose hash changed.
use dnn_node.Base.{
  ℕ, zero, suc, ◌+◌, ◌≤◌, ◌<◌, ◌≡◌, refl, ap, ◌∙◌, ◌⊎◌, inl, inr, true, false, ◌==◌, ◌||◌, ltb,
  Bool-cases, some, if◌then◌else◌, ==_iff, arith,
}
use dnn_node.Base.Int.{pos, max_int64, ◌+ℤ◌, +ℤ_pos, ltb_ℤ, eqb_ℤ}
use dnn_node.Reorg.{Sources, mismatch, Detection, note_mismatch, scan_blocks, detect_reorg}

pub next_pos : (b : ℕ) → b < max_int64 → pos b +ℤ pos 1 ≡ pos (suc b)
next_pos b h = +ℤ_pos b 1 (omega arith) ∙ ap pos (omega arith)

abbrev pub NoneBelow : Sources → ℕ → ℕ → Type 0
NoneBelow src from bound = (b : ℕ) → from ≤ b → b < bound → mismatch src (pos b) ≡ false

-- The first block of a range whose stored and current hashes differ.
pub record IsFirstMismatch (src : Sources) (from bound block : ℕ) : Type 0 where
  pub above : from ≤ block
  pub below : block < bound
  pub differs : mismatch src (pos block) ≡ true
  pub first : NoneBelow src from block

abbrev pub found_at : ℕ → Detection
found_at k = record { reorg_detected = true; reorg_start_block = pos k }

-- The outcome of a scan that starts with nothing detected.
abbrev pub IsDetection : Sources → ℕ → ℕ → Detection → Type 0
IsDetection src from bound d =
    ((d.reorg_detected ≡ false) × NoneBelow src from bound)
    ⊎ ((k : ℕ) × (d ≡ found_at k) × IsFirstMismatch src from bound k)

note_again : (k b : ℕ) → 1 ≤ k → k ≤ b → note_mismatch (pos b) (found_at k) ≡ found_at k
note_again k b h l =
    let known : (eqb_ℤ (pos k) (pos 0) || ltb_ℤ (pos b) (pos k)) ≡ false = ground arith in
    rw known refl

module _ (src : Sources) (n : ℕ) (fits : n < max_int64) where
  scan_end :
      (rounds b : ℕ) (d : Detection)
      → n < b
      → scan_blocks src (suc rounds) (pos b) (pos n) d ≡ some d
  unfolding scan_blocks
  scan_end rounds b d h = let over : ltb_ℤ (pos n) (pos b) ≡ true = ground arith in rw over refl

  scan_next :
      (rounds b : ℕ) (d : Detection)
      → b ≤ n
      → scan_blocks src (suc rounds) (pos b) (pos n) d
        ≡ scan_blocks src rounds
            (pos (suc b))
            (pos n)
            (if mismatch src (pos b) then note_mismatch (pos b) d else d)
  unfolding scan_blocks
  scan_next rounds b d h =
      let within : ltb_ℤ (pos n) (pos b) ≡ false = ground arith in
      rw (within, next_pos b (omega arith)) refl

  scan_blocks-found_at :
      (rounds b k : ℕ)
      → 1 ≤ k
      → k ≤ b
      → 1 ≤ rounds
      → n + 2 ≤ b + rounds
      → scan_blocks src rounds (pos b) (pos n) (found_at k) ≡ some (found_at k)
  scan_blocks-found_at zero b k h l u v = absurd (omega arith)
  scan_blocks-found_at (suc rounds) b k h l u v = elim (Bool-cases (ltb n b)) [
    | inl over ↦ scan_end rounds b (found_at k) (ground arith)
    | inr within ↦
        let b_le : b ≤ n = ground arith in
        let rest =
          scan_blocks-found_at rounds (suc b) k h (omega arith) (omega arith) (omega arith) in
        scan_next rounds b (found_at k) b_le ∙ elim (Bool-cases (mismatch src (pos b))) [
          | inl e ↦ rw (e, note_again k b h l) rest
          | inr e ↦ rw e rest
        ]
  ]

abbrev nothing : Detection
nothing = record { reorg_detected = false; reorg_start_block = pos 0 }

NoneBelow-step :
    (src : Sources) (b n : ℕ)
    → mismatch src (pos b) ≡ false
    → NoneBelow src (suc b) n
    → NoneBelow src b n
NoneBelow-step src b n e h c l u = elim (Bool-cases (c == b)) [
  | inl same ↦ rw ((==_iff c b).0 same) e
  | inr other ↦ h c (ground arith) u
]

IsDetection-step :
    (src : Sources) (b n : ℕ) (d : Detection)
    → mismatch src (pos b) ≡ false
    → IsDetection src (suc b) n d
    → IsDetection src b n d
IsDetection-step src b n d e (inl (off, h)) = inl (off, NoneBelow-step src b n e h)
IsDetection-step src b n d e (inr (k, same, v)) = inr (
  k,
  same,
  record {
    above = omega (arith, v.above);
    below = v.below;
    differs = v.differs;
    first = NoneBelow-step src b k e v.first;
  },
)

scan_blocks_lem :
    (src : Sources) (n rounds b : ℕ)
    → n < max_int64
    → 1 ≤ b
    → 1 ≤ rounds
    → n + 2 ≤ b + rounds
    → (d : Detection) × (scan_blocks src rounds (pos b) (pos n) nothing ≡ some d)
      × IsDetection src b (suc n) d
scan_blocks_lem src n zero b f h u v = absurd (omega arith)
scan_blocks_lem src n (suc rounds) b f h u v = elim (Bool-cases (ltb n b)) [
  | inl over ↦ (
    nothing,
    scan_end src n f rounds b nothing (ground arith),
    inl (refl, λ c l m. absurd (ground (arith, over, l, m))),
  )
  | inr within ↦
      let b_le : b ≤ n = ground arith in
      elim (Bool-cases (mismatch src (pos b))) [
        | inl e ↦ (
          found_at b,
          scan_next src n f rounds b nothing b_le
              ∙ rw e (
                  scan_blocks-found_at src n f rounds (suc b) b h (omega arith) (omega arith)
                    (omega arith)),
          inr (
            b,
            refl,
            record {
              above = omega arith;
              below = omega (arith, b_le);
              differs = e;
              first = λ c l m. absurd (omega (arith, l, m));
            },
          ),
        )
        | inr e ↦
            let (d, done, v') =
              scan_blocks_lem src n rounds (suc b) f (omega arith) (omega arith) (omega arith) in
            (
              d,
              scan_next src n f rounds b nothing b_le ∙ rw e done,
              IsDetection-step src b (suc n) d e v',
            )
      ]
]

-- With enough rounds the scan of the blocks from a start that is not 0 to an end below the greatest
-- int64 ends. It reports no reorganisation when no hash of the range changed, and otherwise the first
-- block of the range whose hash did.
pub detect_reorg_lem :
    (src : Sources) (rounds start_block end_block : ℕ)
    → end_block < max_int64
    → 1 ≤ start_block
    → 1 ≤ rounds
    → end_block + 2 ≤ start_block + rounds
    → (d : Detection) × (detect_reorg src rounds (pos start_block) (pos end_block) ≡ some d)
      × IsDetection src start_block (suc end_block) d
unfolding detect_reorg
detect_reorg_lem src rounds start_block end_block = scan_blocks_lem src end_block rounds start_block
