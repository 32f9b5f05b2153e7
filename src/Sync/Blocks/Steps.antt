-- ===== src/Sync/Blocks/Steps.antt =====
-- The blocks that a run marks as synchronised.
use dnn_node.Base.{
  ℕ, zero, suc, ◌≤◌, ◌≡◌, refl, ◌≢◌, ◌∙◌, ap, Bool, true, false, List, [], ◌∷◌, ◌++◌, map, arith,
}
use dnn_node.Base.Int.{ℤ, pos, ◌+ℤ◌}
use dnn_node.Sync.{SortSlice}
use dnn_node.Sync.Blocks.{
  BlockSources, Write, Change, block_write, synced_to, header_cache_cleared, Step, processed,
  stopped, diverged, crashed, divergence_crashed, Ending, finished, broken_off, chain_divergence,
  run_time_panic, sync_step, sync_blocks, state_change, step_result,
}

-- The blocks that become the last synchronised one, in the order of the writes.
abbrev pub synced : List Change → List ℤ
synced [] = []
synced (synced_to b ∷ changes) = b ∷ synced changes
synced (_ ∷ changes) = synced changes

-- The blocks from `b` on.
abbrev pub blocks_from : ℕ → ℤ → List ℤ
blocks_from zero b = []
blocks_from (suc n) b = b ∷ blocks_from n (b +ℤ pos 1)

pub synced-block_write :
    (writes : List Write) (changes : List Change)
    → synced (map block_write writes ++ changes) ≡ synced changes
synced-block_write [] changes = refl
synced-block_write (w ∷ writes) changes = synced-block_write writes changes

only_writes : (writes : List Write) → synced (map block_write writes) ≡ []
only_writes [] = refl
only_writes (w ∷ writes) = only_writes writes

-- What the loop says of its blocks: it got through the first ones, and through all if it finished.
pub record HasSynced (count : ℕ) (b : ℤ) (result : List Change × Ending) : Type 0 where
  pub passed : ℕ
  pub within : passed ≤ count
  pub in_order : synced result.0 ≡ blocks_from passed b
  pub all_passed : result.1 ≡ finished → passed ≡ count

none-HasSynced :
    (count : ℕ) (b : ℤ) (changes : List Change) (ending : Ending)
    → synced changes ≡ []
    → ending ≢ finished
    → HasSynced count b (changes, ending)
none-HasSynced count b changes ending h k = record {
  passed = 0;
  within = omega arith;
  in_order = h;
  all_passed = λ e. absurd (k e);
}

step_result-HasSynced :
    (s : BlockSources) (count : ℕ) (b : ℤ) (rest : List Change × Ending) (step : Step)
    → s.stores_state b ≡ true
    → HasSynced count (b +ℤ pos 1) rest
    → HasSynced (suc count) b (step_result s b rest step)
step_result-HasSynced s count b (changes, ending) (processed writes) h k = record {
  passed = suc k.passed;
  within = omega (arith, k.within);
  in_order =
      synced-block_write writes (state_change s b ++ changes) ∙ rw h (ap (λ x. b ∷ x) k.in_order);
  all_passed = λ e. ap suc (k.all_passed e);
}
step_result-HasSynced s count b rest stopped h k =
    none-HasSynced (suc count) b [] broken_off refl (λ e. cc)
step_result-HasSynced s count b rest diverged h k =
    none-HasSynced (suc count) b (header_cache_cleared ∷ []) (chain_divergence b) refl (λ e. cc)
step_result-HasSynced s count b rest divergence_crashed h k =
    none-HasSynced (suc count) b (header_cache_cleared ∷ []) run_time_panic refl (λ e. cc)
step_result-HasSynced s count b rest (crashed writes) h k =
    none-HasSynced (suc count) b (map block_write writes) run_time_panic (only_writes writes)
      (λ e. cc)

-- Where the state can be written, the loop marks consecutive blocks as synchronised, from the first
-- one on, and all of them if it finishes.
pub sync_blocks-HasSynced :
    (s : BlockSources) (sort_slice : SortSlice) (genesis_block : ℕ) (is_first : Bool) (count : ℕ)
    (b : ℤ)
    → ((c : ℤ) → s.stores_state c ≡ true)
    → HasSynced count b (sync_blocks s sort_slice genesis_block is_first count b)
unfolding sync_blocks
sync_blocks-HasSynced s sort_slice genesis_block is_first zero b h = record {
  passed = 0;
  within = omega arith;
  in_order = refl;
  all_passed = λ e. refl;
}
sync_blocks-HasSynced s sort_slice genesis_block is_first (suc count) b h =
    step_result-HasSynced s count b
      (sync_blocks s sort_slice genesis_block false count (b +ℤ pos 1))
      (sync_step s sort_slice genesis_block is_first b) (h b)
      (sync_blocks-HasSynced s sort_slice genesis_block false count (b +ℤ pos 1) h)
