-- ===== src/Sync/Blocks/Gaps.antt =====
-- Where a run of `syncBitcoin` starts and how far it goes, also behind `SyncSpecificBlock`.
use dnn_node.Base.{ℕ, ◌-◌, ◌≡◌, List, Result, ok, if◌then◌else◌, ltb}
use dnn_node.Base.Bytes.{Bytes}
use dnn_node.Base.Int.{ℤ}
use dnn_node.Sync.Blocks.{BlockSources, Change, advance, SpecificError}
use dnn_node.Sync.Blocks.Steps.{synced}

-- The number of blocks of a run: what the batch allows, of those that the chain has.
abbrev pub due : ℕ → ℕ → ℕ → ℕ
due batch last height = if ltb (height - last) batch then height - last else batch

module _ (s : BlockSources) (n : ℤ) (text : Bytes) (changes : List Change) where
  -- A call that ends without an error marks the block, if it is above the last one, and no other.
  abbrev Marks : List Change × Result SpecificError (Unit {0}) → Type 0
  Marks result = result ≡ (changes, ok tt) → synced changes ≡ synced (advance s n text)
