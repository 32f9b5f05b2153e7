-- ===== src/Merkle.antt =====
-- internal/bitcoin/p2p_client.go: `calcMerkleRoot` and `validateBlockMerkleRoot`. The double SHA-256
-- of the package chainhash and the hash of a transaction are parameters.
pub mod Levels
pub mod Binding
pub mod Doubled
mod Tests
use dnn_node.Base.{
  ℕ, zero, suc, ◌%◌, Bool, not, List, [], ◌∷◌, ◌++◌, map, Option, none, some, Result, ok, err,
  panic, ◌>>=◌, ◌>>◌, or_panic, fail_if, length, is_nil, ◌==◌, if◌then◌else◌,
}
use dnn_node.Base.Bytes.{Bytes, bytes_eq}

-- The hash of 32 zero bytes.
abbrev pub zeros : ℕ → Bytes
zeros zero = []
zeros (suc n) = 0 ∷ zeros n

abbrev pub zero_hash : Bytes
zero_hash = zeros 32

abbrev pub last_again : List Bytes → List Bytes
last_again [] = []
last_again (h ∷ []) = h ∷ h ∷ []
last_again (h ∷ g ∷ hashes) = h ∷ last_again (g ∷ hashes)

-- An odd number of hashes is made even.
unfoldable pub evened : List Bytes → List Bytes
evened hashes = if not (length hashes % 2 == 0) then last_again hashes else hashes

-- `none` is an index out of range.
unfoldable pub combine_pairs : (Bytes → Bytes) → List Bytes → Option (List Bytes)
combine_pairs double_hash [] = some []
combine_pairs double_hash (h ∷ []) = none
combine_pairs double_hash (h ∷ g ∷ hashes) = elim (combine_pairs double_hash hashes) [
  | none ↦ none
  | some next_level ↦ some (double_hash (h ++ g) ∷ next_level)
]

-- `none` is an index out of range, or that the rounds are used up.
unfoldable pub merkle_loop : (Bytes → Bytes) → ℕ → List Bytes → Option Bytes
merkle_loop double_hash rounds [] = none
merkle_loop double_hash rounds (h ∷ []) = some h
merkle_loop double_hash zero (h ∷ g ∷ hashes) = none
merkle_loop double_hash (suc rounds) (h ∷ g ∷ hashes) =
    elim (combine_pairs double_hash (evened (h ∷ g ∷ hashes))) [
      | none ↦ none
      | some next_level ↦ merkle_loop double_hash rounds next_level
    ]

-- As many rounds as hashes.
unfoldable pub calc_merkle_root : (Bytes → Bytes) → List Bytes → Option Bytes
unfolding merkle_loop
calc_merkle_root double_hash [] = some zero_hash
calc_merkle_root double_hash (h ∷ hashes) =
    merkle_loop double_hash (length (h ∷ hashes)) (h ∷ hashes)

-- A transaction is held as the text that is hashed.
pub record MsgBlock : Type 0 where
  pub merkle_root : Bytes
  pub transactions : List Bytes

pub data MerkleError : Type 0 where
  no_transactions merkle_mismatch : MerkleError

unfoldable pub validate_block_merkle_root :
    (Bytes → Bytes) → (Bytes → Bytes) → MsgBlock → Result MerkleError (Unit {0})
unfolding calc_merkle_root
validate_block_merkle_root double_hash tx_hash msg_block = do
  fail_if (is_nil msg_block.transactions) no_transactions
  calculated_merkle ← or_panic (calc_merkle_root double_hash (map tx_hash msg_block.transactions))
  fail_if (not (bytes_eq calculated_merkle msg_block.merkle_root)) merkle_mismatch
