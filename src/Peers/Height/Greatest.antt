-- ===== src/Peers/Height/Greatest.antt =====
-- The height that `getBlockCountConsensus` settles on is the greatest of the answers.
use mathlib.Core.List.{Mem}
use dnn_node.Base.{Result, err, ◌≡◌, ◌⊎◌, false, List, [], ◌∷◌, Option, none, some, ok, All}
use dnn_node.Base.Bytes.{Bytes}
use dnn_node.Base.Int.{ℤ, ltb_ℤ}
use dnn_node.Peers.Height.{PeerResult, HeightState, HeightError, all_failed, peers_from, max_peers}

abbrev with_answer : Option PeerResult → List PeerResult → List PeerResult
with_answer none rest = rest
with_answer (some r) rest = r ∷ rest

-- The answers of the peers of a list that answer, in its order.
unfoldable pub answers : (Bytes → Option PeerResult) → List Bytes → List PeerResult
answers ask [] = []
answers ask (a ∷ peers) = with_answer (ask a) (answers ask peers)

-- The peers whose turn it is: three, or all where there are fewer.
abbrev pub peers_in_turn : HeightState → List Bytes
peers_in_turn s = peers_from (max_peers s.peers) s.next_peer_index s.peers

-- One of the heights, and none is greater.
abbrev pub IsGreatest : ℤ → List ℤ → Type 0
IsGreatest h heights = Mem h heights × All (λ k. ltb_ℤ h k ≡ false) heights

-- How a call ends, given the heights that count.
abbrev pub Settles : List ℤ → Result HeightError ℤ × HeightState → Type 0
Settles heights (result, after) =
    ((heights ≡ []) × (result ≡ err all_failed))
    ⊎ ((h : ℤ) × (result ≡ ok h) × (after.current_height ≡ h) × IsGreatest h heights)
