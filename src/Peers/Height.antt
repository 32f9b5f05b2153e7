-- ===== src/Peers/Height.antt =====
-- internal/bitcoin/p2p_client.go: `getBlockCountConsensus`. What a peer answers
-- (`getBlockCountFromPeer`) is a parameter.
pub mod Greatest
use dnn_node.Base.{
  ℕ, zero, suc, ◌+◌, ◌%◌, ◌/◌, Bool, true, false, List, [], ◌∷◌, ◌++◌, map, Option, none, some,
  Result, ok, err, panic, length, get_elem?, ltb, leb, if◌then◌else◌, is_nil,
}
use dnn_node.Base.Bytes.{Bytes}
use dnn_node.Base.Dict.{Dict, insert}
use dnn_node.Base.Int.{ℤ, ltb_ℤ, eqb_ℤ}
use dnn_node.Peers.{PeerTables, record_peer_failure, record_peer_success}

pub record PeerResult : Type 0 where
  pub height : ℤ
  pub local_headers : List (ℤ × Bytes)
  pub local_h2h : Dict ℤ

-- The index of the next peer grows with each call; it is held without the bound of an `int`.
pub record HeightState : Type 0 where
  pub peers : List Bytes
  pub next_peer_index : ℕ
  pub tables : PeerTables
  pub header_cache : List (ℤ × Bytes)
  pub block_hash_to_height : Dict ℤ
  pub current_height : ℤ
  pub height_cache_time : ℕ

pub data HeightError : Type 0 where
  no_connected_peers all_failed : HeightError

abbrev peers_from : ℕ → ℕ → List Bytes → List Bytes
peers_from zero i peers = []
peers_from (suc n) i peers = elim (get_elem? peers (i % length peers)) [
  | none ↦ []
  | some peer ↦ peer ∷ peers_from n (i + 1) peers
]

abbrev max_peers : List Bytes → ℕ
max_peers peers = if ltb (length peers) 3 then length peers else 3

-- The peers are asked in turn, until two have answered.
unfoldable pub query_loop :
    (Bytes → Option PeerResult)
    → ℕ
    → List Bytes
    → List PeerResult
    → PeerTables
    → List PeerResult × PeerTables
query_loop ask now [] results p = (results, p)
query_loop ask now (peer_addr ∷ peers) results p = elim (ask peer_addr) [
  | none ↦ query_loop ask now peers results (record_peer_failure now peer_addr p)
  | some answer ↦ elim (leb 2 (length (results ++ (answer ∷ [])))) [
    | true ↦ (results ++ (answer ∷ []), record_peer_success peer_addr p)
    | false ↦ query_loop ask now peers (results ++ (answer ∷ [])) (record_peer_success peer_addr p)
  ]
]

-- The exchanges of the inner loop, and the outer one.
abbrev height_pass : ℤ → List ℤ → ℤ × List ℤ
height_pass x [] = (x, [])
height_pass x (y ∷ ys) =
    let swap = ltb_ℤ y x in
    let rest = height_pass (if swap then y else x) ys in (rest.0, (if swap then x else y) ∷ rest.1)

abbrev pub sort_heights : ℕ → List ℤ → List ℤ
sort_heights zero heights = heights
sort_heights (suc rounds) [] = []
sort_heights (suc rounds) (x ∷ heights) =
    let pass = height_pass x heights in pass.0 ∷ sort_heights rounds pass.1

-- `heights[len(heights)/2]`
unfoldable pub median_height : List PeerResult → Option ℤ
median_height results =
    let heights = sort_heights (length results) (map (λ r. r.height) results) in
    get_elem? heights (length heights / 2)

-- The last of the results with the greatest height.
abbrev best_of : PeerResult → List PeerResult → PeerResult
best_of best [] = best
best_of best (r ∷ results) = best_of (if ltb_ℤ r.height best.height then best else r) results

abbrev remove_height : ℤ → List (ℤ × Bytes) → List (ℤ × Bytes)
remove_height height [] = []
remove_height height ((h, hash) ∷ headers) =
    let rest = remove_height height headers in if eqb_ℤ h height then rest else (h, hash) ∷ rest

abbrev merge_headers : List (ℤ × Bytes) → List (ℤ × Bytes) → List (ℤ × Bytes)
merge_headers [] cache = cache
merge_headers ((h, hash) ∷ headers) cache =
    merge_headers headers ((h, hash) ∷ remove_height h cache)

abbrev merge_heights : Dict ℤ → Dict ℤ → Dict ℤ
merge_heights [] cache = cache
merge_heights ((hash, h) ∷ heights) cache = merge_heights heights (insert hash h cache)

abbrev pub agreed :
    ℕ → HeightState → List PeerResult → PeerTables → Option ℤ → Result HeightError ℤ × HeightState
agreed now s [] tables median = (err all_failed, record s { tables = tables })
agreed now s (r ∷ results) tables none = (panic, record s { tables = tables })
agreed now s (r ∷ results) tables (some median) =
    let best = best_of r results in
    (
      ok median,
      record s {
        tables = tables;
        header_cache = merge_headers best.local_headers s.header_cache;
        block_hash_to_height = merge_heights best.local_h2h s.block_hash_to_height;
        current_height = median;
        height_cache_time = now;
      },
    )

unfoldable pub get_block_count_consensus :
    (Bytes → Option PeerResult) → ℕ → HeightState → Result HeightError ℤ × HeightState
get_block_count_consensus ask now s =
    let to_query = max_peers s.peers in
    let asked = query_loop ask now (peers_from to_query s.next_peer_index s.peers) [] s.tables in
    if is_nil s.peers
    then (err no_connected_peers, s)
    else agreed now (record s { next_peer_index = s.next_peer_index + to_query }) asked.0 asked.1
        (median_height asked.0)
