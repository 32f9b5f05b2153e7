-- ===== src/Peers.antt =====
-- internal/bitcoin/p2p_client.go: what the P2P client counts of its peers, and the order in which it
-- asks them for a block. A peer is held as its address.
pub mod Exchange
pub mod Fastest
pub mod Height
mod Tests
use dnn_node.Base.{
  ℕ, zero, suc, Bool, true, false, not, ◌&&◌, ◌||◌, List, [], ◌∷◌, Option, none, some, length,
  if◌then◌else◌,
}
use dnn_node.Base.Bytes.{Bytes}
use dnn_node.Base.Dict.{Dict, lookup, insert, remove}
use dnn_node.Base.Int.{ℤ, pos, negsuc, ◌+ℤ◌, ◌-ℤ◌, div_ℤ, ltb_ℤ, eqb_ℤ}

pub record PeerStats : Type 0 where
  pub address : Bytes
  pub success_count : ℤ
  pub failure_count : ℤ
  pub total_response_time : ℤ
  pub average_response_time : ℤ
  pub last_success : ℕ
  pub last_failure : ℕ

pub record PeerTables : Type 0 where
  pub peer_failures : Dict ℤ
  pub peer_last_fail : Dict ℕ
  pub peer_stats : Dict PeerStats

abbrev count_of : Option ℤ → ℤ
count_of none = pos 0
count_of (some n) = n

pub record_peer_failure : ℕ → Bytes → PeerTables → PeerTables
record_peer_failure now peer_addr p = record p {
  peer_failures =
      insert peer_addr (count_of (lookup peer_addr p.peer_failures) +ℤ pos 1) p.peer_failures;
  peer_last_fail = insert peer_addr now p.peer_last_fail;
}

pub record_peer_success : Bytes → PeerTables → PeerTables
record_peer_success peer_addr p = record p {
  peer_failures = remove peer_addr p.peer_failures;
  peer_last_fail = remove peer_addr p.peer_last_fail;
}

-- Go's division rounds towards zero; `none` is a division by zero.
abbrev quotient : ℤ → ℤ → Option ℤ
quotient total (pos zero) = none
quotient total (pos (suc n)) = some (div_ℤ total (suc n))
quotient total (negsuc n) = some (pos 0 -ℤ div_ℤ total (suc n))

abbrev stats_or_new : Bytes → Option PeerStats → PeerStats
stats_or_new peer_addr (some stats) = stats
stats_or_new peer_addr none = record {
  address = peer_addr;
  success_count = pos 0;
  failure_count = pos 0;
  total_response_time = pos 0;
  average_response_time = pos 0;
  last_success = 0;
  last_failure = 0;
}

-- `none` is a run-time panic.
abbrev count_success : ℕ → ℤ → PeerStats → Option PeerStats
count_success now response_time stats =
    let successes = stats.success_count +ℤ pos 1 in
    let total = stats.total_response_time +ℤ response_time in
    elim (quotient total successes) [
      | none ↦ none
      | some average ↦ some (record stats {
        success_count = successes;
        total_response_time = total;
        average_response_time = average;
        last_success = now;
      })
    ]

abbrev count_failure : ℕ → PeerStats → PeerStats
count_failure now stats = record stats {
  failure_count = stats.failure_count +ℤ pos 1;
  last_failure = now;
}

pub update_peer_stats : ℕ → Bytes → Bool → ℤ → PeerTables → Option PeerTables
update_peer_stats now peer_addr success response_time p =
    let stats = stats_or_new peer_addr (lookup peer_addr p.peer_stats) in
    let counted =
      if success then count_success now response_time stats else some (count_failure now stats) in
    elim counted [
      | none ↦ none
      | some next ↦ some (record p { peer_stats = insert peer_addr next p.peer_stats })
    ]

abbrev pub lacks_success : Option PeerStats → Bool
lacks_success none = true
lacks_success (some stats) = eqb_ℤ stats.success_count (pos 0)

abbrev pub has_success : Option PeerStats → Bool
has_success none = false
has_success (some stats) = ltb_ℤ (pos 0) stats.success_count

abbrev pub slower : Option PeerStats → Option PeerStats → Bool
slower (some i) (some j) = ltb_ℤ j.average_response_time i.average_response_time
slower _ _ = false

-- Two peers are exchanged.
unfoldable pub exchanges : Option PeerStats → Option PeerStats → Bool
exchanges stats_i stats_j =
    if lacks_success stats_i
    then has_success stats_j
    else if lacks_success stats_j
    then false
    else slower stats_i stats_j

-- The inner loop: what then stands at its first place, and behind it.
unfoldable pub exchange_pass : (Bytes → Bytes → Bool) → Bytes → List Bytes → Bytes × List Bytes
exchange_pass exchanged x [] = (x, [])
exchange_pass exchanged x (y ∷ ys) =
    let swap = exchanged x y in
    let rest = exchange_pass exchanged (if swap then y else x) ys in
    (rest.0, (if swap then x else y) ∷ rest.1)

unfoldable pub exchange_loop : (Bytes → Bytes → Bool) → ℕ → List Bytes → List Bytes
unfolding exchange_pass
exchange_loop exchanged zero sorted = sorted
exchange_loop exchanged (suc rounds) [] = []
exchange_loop exchanged (suc rounds) (x ∷ sorted) =
    let pass = exchange_pass exchanged x sorted in pass.0 ∷ exchange_loop exchanged rounds pass.1

-- As many rounds as peers.
unfoldable pub get_sorted_peers_by_performance : PeerTables → List Bytes → List Bytes
unfolding exchanges exchange_loop
get_sorted_peers_by_performance p peers =
    exchange_loop (λ i j. exchanges (lookup i p.peer_stats) (lookup j p.peer_stats)) (length peers)
      peers
