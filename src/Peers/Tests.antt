-- ===== src/Peers/Tests.antt =====
-- Peers with and without statistics, and the theorem at some.
use mathlib.Core.List.{Perm}
use dnn_node.Base.{
  ok, Option, some, none, if◌then◌else◌, ◌≡◌, refl, List, [], ◌∷◌, Bool-cases, inl, inr,
}
use dnn_node.Base.Bytes.{Bytes, codes, bytes_eq}
use dnn_node.Base.Dict.{lookup}
use dnn_node.Base.Int.{pos}
use dnn_node.Peers.{
  PeerStats, PeerTables, exchanges, exchange_pass, exchange_loop, get_sorted_peers_by_performance,
}
use dnn_node.Peers.Height.{
  PeerResult, HeightState, query_loop, median_height, get_block_count_consensus,
}
use dnn_node.Peers.Fastest.{IsCounted, FastestFirst, get_sorted_peers_by_performance-sorts}

abbrev quick : PeerStats
quick = record {
  address = codes "a";
  success_count = pos 2;
  failure_count = pos 0;
  total_response_time = pos 30;
  average_response_time = pos 15;
  last_success = 7;
  last_failure = 0;
}

abbrev slow : PeerStats
slow = record quick { address = codes "c"; average_response_time = pos 40 }

abbrev known : PeerTables
known = record {
  peer_failures = [];
  peer_last_fail = [];
  peer_stats = (codes "a", quick) ∷ (codes "c", slow) ∷ [];
}

known-IsCounted : (a : Bytes) → IsCounted (lookup a known.peer_stats)
known-IsCounted a = elim (Bool-cases (bytes_eq a (codes "a"))) [
  | inl e ↦ rw e refl
  | inr e ↦
      rw e (elim (Bool-cases (bytes_eq a (codes "c"))) [ inl d ↦ rw d refl | inr d ↦ rw d tt ])
]

abbrev asked : List Bytes
asked = codes "c" ∷ codes "b" ∷ codes "a" ∷ []

fastest_first : get_sorted_peers_by_performance known asked ≡ codes "a" ∷ codes "c" ∷ codes "b" ∷ []
unfolding get_sorted_peers_by_performance exchanges exchange_loop exchange_pass
fastest_first = refl

get_sorted_peers_by_performance-sorts_example :
    Perm (get_sorted_peers_by_performance known asked) asked
    × FastestFirst known (get_sorted_peers_by_performance known asked)
get_sorted_peers_by_performance-sorts_example =
    get_sorted_peers_by_performance-sorts known asked known-IsCounted

abbrev answered_with : Bytes → Option PeerResult
answered_with peer_addr =
    if bytes_eq peer_addr (codes "a")
    then some (record { height = pos 10; local_headers = (pos 10, codes "h") ∷ []; local_h2h = [] })
    else if bytes_eq peer_addr (codes "c")
    then some (record { height = pos 99; local_headers = []; local_h2h = [] })
    else none

abbrev at_start : HeightState
at_start = record {
  peers = asked;
  next_peer_index = 1;
  tables = known;
  header_cache = [];
  block_hash_to_height = [];
  current_height = pos 0;
  height_cache_time = 0;
}

-- The peer b does not answer, a answers 10 and c answers 99.
settled : (get_block_count_consensus answered_with 5 at_start).0 ≡ ok (pos 99)
unfolding get_block_count_consensus query_loop median_height
settled = refl
