-- ===== src/Awareness/Tests.antt =====
-- Tables with a few marks, and the theorems there.
use dnn_node.Base.{true, none, ◌+◌, ◌≤◌, ◌≡◌, refl, false, List, [], ◌∷◌, Option, some, ok}
use dnn_node.Base.Bytes.{Bytes, codes, split}
use dnn_node.Base.Int.{ℤ, pos}
use dnn_node.Awareness.{
  Tables, LocalMark, PeerMark, PeerConsensus, add_local_mark, add_peer_mark, delete_where,
  count_where, is_peer_of, is_peer_key, get_peer_consensus, category_counts,
  clear_peer_marks_for_peer,
}
use dnn_node.Awareness.Marks.{Reached, empty, peer_added, get_peer_consensus-Reached}
use dnn_node.Awareness.Peers.{parse_dnn_awareness_event, import_tags, mark_of_tag, parse_dnn_id}
use dnn_node.Awareness.Import.{others, parse_dnn_awareness_event-others}

abbrev none_yet : Tables
none_yet = record { local = []; peers = [] }

abbrev peer_block : PeerMark
peer_block = record {
  dnn_block = pos 5;
  position = pos 2;
  name = codes "";
  peer_pubkey = codes "p1";
  mark = codes "block";
  category = codes "scam";
  reason = codes "";
}

abbrev one_mark : Tables
one_mark = record { local = []; peers = peer_block ∷ [] }

added : add_peer_mark false peer_block none_yet ≡ ok one_mark
unfolding add_peer_mark delete_where
added = refl

abbrev counted : PeerConsensus
counted = record {
  allow_count = 0;
  neutral_count = 0;
  block_count = 1;
  total_peers = 1;
  categories = (codes "scam", 1) ∷ [];
}

consensus : get_peer_consensus false false (pos 5) (pos 2) (codes "") one_mark ≡ ok counted
unfolding get_peer_consensus count_where category_counts
consensus = refl

get_peer_consensus-Reached_example :
    (counted.allow_count + counted.neutral_count + counted.block_count ≡ counted.total_peers)
    × (counted.total_peers ≡ count_where (is_peer_of (pos 5) (pos 2) (codes "")) one_mark.peers)
    × ((peer_pubkey : Bytes)
        → count_where (is_peer_key (pos 5) (pos 2) (codes "") peer_pubkey) one_mark.peers ≤ 1)
get_peer_consensus-Reached_example =
    get_peer_consensus-Reached false false (pos 5) (pos 2) (codes "") counted
      (peer_added false peer_block empty added) consensus

abbrev operator_block : LocalMark
operator_block = record {
  dnn_block = pos 5;
  position = pos 2;
  name = [];
  mark = codes "block";
  category = codes "";
  reason = codes "";
}

abbrev blocked : Tables
blocked = record { local = operator_block ∷ []; peers = [] }

block_added : add_local_mark false operator_block none_yet ≡ ok blocked
unfolding add_local_mark delete_where
block_added = refl

-- A reader of `n5.2` only.
abbrev scan : Bytes → Option (ℤ × ℤ)
scan s = some (pos 5, pos 2)

abbrev tags : List (List Bytes)
tags = (codes "dnn" ∷ codes "alice.n5.2" ∷ codes "allow" ∷ []) ∷ (codes "d" ∷ []) ∷ []

parse_dnn_awareness_event-others_example :
    let after = (parse_dnn_awareness_event scan false (λ m. false) (codes "p2") tags one_mark).0 in
    (others (codes "p2") after ≡ others (codes "p2") one_mark) × (Reached one_mark → Reached after)
parse_dnn_awareness_event-others_example =
    parse_dnn_awareness_event-others scan false (λ m. false) (codes "p2") tags one_mark

imported : (parse_dnn_awareness_event scan false (λ m. false) (codes "p2") tags one_mark).1 ≡ some 1
unfolding parse_dnn_awareness_event import_tags mark_of_tag parse_dnn_id add_peer_mark
    clear_peer_marks_for_peer delete_where split
imported = refl

-- A failure to clear the marks of a peer with a short key.
short_key :
    parse_dnn_awareness_event scan true (λ m. false) (codes "p2") tags one_mark ≡ (one_mark, none)
unfolding parse_dnn_awareness_event clear_peer_marks_for_peer
short_key = refl
