-- ===== src/Peers/Fastest.antt =====
-- The order in which the peers are asked: the fastest first, those without a success last.
use mathlib.Core.List.{Perm}
use mathlib.Core.List.Pairwise
use dnn_node.Base.{
  ◌≡◌, refl, Bool, true, false, not, ◌⊎◌, inl, inr, List, length, Option, none, some, arith,
  Bool-cases, if◌then◌else◌,
}
use dnn_node.Base.Bytes.{Bytes}
use dnn_node.Base.Dict.{lookup}
use dnn_node.Base.Int.{ℤ, pos, negsuc, ltb_ℤ, eqb_ℤ}
use dnn_node.Sync.Sorting.{IsStrictWeakOrder, IsOrdered}
use dnn_node.Peers.{
  PeerStats, PeerTables, lacks_success, has_success, exchanges, get_sorted_peers_by_performance,
}
use dnn_node.Peers.Exchange.{Any, exchange_loop-sorts}

-- The number of successes is not negative.
abbrev pub IsCounted : Option PeerStats → Type 0
IsCounted none = Unit {0}
IsCounted (some stats) = ltb_ℤ stats.success_count (pos 0) ≡ false

-- The average time of a peer with a success.
abbrev pub measured : Option PeerStats → Option ℤ
measured none = none
measured (some stats) =
    if eqb_ℤ stats.success_count (pos 0) then none else some stats.average_response_time

-- A peer with an average time is before one without, and a lower time before a higher one.
abbrev pub faster : Option ℤ → Option ℤ → Bool
faster none b = false
faster (some a) none = true
faster (some a) (some b) = ltb_ℤ a b

positive_or_zero : (n : ℤ) → ltb_ℤ n (pos 0) ≡ false → ltb_ℤ (pos 0) n ≡ not (eqb_ℤ n (pos 0))
positive_or_zero (pos n) h = ground arith
positive_or_zero (negsuc n) h = ground arith

has_not_lacks : (s : Option PeerStats) → IsCounted s → has_success s ≡ not (lacks_success s)
has_not_lacks none h = refl
has_not_lacks (some stats) h = positive_or_zero stats.success_count h

exchanges-faster :
    (i j : Option PeerStats)
    → IsCounted i
    → IsCounted j
    → exchanges i j ≡ faster (measured j) (measured i)
unfolding exchanges
exchanges-faster none none h k = refl
exchanges-faster none (some j) h k =
    rw (has_not_lacks (some j) k)
      (elim (Bool-cases (eqb_ℤ j.success_count (pos 0))) [ inl e ↦ rw e refl | inr e ↦ rw e refl ])
exchanges-faster (some i) none h k = elim (Bool-cases (eqb_ℤ i.success_count (pos 0))) [
  | inl e ↦ rw e refl
  | inr e ↦ rw e refl
]
exchanges-faster (some i) (some j) h k =
    let has = has_not_lacks (some j) k in
    elim (Bool-cases (eqb_ℤ i.success_count (pos 0))) [
      | inl e ↦ elim (Bool-cases (eqb_ℤ j.success_count (pos 0))) [
        | inl d ↦ rw (has, e, d) refl
        | inr d ↦ rw (has, e, d) refl
      ]
      | inr e ↦ elim (Bool-cases (eqb_ℤ j.success_count (pos 0))) [
        | inl d ↦ rw (e, d) refl
        | inr d ↦ rw (e, d) refl
      ]
    ]

faster_asym : (a b : Option ℤ) → faster a b ≡ true → faster b a ≡ false
faster_asym none b h = absurd (cc)
faster_asym (some a) none h = refl
faster_asym (some a) (some b) h = ground arith

faster_cotrans : (a b c : Option ℤ) → faster a c ≡ true → (faster a b ≡ true) ⊎ (faster b c ≡ true)
faster_cotrans none b c h = absurd (cc)
faster_cotrans (some a) none c h = inl refl
faster_cotrans (some a) (some b) none h = inr refl
faster_cotrans (some a) (some b) (some c) h = elim (Bool-cases (ltb_ℤ a b)) [
  | inl e ↦ inl e
  | inr e ↦ inr (ground arith)
]

module _ (stats : Bytes → Option PeerStats) (counted : (a : Bytes) → IsCounted (stats a)) where
  abbrev before : Bytes → Bytes → Bool
  before a b = exchanges (stats b) (stats a)

  before-faster : (a b : Bytes) → before a b ≡ faster (measured (stats a)) (measured (stats b))
  before-faster a b = exchanges-faster (stats b) (stats a) (counted b) (counted a)

  before-IsStrictWeakOrder : IsStrictWeakOrder Any before
  before-IsStrictWeakOrder = record {
    asym = λ a b _ _ h.
        rw (before-faster b a)
          (faster_asym (measured (stats a)) (measured (stats b)) (rw (before-faster a b) at h));
    cotrans = λ a b c _ _ _ h.
        rw (before-faster a b, before-faster b c)
          (faster_cotrans (measured (stats a)) (measured (stats b)) (measured (stats c))
            (rw (before-faster a c) at h));
  }

-- No later peer is faster than an earlier one.
abbrev pub FastestFirst : PeerTables → List Bytes → Type 0
FastestFirst p =
    IsOrdered Any
      (λ a b. faster (measured (lookup a p.peer_stats)) (measured (lookup b p.peer_stats)))

-- Where no peer has a negative number of successes, getSortedPeersByPerformance gives the same
-- peers, as often as they are in the list, in an order in which no later peer is faster than an
-- earlier one: a peer with a success is faster than one without, and of two with one that with the
-- lower average time.
pub get_sorted_peers_by_performance-sorts :
    (p : PeerTables) (peers : List Bytes)
    → ((a : Bytes) → IsCounted (lookup a p.peer_stats))
    → Perm (get_sorted_peers_by_performance p peers) peers
      × FastestFirst p (get_sorted_peers_by_performance p peers)
unfolding get_sorted_peers_by_performance
get_sorted_peers_by_performance-sorts p peers counted =
    let stats : Bytes → Option PeerStats = λ a. lookup a p.peer_stats in
    let (perm, ordered) =
      exchange_loop-sorts (before stats counted) (before-IsStrictWeakOrder stats counted)
        (length peers) peers (omega arith) in
    (perm, Pairwise.imp (λ a b h. rw (before-faster stats counted b a) at h) ordered)
