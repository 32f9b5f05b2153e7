-- ===== src/Awareness/Import.antt =====
-- What the import of a peer's marks leaves alone.
use dnn_node.Base.{
  ℕ, ◌≡◌, refl, sym, ◌∙◌, ap, Bool, true, ◌&&◌, List, [], ◌∷◌, Option, none, some, Result, ok, err,
  panic, arith, ltb, length, Bool-cases, inl, inr, Each, if◌then◌else◌,
}
use dnn_node.Base.Bytes.{Bytes, codes, bytes_eq, bytes_eq_refl, split}
use dnn_node.Base.Int.{ℤ}
use dnn_node.Awareness.{
  Tables, PeerMark, MarkError, delete_where, is_from, is_peer_of, is_peer_key, replace_peer,
  add_peer_mark, clear_peer_marks_for_peer,
}
use dnn_node.Awareness.Marks.{
  Reached, peer_added, peer_cleared, add_peer_mark_ok, clear_peer_marks_ok,
}
use dnn_node.Awareness.Peers.{
  MarkedId, parse_dnn_id, mark_for, mark_of_tag, keep_or, add_mark, import_tags, behind_clear,
  parse_dnn_awareness_event,
}

delete_where_within :
    {A : Type 0} (p q : A → Bool) (rows : List A)
    → ((row : A) → q row ≡ true → p row ≡ true)
    → delete_where p (delete_where q rows) ≡ delete_where p rows
unfolding delete_where
delete_where_within p q [] h = refl
delete_where_within p q (row ∷ rows) h = elim (Bool-cases (q row)) [
  | inl gone ↦ rw (gone, h row gone) (delete_where_within p q rows h)
  | inr kept ↦
      rw kept (ap (λ rest. if p row then rest else row ∷ rest) (delete_where_within p q rows h))
]

second : (a b : Bool) → (a && b) ≡ true → b ≡ true
second a b h = ground arith

-- The tables with the rows of one peer left out.
abbrev pub others : Bytes → Tables → Tables
others peer_pubkey t = record t { peers = delete_where (is_from peer_pubkey) t.peers }

delete_first :
    {A : Type 0} (p : A → Bool) (row : A) (rows : List A)
    → p row ≡ true
    → delete_where p (row ∷ rows) ≡ delete_where p rows
unfolding delete_where
delete_first p row rows h = rw h refl

others-replace_peer :
    (m : PeerMark) (rows : List PeerMark)
    → delete_where (is_from m.peer_pubkey) (replace_peer m rows)
      ≡ delete_where (is_from m.peer_pubkey) rows
others-replace_peer m rows =
    let mine = is_from m.peer_pubkey in
    let key = is_peer_key m.dnn_block m.position m.name m.peer_pubkey in
    delete_first mine m (delete_where key rows) (bytes_eq_refl m.peer_pubkey)
    ∙ delete_where_within mine key rows
        (λ row h. second (is_peer_of m.dnn_block m.position m.name row) (mine row) h)

others-add_mark :
    (fails : PeerMark → Bool) (peer_pubkey : Bytes) (found : Option PeerMark) (acc : Tables × ℕ)
    → Each (λ m. m.peer_pubkey ≡ peer_pubkey) found
    → others peer_pubkey (add_mark fails found acc).0 ≡ others peer_pubkey acc.0
others-add_mark fails pk none (t, n) h = refl
others-add_mark fails pk (some m) (t, n) h = kept (add_peer_mark (fails m) m t) refl
  where
    kept :
        (result : Result MarkError Tables)
        → add_peer_mark (fails m) m t ≡ result
        → others pk (keep_or t result) ≡ others pk t
    kept (ok t') e =
        let (_, same) = add_peer_mark_ok (fails m) m t t' e in
        rw same
          (ap (λ rows. record t { peers = rows }) (rw (sym h) (others-replace_peer m t.peers)))
    kept (err f) e = refl
    kept panic e = refl

add_mark-Reached :
    (fails : PeerMark → Bool) (found : Option PeerMark) (acc : Tables × ℕ)
    → Reached acc.0
    → Reached (add_mark fails found acc).0
add_mark-Reached fails none (t, n) r = r
add_mark-Reached fails (some m) (t, n) r = kept (add_peer_mark (fails m) m t) refl
  where
    kept :
        (result : Result MarkError Tables)
        → add_peer_mark (fails m) m t ≡ result
        → Reached (keep_or t result)
    kept (ok t') e = peer_added (fails m) m r e
    kept (err f) e = r
    kept panic e = r

mark_for-Each :
    (pk mark : Bytes) (more : List Bytes) (id : Option MarkedId)
    → Each (λ m. m.peer_pubkey ≡ pk) (mark_for pk mark more id)
mark_for-Each pk mark more none = tt
mark_for-Each pk mark more (some id) = refl

mark_of_tag-Each :
    (scan : Bytes → Option (ℤ × ℤ)) (pk : Bytes) (tag : List Bytes)
    → Each (λ m. m.peer_pubkey ≡ pk) (mark_of_tag scan pk tag)
unfolding mark_of_tag
mark_of_tag-Each scan pk [] = tt
mark_of_tag-Each scan pk (key ∷ []) = tt
mark_of_tag-Each scan pk (key ∷ id ∷ []) = tt
mark_of_tag-Each scan pk (key ∷ id ∷ mark ∷ more) = elim (Bool-cases (bytes_eq key (codes "dnn"))) [
  | inl yes_dnn ↦ rw yes_dnn (mark_for-Each pk mark more (parse_dnn_id scan id (split id b'.')))
  | inr other ↦ rw other tt
]

others-import_tags :
    (scan : Bytes → Option (ℤ × ℤ)) (fails : PeerMark → Bool) (pk : Bytes)
    (tags : List (List Bytes)) (acc : Tables × ℕ)
    → others pk (import_tags scan fails pk tags acc).0 ≡ others pk acc.0
unfolding import_tags
others-import_tags scan fails pk [] acc = refl
others-import_tags scan fails pk (tag ∷ tags) acc =
    others-import_tags scan fails pk tags (add_mark fails (mark_of_tag scan pk tag) acc)
    ∙ others-add_mark fails pk (mark_of_tag scan pk tag) acc (mark_of_tag-Each scan pk tag)

import_tags-Reached :
    (scan : Bytes → Option (ℤ × ℤ)) (fails : PeerMark → Bool) (pk : Bytes)
    (tags : List (List Bytes)) (acc : Tables × ℕ)
    → Reached acc.0
    → Reached (import_tags scan fails pk tags acc).0
unfolding import_tags
import_tags-Reached scan fails pk [] acc r = r
import_tags-Reached scan fails pk (tag ∷ tags) acc r =
    import_tags-Reached scan fails pk tags (add_mark fails (mark_of_tag scan pk tag) acc)
      (add_mark-Reached fails (mark_of_tag scan pk tag) acc r)

-- The rest of the import, behind the attempt to clear.
module _ (scan : Bytes → Option (ℤ × ℤ)) (fails : PeerMark → Bool) (pk : Bytes)
    (tags : List (List Bytes)) (t : Tables) where
  abbrev Keeps : Tables → Type 0
  Keeps after = (others pk after ≡ others pk t) × (Reached t → Reached after)

  imported-Keeps : (from : Tables) → Keeps from → Keeps (import_tags scan fails pk tags (from, 0)).0
  imported-Keeps from (same, reached) = (
    others-import_tags scan fails pk tags (from, 0) ∙ same,
    λ r. import_tags-Reached scan fails pk tags (from, 0) (reached r),
  )

  behind_clear-Keeps :
      (clear_fails : Bool) (result : Result MarkError Tables)
      → clear_peer_marks_for_peer clear_fails pk t ≡ result
      → Keeps (behind_clear scan fails pk tags t result).0
  behind_clear-Keeps clear_fails (ok t') e = imported-Keeps t' (
    rw (clear_peer_marks_ok clear_fails pk t t' e) (
        ap (λ rows. record t { peers = rows })
          (delete_where_within (is_from pk) (is_from pk) t.peers (λ row h. h))),
    λ r. peer_cleared clear_fails pk r e,
  )
  behind_clear-Keeps clear_fails (err f) e = elim (Bool-cases (ltb (length pk) 8)) [
    | inl short ↦ rw short (refl, λ r. r)
    | inr long ↦ rw long (imported-Keeps t (refl, λ r. r))
  ]
  behind_clear-Keeps clear_fails panic e = (refl, λ r. r)

-- The import of the marks that a peer publishes leaves the marks of the operator and those of the
-- other peers as they were, whatever the tags are and whichever statements fail, and from tables
-- that the single operations lead to it leads to such tables.
pub parse_dnn_awareness_event-others :
    (scan : Bytes → Option (ℤ × ℤ)) (clear_fails : Bool) (fails : PeerMark → Bool)
    (peer_pubkey : Bytes) (tags : List (List Bytes)) (t : Tables)
    → let after = (parse_dnn_awareness_event scan clear_fails fails peer_pubkey tags t).0 in
      (others peer_pubkey after ≡ others peer_pubkey t) × (Reached t → Reached after)
unfolding parse_dnn_awareness_event
parse_dnn_awareness_event-others scan clear_fails fails pk tags t =
    behind_clear-Keeps scan fails pk tags t clear_fails (clear_peer_marks_for_peer clear_fails pk t)
      refl
