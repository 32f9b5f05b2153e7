-- ===== src/Awareness/Marks.antt =====
-- What the tables of marks keep, and what the marks decide.
use dnn_node.Base.{
  one_of_iff, ◌+◌, ◌≤◌, ◌≡◌, refl, sym, subst, ap, ◌⊎◌, inl, inr, not, Bool, true, false, ◌&&◌,
  List, [], ◌∷◌, ok, arith, All, bind_ok, fail_if, fail_if_ok, Bool-cases, if◌then◌else◌, ==_iff,
}
use dnn_node.Base.Bytes.{Bytes, codes, bytes_eq, bytes_eq_sound}
use dnn_node.Base.Int.{ℤ, pos, negsuc, eqb_ℤ}
use dnn_node.Awareness.{
  Tables, LocalMark, PeerMark, invalid_mark, invalid_category, statement_failed, is_mark,
  delete_where, select_row, count_where, is_local_of, is_peer_of, is_peer_key, replace_local,
  replace_peer, add_local_mark, delete_local_mark, clear_local_marks, add_peer_mark, is_from,
  clear_peer_marks_for_peer, is_blocked, get_peer_consensus, PeerConsensus, is_marked, is_category,
  category_counts,
}

eqb_ℤ_sound : (a b : ℤ) → eqb_ℤ a b ≡ true → a ≡ b
eqb_ℤ_sound (pos a) (pos b) h = ap pos ((==_iff a b).0 h)
eqb_ℤ_sound (negsuc a) (negsuc b) h = ap negsuc ((==_iff a b).0 h)
eqb_ℤ_sound (pos a) (negsuc b) h = absurd (cc)
eqb_ℤ_sound (negsuc a) (pos b) h = absurd (cc)

eqb_ℤ_refl : (a : ℤ) → eqb_ℤ a a ≡ true
eqb_ℤ_refl (pos a) = ground arith
eqb_ℤ_refl (negsuc a) = ground arith

count_where-delete_self :
    {A : Type 0} (p : A → Bool) (rows : List A) → count_where p (delete_where p rows) ≡ 0
unfolding count_where delete_where
count_where-delete_self p [] = refl
count_where-delete_self p (row ∷ rows) = elim (Bool-cases (p row)) [
  | inl gone ↦ rw gone (count_where-delete_self p rows)
  | inr kept ↦ rw (kept, kept) (count_where-delete_self p rows)
]

count_where-delete_le :
    {A : Type 0} (p q : A → Bool) (rows : List A)
    → count_where q (delete_where p rows) ≤ count_where q rows
unfolding count_where delete_where
count_where-delete_le p q [] = omega arith
count_where-delete_le p q (row ∷ rows) = ground (arith, count_where-delete_le p q rows)

delete_where-All :
    {A : Type 0} (P : A → Type 0) (p : A → Bool) (rows : List A)
    → All P rows
    → All P (delete_where p rows)
unfolding delete_where
delete_where-All P p [] h = h
delete_where-All P p (row ∷ rows) h = elim (Bool-cases (p row)) [
  | inl gone ↦ rw gone (delete_where-All P p rows h.1)
  | inr kept ↦ rw kept (h.0, delete_where-All P p rows h.1)
]

-- The marks of peers are of the three kinds, and a peer has one mark at most on an ID and a name.
pub record IsTable (rows : List PeerMark) : Type 0 where
  pub known : All (λ m. is_mark m.mark ≡ true) rows
  pub single :
      (dnn_block position : ℤ) (name peer_pubkey : Bytes)
      → count_where (is_peer_key dnn_block position name peer_pubkey) rows ≤ 1

delete_where-IsTable :
    (p : PeerMark → Bool) (rows : List PeerMark) → IsTable rows → IsTable (delete_where p rows)
delete_where-IsTable p rows h = record {
  known = delete_where-All (λ m. is_mark m.mark ≡ true) p rows h.known;
  single = λ b q n pk.
      omega (arith, h.single b q n pk, count_where-delete_le p (is_peer_key b q n pk) rows);
}

and4 :
    (a b c d : Bool)
    → ((a && (b && c)) && d) ≡ true
    → (a ≡ true) × (b ≡ true) × (c ≡ true) × (d ≡ true)
and4 a b c d h = ground arith

single_insert :
    (m : PeerMark) (rows : List PeerMark) (b q : ℤ) (n pk : Bytes)
    → count_where (is_peer_key b q n pk) rows ≤ 1
    → count_where (is_peer_key b q n pk) (replace_peer m rows) ≤ 1
unfolding count_where
single_insert m rows b q n pk h = elim (Bool-cases (is_peer_key b q n pk m)) [
  | inl mine ↦
      let (eb, eq, en, ek) = and4 _ _ _ _ mine in
      let gone =
        count_where-delete_self (is_peer_key m.dnn_block m.position m.name m.peer_pubkey) rows in
      let same : is_peer_key m.dnn_block m.position m.name m.peer_pubkey ≡ is_peer_key b q n pk =
        rw
          (
            eqb_ℤ_sound m.dnn_block b eb,
            eqb_ℤ_sound m.position q eq,
            bytes_eq_sound m.name n en,
            bytes_eq_sound m.peer_pubkey pk ek,
          )
          refl in
      rw (mine, same) (rw (count_where-delete_self (is_peer_key b q n pk) rows) (omega arith))
  | inr other ↦ rw other (
      omega (
        arith,
        h,
        count_where-delete_le (is_peer_key m.dnn_block m.position m.name m.peer_pubkey)
            (is_peer_key b q n pk) rows,
      ))
]

replace_peer-IsTable :
    (m : PeerMark) (rows : List PeerMark)
    → is_mark m.mark ≡ true
    → IsTable rows
    → IsTable (replace_peer m rows)
replace_peer-IsTable m rows k h = record {
  known = (
    k,
    delete_where-All (λ m'. is_mark m'.mark ≡ true)
        (is_peer_key m.dnn_block m.position m.name m.peer_pubkey) rows h.known,
  );
  single = λ b q n pk. single_insert m rows b q n pk (h.single b q n pk);
}

-- The tables that the operations lead to, from empty ones.
pub data Reached : Tables → Type 0 where
  empty : Reached (record { local = []; peers = [] })
  local_added :
      {t t' : Tables} (fails : Bool) (m : LocalMark)
      → Reached t
      → add_local_mark fails m t ≡ ok t'
      → Reached t'
  local_deleted :
      {t t' : Tables} (fails : Bool) (dnn_block position : ℤ) (name : Bytes)
      → Reached t
      → delete_local_mark fails dnn_block position name t ≡ ok t'
      → Reached t'
  local_cleared :
      {t t' : Tables} (fails : Bool) → Reached t → clear_local_marks fails t ≡ ok t' → Reached t'
  peer_added :
      {t t' : Tables} (fails : Bool) (m : PeerMark)
      → Reached t
      → add_peer_mark fails m t ≡ ok t'
      → Reached t'
  peer_cleared :
      {t t' : Tables} (fails : Bool) (peer_pubkey : Bytes)
      → Reached t
      → clear_peer_marks_for_peer fails peer_pubkey t ≡ ok t'
      → Reached t'

true_of_not : (b : Bool) → not b ≡ false → b ≡ true
true_of_not true h = refl
true_of_not false h = absurd (cc)

pub add_peer_mark_ok :
    (fails : Bool) (m : PeerMark) (t t' : Tables)
    → add_peer_mark fails m t ≡ ok t'
    → (is_mark m.mark ≡ true) × (t' ≡ record t { peers = replace_peer m t.peers })
unfolding add_peer_mark
add_peer_mark_ok fails m t t' e =
    let (_, known, e1) = bind_ok (fail_if (not (is_mark m.mark)) invalid_mark) _ t' e in
    let (_, _, e2) = bind_ok (fail_if fails statement_failed) _ t' e1 in
    (true_of_not (is_mark m.mark) (fail_if_ok _ invalid_mark known), cc)

pub clear_peer_marks_ok :
    (fails : Bool) (peer_pubkey : Bytes) (t t' : Tables)
    → clear_peer_marks_for_peer fails peer_pubkey t ≡ ok t'
    → t' ≡ record t { peers = delete_where (is_from peer_pubkey) t.peers }
unfolding clear_peer_marks_for_peer
clear_peer_marks_ok fails peer_pubkey t t' e =
    let (_, _, e1) = bind_ok (fail_if fails statement_failed) _ t' e in cc

-- The operations on the marks of the operator leave those of the peers.
add_local_mark_peers :
    (fails : Bool) (m : LocalMark) (t t' : Tables)
    → add_local_mark fails m t ≡ ok t'
    → t'.peers ≡ t.peers
unfolding add_local_mark
add_local_mark_peers fails m t t' e =
    let (_, _, e1) = bind_ok (fail_if (not (is_mark m.mark)) invalid_mark) _ t' e in
    let (_, _, e2) = bind_ok (fail_if (not (is_category m.category)) invalid_category) _ t' e1 in
    let (_, _, e3) = bind_ok (fail_if fails statement_failed) _ t' e2 in
    let same : record t { local = replace_local m t.local } ≡ t' = cc in
    ap (λ x. x.peers) (sym same)

delete_local_mark_peers :
    (fails : Bool) (b q : ℤ) (n : Bytes) (t t' : Tables)
    → delete_local_mark fails b q n t ≡ ok t'
    → t'.peers ≡ t.peers
unfolding delete_local_mark
delete_local_mark_peers fails b q n t t' e =
    let (_, _, e1) = bind_ok (fail_if fails statement_failed) _ t' e in
    let same : record t { local = delete_where (is_local_of b q n) t.local } ≡ t' = cc in
    ap (λ x. x.peers) (sym same)

clear_local_marks_peers :
    (fails : Bool) (t t' : Tables) → clear_local_marks fails t ≡ ok t' → t'.peers ≡ t.peers
unfolding clear_local_marks
clear_local_marks_peers fails t t' e =
    let (_, _, e1) = bind_ok (fail_if fails statement_failed) _ t' e in
    let same : record t { local = [] } ≡ t' = cc in ap (λ x. x.peers) (sym same)

Reached-IsTable : {t : Tables} → Reached t → IsTable t.peers
Reached-IsTable empty = record {
  known = tt;
  single = λ b q n pk. unfold count_where in omega arith;
}
Reached-IsTable (local_added {t} {t'} fails m r e) =
    subst IsTable (sym (add_local_mark_peers fails m t t' e)) (Reached-IsTable r)
Reached-IsTable (local_deleted {t} {t'} fails b q n r e) =
    subst IsTable (sym (delete_local_mark_peers fails b q n t t' e)) (Reached-IsTable r)
Reached-IsTable (local_cleared {t} {t'} fails r e) =
    subst IsTable (sym (clear_local_marks_peers fails t t' e)) (Reached-IsTable r)
Reached-IsTable (peer_added {t} {t'} fails m r e) =
    let (known, same) = add_peer_mark_ok fails m t t' e in
    subst IsTable (sym (ap (λ x. x.peers) same))
      (replace_peer-IsTable m t.peers known (Reached-IsTable r))
Reached-IsTable (peer_cleared {t} {t'} fails pk r e) =
    subst IsTable (sym (ap (λ x. x.peers) (clear_peer_marks_ok fails pk t t' e)))
      (delete_where-IsTable (is_from pk) t.peers (Reached-IsTable r))

-- A known mark is one of the three, and no other one.
one_kind :
    (mark : Bytes)
    → is_mark mark ≡ true
    → (mark ≡ codes "allow") ⊎ (mark ≡ codes "neutral") ⊎ (mark ≡ codes "block")
one_kind mark h =
    let allow = bytes_eq_sound mark (codes "allow") in
    let neutral = bytes_eq_sound mark (codes "neutral") in
    let block = bytes_eq_sound mark (codes "block") in
    let kinds =
      one_of_iff (bytes_eq mark (codes "allow")) (bytes_eq mark (codes "neutral"))
        (bytes_eq mark (codes "block")) in
    elim (kinds.0 h) [
      | inl e ↦ inl (allow e)
      | inr (inl e) ↦ inr (inl (neutral e))
      | inr (inr e) ↦ inr (inr (block e))
    ]

count_kinds :
    (mine : PeerMark → Bool) (rows : List PeerMark)
    → All (λ m. is_mark m.mark ≡ true) rows
    → count_where (λ m. mine m && is_marked (codes "allow") m) rows
        + count_where (λ m. mine m && is_marked (codes "neutral") m) rows
        + count_where (λ m. mine m && is_marked (codes "block") m) rows
      ≡ count_where mine rows
unfolding count_where
count_kinds mine [] h = omega arith
count_kinds mine (m ∷ rows) h =
    let rest = count_kinds mine rows h.1 in
    elim (Bool-cases (mine m)) [
      | inr other ↦ rw other rest
      | inl counted ↦ rw counted (elim (one_kind m.mark h.0) [
        | inl e ↦ rw e (omega (arith, rest))
        | inr (inl e) ↦ rw e (omega (arith, rest))
        | inr (inr e) ↦ rw e (omega (arith, rest))
      ])
    ]

-- In every state of the tables that the operations lead to from empty ones, the three counts of
-- GetPeerConsensus add up to the number of peers, which is that of the marks on the ID and the
-- name, and no peer has two of them.
pub get_peer_consensus-Reached :
    {t : Tables} (fails categories_fail : Bool) (dnn_block position : ℤ) (name : Bytes)
    (c : PeerConsensus)
    → Reached t
    → get_peer_consensus fails categories_fail dnn_block position name t ≡ ok c
    → (c.allow_count + c.neutral_count + c.block_count ≡ c.total_peers)
      × (c.total_peers ≡ count_where (is_peer_of dnn_block position name) t.peers)
      × ((peer_pubkey : Bytes)
          → count_where (is_peer_key dnn_block position name peer_pubkey) t.peers ≤ 1)
unfolding get_peer_consensus
get_peer_consensus-Reached {t} fails cf b q n c r e =
    let table = Reached-IsTable r in
    let mine = is_peer_of b q n in
    let (_, _, e1) = bind_ok (fail_if fails statement_failed) _ c e in
    let found : PeerConsensus = record {
      allow_count = count_where (λ m. mine m && is_marked (codes "allow") m) t.peers;
      neutral_count = count_where (λ m. mine m && is_marked (codes "neutral") m) t.peers;
      block_count = count_where (λ m. mine m && is_marked (codes "block") m) t.peers;
      total_peers = count_where mine t.peers;
      categories = if cf then [] else category_counts mine t.peers;
    } in
    let same : found ≡ c = cc in
    (
      subst (λ x. x.allow_count + x.neutral_count + x.block_count ≡ x.total_peers) same
          (count_kinds mine t.peers table.known),
      subst (λ x. x.total_peers ≡ count_where mine t.peers) same refl,
      λ pk. table.single b q n pk,
    )

-- A block mark that the operator has put on an ID, without a name, blocks every name of the ID,
-- whatever marks the names have, where the first query of IsBlocked does not fail.
pub is_blocked-add_local_mark :
    (fails name_fails : Bool) (m : LocalMark) (name : Bytes) (t t' : Tables)
    → m.name ≡ []
    → m.mark ≡ codes "block"
    → add_local_mark fails m t ≡ ok t'
    → is_blocked false name_fails m.dnn_block m.position name t' ≡ ok true
unfolding is_blocked add_local_mark select_row
is_blocked-add_local_mark fails name_fails m name t t' h k e =
    let (_, _, e1) = bind_ok (fail_if (not (is_mark m.mark)) invalid_mark) _ t' e in
    let (_, _, e2) = bind_ok (fail_if (not (is_category m.category)) invalid_category) _ t' e1 in
    let (_, _, e3) = bind_ok (fail_if fails statement_failed) _ t' e2 in
    let same : record t { local = replace_local m t.local } ≡ t' = cc in
    rw (sym same) (rw (eqb_ℤ_refl m.dnn_block, eqb_ℤ_refl m.position, h) (rw k refl))
