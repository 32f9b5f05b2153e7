-- ===== src/Awareness/Peers.antt =====
-- internal/sync/syncer.go: `parseDNNAwarenessEvent`, the import of the marks that a peer publishes.
-- `fmt.Sscanf` with "n%d.%d" is a parameter.
use dnn_node.Base.{
  ℕ, suc, Bool, List, [], ◌∷◌, Option, none, some, Result, ok, err, panic, ltb, length,
  if◌then◌else◌,
}
use dnn_node.Base.Bytes.{Bytes, codes, bytes_eq, split, join}
use dnn_node.Base.Int.{ℤ}
use dnn_node.Awareness.{Tables, PeerMark, MarkError, add_peer_mark, clear_peer_marks_for_peer}

-- A DNN ID with the name before it, or none.
pub record MarkedId : Type 0 where
  pub dnn_block : ℤ
  pub position : ℤ
  pub name : Bytes

abbrev pub with_name : Bytes → Option (ℤ × ℤ) → Option MarkedId
with_name name none = none
with_name name (some (block, position)) =
    some (record { dnn_block = block; position = position; name = name })

abbrev pub or_whole : Option MarkedId → Option MarkedId → Option MarkedId
or_whole none whole = whole
or_whole (some id) whole = some id

-- `name.n5.2` has a name, `n5.2` has none.
unfoldable pub parse_dnn_id : (Bytes → Option (ℤ × ℤ)) → Bytes → List Bytes → Option MarkedId
parse_dnn_id scan dnn_id [] = none
parse_dnn_id scan dnn_id (first ∷ []) = none
parse_dnn_id scan dnn_id (first ∷ part ∷ parts) =
    or_whole (with_name first (scan (join (part ∷ parts) b'.')))
      (with_name (codes "") (scan dnn_id))

abbrev pub field_or_empty : List Bytes → Bytes
field_or_empty [] = codes ""
field_or_empty (s ∷ rest) = s

abbrev pub rest_of : List Bytes → List Bytes
rest_of [] = []
rest_of (s ∷ rest) = rest

abbrev pub mark_for : Bytes → Bytes → List Bytes → Option MarkedId → Option PeerMark
mark_for peer_pubkey mark more none = none
mark_for peer_pubkey mark more (some id) = some (record {
  dnn_block = id.dnn_block;
  position = id.position;
  name = id.name;
  peer_pubkey = peer_pubkey;
  mark = mark;
  category = field_or_empty more;
  reason = field_or_empty (rest_of more);
})

-- The mark that a tag of three fields or more gives.
unfoldable pub mark_of_tag : (Bytes → Option (ℤ × ℤ)) → Bytes → List Bytes → Option PeerMark
unfolding parse_dnn_id
mark_of_tag scan peer_pubkey (key ∷ dnn_id ∷ mark ∷ more) =
    if bytes_eq key (codes "dnn")
    then mark_for peer_pubkey mark more (parse_dnn_id scan dnn_id (split dnn_id b'.'))
    else none
mark_of_tag scan peer_pubkey _ = none

abbrev pub keep_or : Tables → Result MarkError Tables → Tables
keep_or before (ok after) = after
keep_or before (err _) = before
keep_or before panic = before

abbrev pub count_if : {A : Type 0} → Result MarkError A → ℕ → ℕ
count_if (ok _) n = suc n
count_if (err _) n = n
count_if panic n = n

abbrev pub add_mark : (PeerMark → Bool) → Option PeerMark → Tables × ℕ → Tables × ℕ
add_mark fails none (tables, n) = (tables, n)
add_mark fails (some m) (tables, n) =
    let result = add_peer_mark (fails m) m tables in (keep_or tables result, count_if result n)

unfoldable pub import_tags :
    (Bytes → Option (ℤ × ℤ))
    → (PeerMark → Bool)
    → Bytes
    → List (List Bytes)
    → Tables × ℕ
    → Tables × ℕ
unfolding mark_of_tag
import_tags scan fails peer_pubkey [] acc = acc
import_tags scan fails peer_pubkey (tag ∷ tags) acc =
    import_tags scan fails peer_pubkey tags (add_mark fails (mark_of_tag scan peer_pubkey tag) acc)

-- Behind the attempt to clear the peer's marks. A failure is logged with eight bytes of the peer's key.
abbrev pub behind_clear :
    (Bytes → Option (ℤ × ℤ))
    → (PeerMark → Bool)
    → Bytes
    → List (List Bytes)
    → Tables
    → Result MarkError Tables
    → Tables × Option ℕ
behind_clear scan fails peer_pubkey tags tables (ok cleared) =
    let imported = import_tags scan fails peer_pubkey tags (cleared, 0) in
    (imported.0, some imported.1)
behind_clear scan fails peer_pubkey tags tables (err _) =
    let imported = import_tags scan fails peer_pubkey tags (tables, 0) in
    if ltb (length peer_pubkey) 8 then (tables, none) else (imported.0, some imported.1)
behind_clear scan fails peer_pubkey tags tables panic = (tables, none)

-- The tables afterwards, and the number of marks stored; `none` is a run-time panic.
unfoldable pub parse_dnn_awareness_event :
    (Bytes → Option (ℤ × ℤ))
    → Bool
    → (PeerMark → Bool)
    → Bytes
    → List (List Bytes)
    → Tables
    → Tables × Option ℕ
unfolding import_tags
parse_dnn_awareness_event scan clear_fails fails peer_pubkey tags tables =
    behind_clear scan fails peer_pubkey tags tables
      (clear_peer_marks_for_peer clear_fails peer_pubkey tables)
