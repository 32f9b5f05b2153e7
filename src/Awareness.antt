-- ===== src/Awareness.antt =====
-- internal/database/queries.go: the marks of the operator and of the peers on DNN IDs, as tables of
-- rows. A call's SQL statement can fail, which an argument says; times are left out.
pub mod Marks
pub mod Peers
pub mod Import
mod Tests
use dnn_node.Base.{
  ℕ, suc, ◌+◌, Bool, true, false, not, ◌&&◌, ◌||◌, List, [], ◌∷◌, ◌++◌, Option, none, some, Result,
  ok, err, panic, ◌>>=◌, ◌>>◌, fail_if, ◌==◌, if◌then◌else◌, is_nil, length, any,
}
use dnn_node.Base.Bytes.{Bytes, codes, bytes_eq, split, join}
use dnn_node.Base.Dict.{Dict, lookup, insert}
use dnn_node.Base.Int.{ℤ, eqb_ℤ}

pub record LocalMark : Type 0 where
  pub dnn_block : ℤ
  pub position : ℤ
  pub name : Bytes
  pub mark : Bytes
  pub category : Bytes
  pub reason : Bytes

pub record PeerMark : Type 0 where
  pub dnn_block : ℤ
  pub position : ℤ
  pub name : Bytes
  pub peer_pubkey : Bytes
  pub mark : Bytes
  pub category : Bytes
  pub reason : Bytes

pub record Tables : Type 0 where
  pub local : List LocalMark
  pub peers : List PeerMark

pub data MarkError : Type 0 where
  invalid_mark invalid_category statement_failed : MarkError

abbrev pub mark_names : List Bytes
mark_names = codes "allow" ∷ codes "neutral" ∷ codes "block" ∷ []

abbrev pub is_mark : Bytes → Bool
is_mark mark = any (bytes_eq mark) mark_names

abbrev pub category_names : List Bytes
category_names =
    codes ""
    ∷ codes "malware"
    ∷ codes "phishing"
    ∷ codes "scam"
    ∷ codes "adult"
    ∷ codes "other"
    ∷ []

abbrev pub is_category : Bytes → Bool
is_category category = any (bytes_eq category) category_names

-- `DELETE … WHERE`
unfoldable pub delete_where : {A : Type 0} → (A → Bool) → List A → List A
delete_where p [] = []
delete_where p (row ∷ rows) = if p row then delete_where p rows else row ∷ delete_where p rows

-- The first row, of one at most where the columns are the key.
unfoldable pub select_row : {A : Type 0} → (A → Bool) → List A → Option A
select_row p [] = none
select_row p (row ∷ rows) = if p row then some row else select_row p rows

-- `SELECT COUNT(*) … WHERE`
unfoldable pub count_where : {A : Type 0} → (A → Bool) → List A → ℕ
count_where p [] = 0
count_where p (row ∷ rows) = if p row then suc (count_where p rows) else count_where p rows

-- `dnn_block = ? AND position = ? AND name = ?`
abbrev pub is_local_of : ℤ → ℤ → Bytes → LocalMark → Bool
is_local_of dnn_block position name m =
    eqb_ℤ m.dnn_block dnn_block && (eqb_ℤ m.position position && bytes_eq m.name name)

abbrev pub is_peer_of : ℤ → ℤ → Bytes → PeerMark → Bool
is_peer_of dnn_block position name m =
    eqb_ℤ m.dnn_block dnn_block && (eqb_ℤ m.position position && bytes_eq m.name name)

-- The primary key of the peers' table.
abbrev pub is_peer_key : ℤ → ℤ → Bytes → Bytes → PeerMark → Bool
is_peer_key dnn_block position name peer_pubkey m =
    is_peer_of dnn_block position name m && bytes_eq m.peer_pubkey peer_pubkey

-- `INSERT OR REPLACE`
abbrev pub replace_local : LocalMark → List LocalMark → List LocalMark
replace_local m rows = m ∷ delete_where (is_local_of m.dnn_block m.position m.name) rows

abbrev pub replace_peer : PeerMark → List PeerMark → List PeerMark
replace_peer m rows =
    m ∷ delete_where (is_peer_key m.dnn_block m.position m.name m.peer_pubkey) rows

unfoldable pub add_local_mark : Bool → LocalMark → Tables → Result MarkError Tables
unfolding delete_where
add_local_mark fails m tables = do
  fail_if (not (is_mark m.mark)) invalid_mark
  fail_if (not (is_category m.category)) invalid_category
  fail_if fails statement_failed
  ok (record tables { local = replace_local m tables.local })

unfoldable pub delete_local_mark : Bool → ℤ → ℤ → Bytes → Tables → Result MarkError Tables
delete_local_mark fails dnn_block position name tables = do
  fail_if fails statement_failed
  ok (record tables { local = delete_where (is_local_of dnn_block position name) tables.local })

unfoldable pub get_local_mark_by_id :
    Bool → ℤ → ℤ → Bytes → Tables → Result MarkError (Option LocalMark)
get_local_mark_by_id fails dnn_block position name tables = do
  fail_if fails statement_failed
  ok (select_row (is_local_of dnn_block position name) tables.local)

unfoldable pub clear_local_marks : Bool → Tables → Result MarkError Tables
clear_local_marks fails tables = do
  fail_if fails statement_failed
  ok (record tables { local = [] })

-- The category of a peer's mark is not checked.
unfoldable pub add_peer_mark : Bool → PeerMark → Tables → Result MarkError Tables
add_peer_mark fails m tables = do
  fail_if (not (is_mark m.mark)) invalid_mark
  fail_if fails statement_failed
  ok (record tables { peers = replace_peer m tables.peers })

abbrev pub is_from : Bytes → PeerMark → Bool
is_from peer_pubkey m = bytes_eq m.peer_pubkey peer_pubkey

unfoldable pub clear_peer_marks_for_peer : Bool → Bytes → Tables → Result MarkError Tables
clear_peer_marks_for_peer fails peer_pubkey tables = do
  fail_if fails statement_failed
  ok (record tables { peers = delete_where (is_from peer_pubkey) tables.peers })

abbrev pub blocks : Option LocalMark → Bool
blocks none = false
blocks (some m) = bytes_eq m.mark (codes "block")

-- The mark of the name, where no mark of the ID blocks it and there is a name.
abbrev pub name_blocks : Bool → Bool → Bool → Bool → Result MarkError Bool
name_blocks true has_no_name name_fails of_name = ok true
name_blocks false true name_fails of_name = ok false
name_blocks false false name_fails of_name = fail_if name_fails statement_failed >> ok of_name

-- The mark of the ID, and behind it that of the name; each query can fail.
unfoldable pub is_blocked : Bool → Bool → ℤ → ℤ → Bytes → Tables → Result MarkError Bool
unfolding select_row
is_blocked id_fails name_fails dnn_block position name tables = do
  fail_if id_fails statement_failed
  name_blocks (blocks (select_row (is_local_of dnn_block position (codes "")) tables.local))
      (is_nil name) name_fails
      (blocks (select_row (is_local_of dnn_block position name) tables.local))

unfoldable pub is_bad_marked : Bool → Bool → ℤ → ℤ → Tables → Result MarkError Bool
unfolding is_blocked
is_bad_marked id_fails name_fails dnn_block position tables =
    is_blocked id_fails name_fails dnn_block position (codes "") tables

unfoldable pub should_block : Bytes → Bytes → Bytes → Bool
should_block mark category filter_level =
    if bytes_eq mark (codes "block")
    then true
    else if bytes_eq mark (codes "allow")
    then false
    else if bytes_eq mark (codes "neutral")
    then (if bytes_eq filter_level (codes "security")
        then any (bytes_eq category) (codes "malware" ∷ codes "phishing" ∷ codes "scam" ∷ [])
        else bytes_eq filter_level (codes "strict") && not (is_nil category))
    else false

pub record PeerConsensus : Type 0 where
  pub allow_count : ℕ
  pub neutral_count : ℕ
  pub block_count : ℕ
  pub total_peers : ℕ
  pub categories : Dict ℕ

abbrev pub is_marked : Bytes → PeerMark → Bool
is_marked mark m = bytes_eq m.mark mark

abbrev pub count_for : Option ℕ → ℕ
count_for none = 0
count_for (some n) = n

-- `GROUP BY category`, of the block marks with a category.
unfoldable pub category_counts : (PeerMark → Bool) → List PeerMark → Dict ℕ
category_counts p [] = []
category_counts p (m ∷ rows) =
    let counts = category_counts p rows in
    if p m && (is_marked (codes "block") m && not (is_nil m.category))
    then insert m.category (suc (count_for (lookup m.category counts))) counts
    else counts

-- A query for the categories that fails leaves them out.
unfoldable pub get_peer_consensus :
    Bool → Bool → ℤ → ℤ → Bytes → Tables → Result MarkError PeerConsensus
unfolding count_where category_counts
get_peer_consensus fails categories_fail dnn_block position name tables = do
  fail_if fails statement_failed
  let mine = is_peer_of dnn_block position name
  ok (record {
    allow_count = count_where (λ m. mine m && is_marked (codes "allow") m) tables.peers;
    neutral_count = count_where (λ m. mine m && is_marked (codes "neutral") m) tables.peers;
    block_count = count_where (λ m. mine m && is_marked (codes "block") m) tables.peers;
    total_peers = count_where mine tables.peers;
    categories = if categories_fail then [] else category_counts mine tables.peers;
  })
