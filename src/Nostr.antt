-- ===== src/Nostr.antt =====
-- Nostr events as the node sees them (a struct of the package go-nostr), and decoded JSON.
use dnn_node.Base.{ℕ, Bool, false, ◌&&◌, List, ◌∷◌, Option, none, some, ◌==◌, any, if◌then◌else◌}
use dnn_node.Base.Bytes.{Bytes, codes, bytes_eq}
use dnn_node.Base.Int.{ℤ, pos, negsuc}

pub record Event : Type 0 where
  pub id : Bytes
  pub pubkey : Bytes
  pub created_at : ℤ
  pub kind : ℤ
  pub tags : List (List Bytes)
  pub content : Bytes

-- `event.Kind == k`
abbrev pub is_kind : ℕ → ℤ → Bool
is_kind k (pos n) = n == k
is_kind k (negsuc n) = false

-- `len(tag) >= 2 && tag[0] == "t" && tag[1] == "DNN"`
abbrev pub is_dnn_tag : List Bytes → Bool
is_dnn_tag (key ∷ value ∷ rest) = bytes_eq key (codes "t") && bytes_eq value (codes "DNN")
is_dnn_tag _ = false

-- The loop that ends at the first such tag.
abbrev pub has_dnn_tag : List (List Bytes) → Bool
has_dnn_tag = any is_dnn_tag

-- `interface{}` as encoding/json fills it; a number is kept as its text.
mutual
  pub data Json : Type 0 where
    null : Json
    bool : Bool → Json
    num : Bytes → Json
    str : Bytes → Json
    arr : Elems → Json
    obj : Props → Json

  pub data Elems : Type 0 where
    nil : Elems
    cons : Json → Elems → Elems

  pub data Props : Type 0 where
    end : Props
    prop : Bytes → Json → Props → Props

-- `value, ok := m[key]`
abbrev pub lookup_prop : Bytes → Props → Option Json
lookup_prop key end = none
lookup_prop key (prop k v ps) = if bytes_eq k key then some v else lookup_prop key ps
