-- ===== src/Resolver/Record.antt =====
-- The records of internal/resolver/resolver.go, and `AnchorRecord` of internal/database/database.go
-- with the fields that the resolver reads.
use dnn_node.Base.{List, Option}
use dnn_node.Base.Bytes.{Bytes}
use dnn_node.Base.Int.{ℤ}
use dnn_node.Nostr.{Props}

pub record AnchorRecord : Type 0 where
  pub pubkey : Bytes
  pub created_at : ℤ
  pub bitcoin_block : ℤ
  pub dnn_block : ℤ
  pub position : ℤ
  pub name : Bytes
  pub connection_content : Bytes
  pub metadata_content : Bytes

-- A map of metadata that is not there is `none`.
pub record ResolutionResult : Type 0 where
  pub name : Bytes
  pub pubkey : Bytes
  pub dnn_block : ℤ
  pub bitcoin_block : ℤ
  pub position : ℤ
  pub connection : Props
  pub metadata : Option Props
  pub encoded_notation : Bytes
  pub alternate_notations : List Bytes
  pub created_at : ℤ
