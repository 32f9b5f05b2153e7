-- ===== src/Chain.antt =====
-- internal/bitcoin/client.go: a block and its transactions, as far as the node reads them.
use dnn_node.Base.{List}
use dnn_node.Base.Bytes.{Bytes}
use dnn_node.Base.Int.{ℤ}

pub record TxInput : Type 0 where
  pub address : Bytes

pub record ScriptPubKey : Type 0 where
  pub script_type : Bytes
  pub addresses : List Bytes
  pub address : Bytes

pub record TxOutput : Type 0 where
  pub script_pub_key : ScriptPubKey

pub record Transaction : Type 0 where
  pub tx_id : Bytes
  pub inputs : List TxInput
  pub outputs : List TxOutput

pub record Block : Type 0 where
  pub hash : Bytes
  pub height : ℤ
  pub time : ℤ
  pub transactions : List Transaction
