-- ===== src/Wallet/Ledger.antt =====
-- The outputs and the transaction log that the operations of src/wallet/api/api.rs read: the fields
-- that the code uses of the wallet library's records.
use mwc.Prelude.{ℕ, Bool, Option, Bytes, ◌==◌}

pub data TxType : Type 0 where
  confirmed_coinbase tx_received tx_sent tx_received_cancelled tx_sent_cancelled : TxType

-- The types are told apart by their numbers.
abbrev pub tag : TxType → ℕ
tag confirmed_coinbase = 0
tag tx_received = 1
tag tx_sent = 2
tag tx_received_cancelled = 3
tag tx_sent_cancelled = 4

abbrev pub is_type : TxType → TxType → Bool
is_type a b = tag a == tag b

pub record OutputData : Type 0 where
  pub root_key_id : Bytes
  pub value : ℕ
  pub n_child : ℕ
  pub commit : Option Bytes
  pub tx_log_entry : Option ℕ

pub record TxLogEntry : Type 0 where
  pub parent_key_id : Bytes
  pub id : ℕ
  pub tx_type : TxType
  pub num_outputs : ℕ
  pub amount_credited : ℕ
  pub tx_slate_id : Option Bytes
  pub kernel_excess : Option Bytes
