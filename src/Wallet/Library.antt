-- ===== src/Wallet/Library.antt =====
-- What src/wallet uses of the wallet library, of the node and of the file system, none of which is
-- under src/. A call of the library ends, with an error or a value.
use mwc.Prelude.{ℕ, Bool, List, Option, ◌⊎◌, Bytes}
use mwc.ErrorKind.{Error}
use mwc.Effects.{Call}
use mwc.Paths.{PathBuf}
use mwc.Proof.Evidence.{TxProof}
use mwc.Wallet.Ledger.{TxLogEntry}

pub record AcctPathMapping : Type 0 where
  pub label : Bytes
  pub path : Bytes

-- The fields that the code fills in; the others are `None` in all its calls.
pub record InitTxArgs : Type 0 where
  pub src_acct_name : Option Bytes
  pub amount : ℕ
  pub minimum_confirmations : ℕ
  pub max_outputs : ℕ
  pub num_change_outputs : ℕ
  pub selection_strategy_is_use_all : Bool
  pub message : Option Bytes
  pub target_slate_version : Option ℕ
  pub address : Option Bytes

pub record IssueInvoiceTxArgs : Type 0 where
  pub dest_acct_name : Option Bytes
  pub amount : ℕ
  pub message : Option Bytes
  pub target_slate_version : Option ℕ
  pub address : Option Bytes

pub record Context : Type 0 where
  pub amount : ℕ
  pub fee : ℕ
  pub input_commits : List Bytes
  pub output_commits : List Bytes

pub record Library (Slate Signature : Type 0) : Type 1 where
  pub State : Type 0
  pub Transaction : Type 0
  pub Output : Type 0
  pub WalletInfo : Type 0
  pub Seed : Type 0
  -- A slate's fields, its lists by their lengths.
  pub amount : Slate → ℕ
  pub num_participants : Slate → ℕ
  pub participant_data : Slate → ℕ
  pub inputs : Slate → ℕ
  pub tx : Slate → Transaction
  pub id : Slate → Bytes
  pub verify_messages : Slate → Error ⊎ (Unit {0})
  pub ser_vec : Transaction → Option Bytes
  pub height : Output → ℕ
  -- The wallet behind the mutex.
  pub wallet_inst : Call State (Unit {0})
  pub parent_key_id : State → Bytes
  pub get_data_file_dir : State → Bytes
  pub accounts : Call State (List AcctPathMapping)
  pub new_acct_path : Bytes → Call State Bytes
  pub rename_acct_path : List AcctPathMapping → Bytes → Bytes → Call State (Unit {0})
  pub retrieve_txs :
      Option ℕ → Option Bytes → Option Bytes → Option ℕ → Option ℕ → Call State (List TxLogEntry)
  pub retrieve_outputs :
      Bool → Option TxLogEntry → Bytes → Option ℕ → Option ℕ → Call State (List Output)
  pub init_send_tx : InitTxArgs → Option (List Bytes) → ℕ → Call State Slate
  pub process_invoice_tx : Slate → InitTxArgs → Call State Slate
  pub issue_invoice_tx : IssueInvoiceTxArgs → ℕ → Call State Slate
  -- The slate, the address, the key, the amounts of the outputs, the account and the message.
  pub receive_tx :
      Slate
      → Option Bytes
      → Option Bytes
      → Option (List ℕ)
      → Option Bytes
      → Option Bytes
      → Call State Slate
  pub tx_lock_outputs : Slate → Option Bytes → ℕ → Call State (Unit {0})
  pub finalize_tx : Slate → Call State (Slate × Context)
  pub finalize_invoice_tx : Slate → Call State Slate
  pub get_stored_tx_by_uuid : Bytes → Call State Transaction
  pub get_chain_tip : Call State (ℕ × Bytes × ℕ)
  pub last_confirmed_height : Call State ℕ
  pub save_last_scanned_blocks : ℕ → List (ℕ × Bytes) → Call State (Unit {0})
  -- Calls that are given the mutex, and take it themselves.
  pub update_wallet_state : Call State Bool
  pub cancel_tx : Option ℕ → Option Bytes → Call State (Unit {0})
  pub scan : ℕ → Bool → Call State (Unit {0})
  pub dump_wallet_data : Option Bytes → Call State (Unit {0})
  pub retrieve_summary_info : Bool → ℕ → Call State (Bool × WalletInfo)
  pub start_updater_console_thread : Call State (Unit {0})
  -- The node.
  pub post_tx : Bytes → Bool → Call State (Unit {0})
  -- The life of a wallet.
  pub seed_file_exists : State → PathBuf → Error ⊎ Bool
  pub seed_from_file : PathBuf → Bytes → Call State Seed
  pub init_file_impl : PathBuf → Bytes → Bool → Bool → Option Seed → Call State Seed
  pub recover_from_phrase : PathBuf → Bytes → Bytes → Call State (Unit {0})
  pub new_wallet : Bytes → Option Bytes → Call State (Unit {0})
  pub lc_provider : Call State (Unit {0})
  pub set_top_level_directory : PathBuf → Call State (Unit {0})
  pub open_wallet : Bytes → Bytes → Call State (Unit {0})
  pub close_wallet : Call State (Unit {0})
  pub set_parent_key_id_by_name : Bytes → Call State (Unit {0})
  -- The thread of the updater, by its period in seconds.
  pub spawn_updater : ℕ → Call State (Unit {0})
  pub join_updater : Call State (Unit {0})
  -- Files.
  pub create_dir_all : PathBuf → Call State (Unit {0})
  pub file_exists : State → PathBuf → Bool
  pub read_file : PathBuf → Call State Bytes
  pub write_file : PathBuf → Bytes → Call State (Unit {0})
  pub proof_to_string : TxProof Signature → Error ⊎ Bytes
  pub proof_from_str : Bytes → Error ⊎ TxProof Signature
