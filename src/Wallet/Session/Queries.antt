-- ===== src/Wallet/Session/Queries.antt =====
-- The operations of src/wallet/api/api.rs that read the wallet and the node.
use mwc.Prelude.{
  ℕ, max, Bool, true, false, List, [], ◌∷◌, Option, none, some, Bytes, if◌then◌else◌, map,
}
use mwc.ErrorKind.{kind, transaction_has_no_proof}
use mwc.Effects.{Action, pure, fail, try, ◌>>=◌, ◌>>◌}
use mwc.Proof.Evidence.{TxProof}
use mwc.Wallet.Ledger.{TxLogEntry}
use mwc.Wallet.Library.{Library, AcctPathMapping}
use mwc.Wallet.Session.{World, calling, reading, wallet_lock, sharing}
use mwc.Wallet.Session.Proofs

-- The id that the loop over the entries leaves.
abbrev pub last_id : ℕ → List TxLogEntry → ℕ
last_id ret [] = ret
last_id ret (t ∷ txs) = last_id t.id txs

-- `max` of an iterator
abbrev pub highest : List ℕ → Option ℕ
highest [] = none
highest (n ∷ ns) = some (elim (highest ns) [ none ↦ n | some m ↦ max n m ])

abbrev pub or_zero : Option ℕ → ℕ
or_zero none = 0
or_zero (some n) = n

-- The one transaction that a proof is asked for, and its slate's id.
abbrev pub slate_of : List TxLogEntry → Option Bytes
slate_of [] = none
slate_of (t ∷ []) = t.tx_slate_id
slate_of (t ∷ u ∷ txs) = none

module _ {Slate Signature : Type 0} {b : Library Slate Signature} where
  open b use {Output, WalletInfo, Transaction, height}

  unfoldable pub accounts : Action (World b) (List AcctPathMapping)
  accounts = wallet_lock (calling b.accounts)

  unfoldable pub create_account_path : Bytes → Action (World b) Bytes
  create_account_path label = wallet_lock (calling (b.new_acct_path label))

  unfoldable pub rename_account_path : Bytes → Bytes → Action (World b) (Unit {0})
  unfolding accounts
  rename_account_path old_label new_label = do
    accts ← accounts
    wallet_lock (calling (b.rename_acct_path accts old_label new_label))

  unfoldable pub retrieve_tx_id_by_slate_id : Bytes → Action (World b) ℕ
  retrieve_tx_id_by_slate_id slate_id = wallet_lock (do
    txs ← calling (b.retrieve_txs none (some slate_id) none none none)
    pure (last_id 1000000000 txs))

  -- `sync`; the thread that prints the progress is started before the mutex is taken.
  unfoldable pub sync : Bool → Action (World b) Bool
  sync print_progress = do
    (if print_progress then calling b.start_updater_console_thread else pure tt)
    sharing b.update_wallet_state

  abbrev pub refreshed : Bool → Action (World b) Bool
  refreshed refresh_from_node = if refresh_from_node then sync true else pure false

  unfoldable pub retrieve_outputs :
      Bool → Bool → Option TxLogEntry → Option ℕ → Option ℕ → Action (World b) (Bool × List Output)
  unfolding sync
  retrieve_outputs include_spent refresh_from_node tx pagination_start pagination_len = do
    validated ← refreshed refresh_from_node
    wallet_lock (do
      parent_key_id ← reading b.parent_key_id
      outputs ←
          calling
            (b.retrieve_outputs include_spent tx parent_key_id pagination_start pagination_len)
      pure (validated, outputs))

  -- `retrieve_txs`: the refresh is made under the mutex.
  unfoldable pub retrieve_txs :
      Bool → Option ℕ → Option Bytes → Action (World b) (Bool × List TxLogEntry)
  unfolding sync
  retrieve_txs refresh_from_node tx_id tx_slate_id = wallet_lock (do
    parent_key_id ← reading b.parent_key_id
    validated ← refreshed refresh_from_node
    txs ← calling (b.retrieve_txs tx_id tx_slate_id (some parent_key_id) none none)
    pure (validated, txs))

  abbrev pub flag_of : Option Bytes → Action (World b) Bool
  flag_of none = pure false
  flag_of (some i) = do
    data_file_dir ← reading b.get_data_file_dir
    Proofs.has_stored_tx_proof data_file_dir i

  -- Whether a transaction has a stored proof.
  abbrev pub proof_flag : TxLogEntry → Action (World b) Bool
  proof_flag t = flag_of t.tx_slate_id

  abbrev pub proof_flags : List TxLogEntry → Action (World b) (List (TxLogEntry × Bool))
  proof_flags [] = pure []
  proof_flags (t ∷ txs) = do flag ← proof_flag t; flags ← proof_flags txs; pure ((t, flag) ∷ flags)

  unfoldable pub retrieve_txs_with_proof_flag :
      Bool
      → Option ℕ
      → Option Bytes
      → Option ℕ
      → Option ℕ
      → Action (World b) (Bool × List (TxLogEntry × Bool))
  unfolding sync
  retrieve_txs_with_proof_flag refresh_from_node tx_id tx_slate_id start len = do
    validated ← refreshed refresh_from_node
    wallet_lock (do
      parent_key_id ← reading b.parent_key_id
      txs ← calling (b.retrieve_txs tx_id tx_slate_id (some parent_key_id) start len)
      flags ← proof_flags txs
      pure (validated, flags))

  unfoldable pub retrieve_summary_info : Bool → ℕ → Action (World b) (Bool × WalletInfo)
  retrieve_summary_info refresh_from_node minimum_confirmations = do
    calling b.start_updater_console_thread
    sharing (b.retrieve_summary_info refresh_from_node minimum_confirmations)

  unfoldable pub get_stored_tx : Bytes → Action (World b) Transaction
  get_stored_tx uuid = wallet_lock (calling (b.get_stored_tx_by_uuid uuid))

  -- The height of the wallet's outputs, where the node does not answer.
  abbrev pub output_height : Action (World b) (ℕ × Bool)
  output_height = do
    outputs ← retrieve_outputs true false none none none
    pure (or_zero (highest (map height outputs.1)), false)

  abbrev pub height_of : Option (ℕ × Bytes × ℕ) → Action (World b) (ℕ × Bool)
  height_of none = output_height
  height_of (some tip) = pure (tip.0, true)

  unfoldable pub node_height : Action (World b) (ℕ × Bool)
  unfolding retrieve_outputs
  node_height = do res ← wallet_lock (try (calling b.get_chain_tip)); height_of res

  abbrev pub proof_of : Bytes → Option Bytes → Action (World b) (TxProof Signature)
  proof_of data_file_dir none = fail (kind transaction_has_no_proof)
  proof_of data_file_dir (some uuid) = Proofs.get_stored_tx_proof data_file_dir uuid

  unfoldable pub get_stored_tx_proof : ℕ → Action (World b) (TxProof Signature)
  unfolding Proofs.get_stored_tx_proof
  get_stored_tx_proof id = wallet_lock (do
    parent_key_id ← reading b.parent_key_id
    txs ← calling (b.retrieve_txs (some id) none (some parent_key_id) none none)
    data_file_dir ← reading b.get_data_file_dir
    proof_of data_file_dir (slate_of txs))
