-- ===== src/Wallet/Session/Methods.antt =====
-- The methods of `Wallet` that the console calls (src/wallet/wallet.rs).
use mwc.Prelude.{
  ℕ, Bool, true, false, List, [], ◌∷◌, Option, none, some, Bytes, bytes_eq, codes, length, ltb,
  ok_or, if◌then◌else◌,
}
use mwc.ErrorKind.{
  kind, generic_error, does_not_accept_invoices, invoice_amount_too_big, grin_wallet_receive_error,
  grin_wallet_post_error, grin_wallet_verify_slate_messages_error, grin_wallet_finalize_error,
}
use mwc.Effects.{Action, pure, fail, gets, lift, map_err, ◌>>=◌, ◌>>◌}
use mwc.Proof.Evidence.{TxProof}
use mwc.Wallet.Ledger.{TxLogEntry}
use mwc.Wallet.Library.{Library, AcctPathMapping}
use mwc.Wallet.Session.{World, calling, wallet_lock, get_wallet_instance, with_instance, set_slate}
use mwc.Wallet.Session.Queries
use mwc.Wallet.Session.Transactions

-- Whether the loop over the accounts finds the label.
abbrev pub has_label : Bool → List AcctPathMapping → Bytes → Bool
has_label ret [] account = ret
has_label ret (m ∷ ms) account =
    has_label (if bytes_eq m.label account then true else ret) ms account

-- The slate's id of the first transaction; an id that is not there is an error, and so is an empty
-- log.
abbrev pub first_slate : List TxLogEntry → Option Bytes
first_slate [] = none
first_slate (t ∷ txs) = t.tx_slate_id

module _ {Slate Signature : Type 0} {b : Library Slate Signature} where
  open b use {Transaction, Output, WalletInfo, amount, tx}

  unfoldable pub account_exists : Bytes → Action (World b) Bool
  unfolding Queries.accounts
  account_exists account = do
    get_wallet_instance
    acct_mappings ← Queries.accounts
    pure (has_label false acct_mappings account)

  unfoldable pub update_tip_as_last_scanned : Action (World b) (Unit {0})
  update_tip_as_last_scanned = do
    get_wallet_instance
    wallet_lock (do
      tip ← calling b.get_chain_tip
      calling (b.save_last_scanned_blocks 0 ((tip.0, tip.1) ∷ [])))

  abbrev pub rename_account : Bytes → Bytes → Action (World b) (Unit {0})
  rename_account old_name new_name = with_instance (Queries.rename_account_path old_name new_name)

  abbrev pub create_account : Bytes → Action (World b) (Unit {0})
  create_account name = do get_wallet_instance; path ← Queries.create_account_path name; pure tt

  unfoldable pub get_id : Bytes → Action (World b) ℕ
  unfolding Queries.node_height Queries.retrieve_tx_id_by_slate_id
  get_id slate_id = do
    get_wallet_instance
    height ← Queries.node_height
    Queries.retrieve_tx_id_by_slate_id slate_id

  unfoldable pub txs_count : Action (World b) ℕ
  unfolding Queries.retrieve_txs_with_proof_flag
  txs_count = do
    get_wallet_instance
    txs ← Queries.retrieve_txs_with_proof_flag false none none none none
    pure (length txs.1)

  unfoldable pub all_output_count : Bool → Action (World b) ℕ
  unfolding Queries.retrieve_outputs
  all_output_count show_spent = do
    get_wallet_instance
    outputs ← Queries.retrieve_outputs show_spent false none none none
    pure (length outputs.1)

  -- `initiate_send_tx`, for the name of the account that is active.
  unfoldable pub initiate_send_tx :
      Option Bytes
      → ℕ
      → ℕ
      → Bytes
      → ℕ
      → ℕ
      → Option Bytes
      → Option (List Bytes)
      → Option ℕ
      → ℕ
      → Action (World b) Slate
  unfolding Transactions.initiate_tx
  initiate_send_tx address amount minimum_confirmations selection_strategy change_outputs
        max_outputs message outputs version routputs =
      do
        get_wallet_instance
        account ← gets (λ w. w.wallet.active_account)
        Transactions.initiate_tx (some account) address amount minimum_confirmations max_outputs
            change_outputs (bytes_eq selection_strategy (codes "all")) message outputs version
            routputs

  unfoldable pub initiate_receive_tx : Option Bytes → ℕ → ℕ → Action (World b) Slate
  unfolding Transactions.initiate_receive_tx
  initiate_receive_tx address amount num_outputs = do
    get_wallet_instance
    account ← gets (λ w. w.wallet.active_account)
    Transactions.initiate_receive_tx address (some account) amount num_outputs none

  abbrev pub repost_stored : Bool → Option Bytes → Action (World b) (Unit {0})
  repost_stored fluff none = fail (kind (generic_error (codes "no transaction data stored for id")))
  repost_stored fluff (some slate_id) = do
    stored_tx ← Queries.get_stored_tx slate_id
    Transactions.post_tx stored_tx fluff

  -- `repost`; the texts of the errors are cut before the id.
  unfoldable pub repost : ℕ → Bool → Action (World b) (Unit {0})
  unfolding Queries.retrieve_txs
  repost id fluff = do
    get_wallet_instance
    txs ← Queries.retrieve_txs true (some id) none
    elim txs.1 [
      | [] ↦ fail (kind (generic_error (codes "could not find transaction with id")))
      | t ∷ ts ↦ repost_stored fluff t.tx_slate_id
    ]

  abbrev pub cancel : ℕ → Action (World b) (Unit {0})
  cancel id = with_instance (Transactions.cancel_tx (some id) none)

  abbrev pub restore_state : Action (World b) (Unit {0})
  restore_state = with_instance Transactions.restore

  abbrev pub check_repair : ℕ → Bool → Action (World b) (Unit {0})
  check_repair start_height delete_unconfirmed =
      with_instance (Transactions.check_repair start_height delete_unconfirmed)

  abbrev pub sync : Action (World b) Bool
  sync = with_instance (Queries.sync true)

  abbrev pub dump_wallet_data : Option Bytes → Action (World b) (Unit {0})
  dump_wallet_data file_name = with_instance (Transactions.dump_wallet_data file_name)

  unfoldable pub process_sender_initiated_slate :
      Option Bytes → Option Bytes → Option (List ℕ) → Option Bytes → Action (World b) (Unit {0})
  unfolding Transactions.receive_tx
  process_sender_initiated_slate address key_id output_amounts dest_acct_name = do
    get_wallet_instance
    s ←
        map_err (Transactions.receive_tx address none key_id output_amounts dest_acct_name)
          (kind grin_wallet_receive_error)
    set_slate s

  abbrev pub pay_invoice : Option Bytes → Action (World b) (Unit {0})
  pay_invoice address = do
    get_wallet_instance
    account ← gets (λ w. w.wallet.active_account)
    paid ← Transactions.invoice_tx (some account) address 10 500 1 false none
    set_slate paid
    get_wallet_instance
    slate ← gets (λ w. w.slate)
    Transactions.tx_lock_outputs slate address 1

  -- `process_receiver_initiated_slate`: an invoice, accepted up to the limit only.
  unfoldable pub process_receiver_initiated_slate : Option Bytes → Action (World b) (Unit {0})
  process_receiver_initiated_slate address = do
    max_auto_accept_invoice ← gets (λ w. w.wallet.max_auto_accept_invoice)
    limit ← lift (ok_or max_auto_accept_invoice (kind does_not_accept_invoices))
    slate ← gets (λ w. w.slate)
    if ltb limit (amount slate)
        then fail (kind (invoice_amount_too_big (amount slate)))
        else pay_invoice address

  abbrev pub tx_lock_outputs : Slate → Option Bytes → ℕ → Action (World b) (Unit {0})
  tx_lock_outputs slate address participant_id =
      with_instance (Transactions.tx_lock_outputs slate address participant_id)

  abbrev pub submit : Transaction → Action (World b) (Unit {0})
  submit txn =
      with_instance (map_err (Transactions.post_tx txn false) (kind grin_wallet_post_error))

  -- Posting what has just been finalised.
  abbrev pub post_finalized : Bool → Action (World b) (Unit {0})
  post_finalized should_post =
      if should_post
      then (do
        slate ← gets (λ w. w.slate)
        map_err (Transactions.post_tx (tx slate) false) (kind grin_wallet_post_error))
      else pure tt

  -- The slate of the call, with its messages verified.
  abbrev pub verified_slate : Action (World b) (Unit {0})
  verified_slate = do
    get_wallet_instance
    slate ← gets (λ w. w.slate)
    map_err (Transactions.verify_slate_messages slate)
        (kind grin_wallet_verify_slate_messages_error)

  unfoldable pub finalize_slate : Action (World b) (Unit {0})
  unfolding Transactions.finalize_tx Transactions.post_tx Transactions.verify_slate_messages
  finalize_slate = do
    verified_slate
    should_post ← map_err Transactions.finalize_tx (kind grin_wallet_finalize_error)
    post_finalized should_post

  unfoldable pub finalize_invoice_slate : Action (World b) (Unit {0})
  unfolding Transactions.finalize_invoice_tx Transactions.post_tx Transactions.verify_slate_messages
  finalize_invoice_slate = do
    verified_slate
    should_post ← map_err Transactions.finalize_invoice_tx (kind grin_wallet_finalize_error)
    post_finalized should_post

  abbrev pub retrieve_summary_info : Bool → ℕ → Action (World b) WalletInfo
  retrieve_summary_info refresh confirmations = do
    get_wallet_instance
    info ← Queries.retrieve_summary_info refresh confirmations
    pure info.1

  abbrev pub retrieve_outputs :
      Bool → Bool → Option TxLogEntry → Action (World b) (Bool × List Output)
  retrieve_outputs include_spent refresh_from_node tx =
      with_instance (Queries.retrieve_outputs include_spent refresh_from_node tx none none)

  abbrev pub retrieve_txs :
      Bool → Option ℕ → Option Bytes → Action (World b) (Bool × List TxLogEntry)
  retrieve_txs refresh_from_node tx_id tx_slate_id =
      with_instance (Queries.retrieve_txs refresh_from_node tx_id tx_slate_id)

  abbrev pub get_stored_tx : Bytes → Action (World b) Transaction
  get_stored_tx uuid = with_instance (Queries.get_stored_tx uuid)

  abbrev pub post_tx : Transaction → Bool → Action (World b) (Unit {0})
  post_tx tx fluff = with_instance (Transactions.post_tx tx fluff)

  abbrev pub node_height : Action (World b) (ℕ × Bool)
  node_height = with_instance Queries.node_height

  abbrev pub get_tx_proof : ℕ → Action (World b) (TxProof Signature)
  get_tx_proof id = with_instance (Queries.get_stored_tx_proof id)
