-- ===== src/Wallet/Session/Fair/Perform.antt =====
-- What the console asks of an unlocked or a locked wallet (src/wallet/wallet.rs).
use mwc.Prelude.{
  ℕ, Bool, true, false, List, [], ◌∷◌, Option, none, some, Bytes, bytes_eq, codes, length,
}
use mwc.ErrorKind.{kind, grin_wallet_post_error}
use mwc.Effects.{Action, pure, ◌>>=◌}
use mwc.Effects.Steady.{pure-Steady, map_err-Steady}
use mwc.Wallet.Ledger.{TxLogEntry}
use mwc.Wallet.Library.{Library}
use mwc.Wallet.Session.{World}
use mwc.Wallet.Session.Free.{
  Free, the_wallet, Fair, calling-Inner, wallet_lock-Fair, with_instance-Fair,
}
use mwc.Wallet.Session.Fair.{
  queried, in_turn, accounts-Fair, create_account_path-Fair, rename_account_path-Fair,
  retrieve_tx_id_by_slate_id-Fair, sync-Fair, retrieve_outputs-Fair, retrieve_txs-Fair,
  retrieve_txs_with_proof_flag-Fair, retrieve_summary_info-Fair, get_stored_tx-Fair,
  node_height-Fair, get_stored_tx_proof-Fair,
}
use mwc.Wallet.Session.Fair.Changes.{
  initiate_tx-Fair, initiate_receive_tx-Fair, tx_lock_outputs-Fair, cancel_tx-Fair, post_tx-Fair,
  check_repair-Fair, restore-Fair, dump_wallet_data-Fair,
}
use mwc.Wallet.Session.Fair.Methods.{
  mapped-Fair, account_of-Fair, process_sender_initiated_slate-Fair,
  process_receiver_initiated_slate-Fair, finalize_slate-Fair, finalize_invoice_slate-Fair,
}
use mwc.Wallet.Session.Methods

module _ {Slate Signature : Type 0} (b : Library Slate Signature) where
  open b use {Transaction}

  -- A method's call, but for a `repost` and a refresh of the transaction log.
  pub data Operation : Type 0 where
    account_exists : Bytes → Operation
    update_tip_as_last_scanned : Operation
    rename_account : Bytes → Bytes → Operation
    create_account : Bytes → Operation
    get_id : Bytes → Operation
    txs_count : Operation
    all_output_count : Bool → Operation
    initiate_send_tx :
        Option Bytes
        → ℕ
        → ℕ
        → Bytes
        → ℕ
        → ℕ
        → Option Bytes
        → Option (List Bytes)
        → Option ℕ
        → ℕ
        → Operation
    initiate_receive_tx : Option Bytes → ℕ → ℕ → Operation
    cancel : ℕ → Operation
    restore_state : Operation
    check_repair : ℕ → Bool → Operation
    sync : Operation
    dump_wallet_data : Option Bytes → Operation
    process_sender_initiated_slate :
        Option Bytes → Option Bytes → Option (List ℕ) → Option Bytes → Operation
    process_receiver_initiated_slate : Option Bytes → Operation
    tx_lock_outputs : Slate → Option Bytes → ℕ → Operation
    submit : Transaction → Operation
    finalize_slate : Operation
    finalize_invoice_slate : Operation
    retrieve_summary_info : Bool → ℕ → Operation
    retrieve_outputs : Bool → Bool → Option TxLogEntry → Operation
    retrieve_txs : Option ℕ → Option Bytes → Operation
    get_stored_tx : Bytes → Operation
    post_tx : Transaction → Bool → Operation
    node_height : Operation
    get_tx_proof : ℕ → Operation

  abbrev pub done : {A : Type 0} → Action (World b) A → Action (World b) (Unit {0})
  done m = m >>= λ a. pure tt

  abbrev pub perform : Operation → Action (World b) (Unit {0})
  perform (account_exists name) = done (Methods.account_exists name)
  perform update_tip_as_last_scanned = Methods.update_tip_as_last_scanned
  perform (rename_account old new) = Methods.rename_account old new
  perform (create_account name) = Methods.create_account name
  perform (get_id slate_id) = done (Methods.get_id slate_id)
  perform txs_count = done Methods.txs_count
  perform (all_output_count spent) = done (Methods.all_output_count spent)
  perform
        (initiate_send_tx address amount confirmations strategy change outputs message listed
          version routputs) =
      done (
        Methods.initiate_send_tx address amount confirmations strategy change outputs message listed
          version routputs)
  perform (initiate_receive_tx address amount n) =
      done (Methods.initiate_receive_tx address amount n)
  perform (cancel id) = Methods.cancel id
  perform restore_state = Methods.restore_state
  perform (check_repair height delete) = Methods.check_repair height delete
  perform sync = done Methods.sync
  perform (dump_wallet_data file) = Methods.dump_wallet_data file
  perform (process_sender_initiated_slate address key_id amounts account) =
      Methods.process_sender_initiated_slate address key_id amounts account
  perform (process_receiver_initiated_slate address) =
      Methods.process_receiver_initiated_slate address
  perform (tx_lock_outputs slate address id) = Methods.tx_lock_outputs slate address id
  perform (submit txn) = Methods.submit txn
  perform finalize_slate = Methods.finalize_slate
  perform finalize_invoice_slate = Methods.finalize_invoice_slate
  perform (retrieve_summary_info refresh confirmations) =
      done (Methods.retrieve_summary_info refresh confirmations)
  perform (retrieve_outputs spent refresh t) = done (Methods.retrieve_outputs spent refresh t)
  perform (retrieve_txs id slate_id) = done (Methods.retrieve_txs false id slate_id)
  perform (get_stored_tx uuid) = done (Methods.get_stored_tx uuid)
  perform (post_tx txn fluff) = Methods.post_tx txn fluff
  perform node_height = done Methods.node_height
  perform (get_tx_proof id) = done (Methods.get_tx_proof id)

  done-Fair : {A : Type 0} (m : Action (World b) A) → Fair b m → Fair b (done m)
  done-Fair m s = in_turn b s (λ a. pure-Steady (Free b) (the_wallet b) tt)

  account_exists-Fair : (name : Bytes) → Fair b (Methods.account_exists name)
  unfolding Methods.account_exists
  account_exists-Fair name =
      mapped-Fair b _ (λ ms. Methods.has_label false ms name) (accounts-Fair b)

  update_tip-Fair : Fair b Methods.update_tip_as_last_scanned
  unfolding Methods.update_tip_as_last_scanned
  update_tip-Fair = with_instance-Fair b _ (
      wallet_lock-Fair b _ (
        queried b b.get_chain_tip
          (λ tip. calling-Inner b (b.save_last_scanned_blocks 0 ((tip.0, tip.1) ∷ [])))))

  get_id-Fair : (slate_id : Bytes) → Fair b (Methods.get_id slate_id)
  unfolding Methods.get_id
  get_id-Fair slate_id =
      with_instance-Fair b _
        (in_turn b (node_height-Fair b) (λ h. retrieve_tx_id_by_slate_id-Fair b slate_id))

  txs_count-Fair : Fair b Methods.txs_count
  unfolding Methods.txs_count
  txs_count-Fair =
      mapped-Fair b _ (λ txs. length txs.1)
        (retrieve_txs_with_proof_flag-Fair b false none none none none)

  all_output_count-Fair : (spent : Bool) → Fair b (Methods.all_output_count spent)
  unfolding Methods.all_output_count
  all_output_count-Fair spent =
      mapped-Fair b _ (λ os. length os.1) (retrieve_outputs-Fair b spent false none none none)

  initiate_send_tx-Fair :
      (address : Option Bytes) (amount confirmations : ℕ) (strategy : Bytes) (change outputs : ℕ)
      (message : Option Bytes) (listed : Option (List Bytes)) (version : Option ℕ) (routputs : ℕ)
      → Fair b (
          Methods.initiate_send_tx address amount confirmations strategy change outputs message
            listed version routputs)
  unfolding Methods.initiate_send_tx
  initiate_send_tx-Fair address amount confirmations strategy change outputs message listed version
        routputs =
      with_instance-Fair b _ (
        account_of-Fair b _ (λ account.
          initiate_tx-Fair b (some account) address amount confirmations outputs change
            (bytes_eq strategy (codes "all")) message listed version routputs))

  initiate_receive-Fair :
      (address : Option Bytes) (amount n : ℕ)
      → Fair b (Methods.initiate_receive_tx address amount n)
  unfolding Methods.initiate_receive_tx
  initiate_receive-Fair address amount n = with_instance-Fair b _ (
      account_of-Fair b _
        (λ account. initiate_receive_tx-Fair b address (some account) amount n none))

  -- Whatever the library and the node answer, a call that `Operation` lists and that starts with the
  -- mutex free ends and frees it again, and leaves the active account, the backend and the limit of
  -- invoices as they are. `Operation` does not list the locking and unlocking, nor `repost` and the
  -- retrieval of the transaction log with a refresh, which may wait for ever.
  pub perform-Fair : (o : Operation) → Fair b (perform o)
  perform-Fair (account_exists name) = done-Fair _ (account_exists-Fair name)
  perform-Fair update_tip_as_last_scanned = update_tip-Fair
  perform-Fair (rename_account old new) =
      with_instance-Fair b _ (rename_account_path-Fair b old new)
  perform-Fair (create_account name) =
      mapped-Fair b _ (λ path. tt) (create_account_path-Fair b name)
  perform-Fair (get_id slate_id) = done-Fair _ (get_id-Fair slate_id)
  perform-Fair txs_count = done-Fair _ txs_count-Fair
  perform-Fair (all_output_count spent) = done-Fair _ (all_output_count-Fair spent)
  perform-Fair
        (initiate_send_tx address amount confirmations strategy change outputs message listed
          version routputs) =
      done-Fair _ (
        initiate_send_tx-Fair address amount confirmations strategy change outputs message listed
          version routputs)
  perform-Fair (initiate_receive_tx address amount n) =
      done-Fair _ (initiate_receive-Fair address amount n)
  perform-Fair (cancel id) = with_instance-Fair b _ (cancel_tx-Fair b (some id) none)
  perform-Fair restore_state = with_instance-Fair b _ (restore-Fair b)
  perform-Fair (check_repair height delete) =
      with_instance-Fair b _ (check_repair-Fair b height delete)
  perform-Fair sync = done-Fair _ (with_instance-Fair b _ (sync-Fair b true))
  perform-Fair (dump_wallet_data file) = with_instance-Fair b _ (dump_wallet_data-Fair b file)
  perform-Fair (process_sender_initiated_slate address key_id amounts account) =
      process_sender_initiated_slate-Fair b address key_id amounts account
  perform-Fair (process_receiver_initiated_slate address) =
      process_receiver_initiated_slate-Fair b address
  perform-Fair (tx_lock_outputs slate address id) =
      with_instance-Fair b _ (tx_lock_outputs-Fair b slate address id)
  perform-Fair (submit txn) = with_instance-Fair b _ (
      map_err-Steady (Free b) (the_wallet b) _ (kind grin_wallet_post_error)
        (post_tx-Fair b txn false))
  perform-Fair finalize_slate = finalize_slate-Fair b
  perform-Fair finalize_invoice_slate = finalize_invoice_slate-Fair b
  perform-Fair (retrieve_summary_info refresh confirmations) =
      done-Fair _
        (mapped-Fair b _ (λ info. info.1) (retrieve_summary_info-Fair b refresh confirmations))
  perform-Fair (retrieve_outputs spent refresh t) =
      done-Fair _ (with_instance-Fair b _ (retrieve_outputs-Fair b spent refresh t none none))
  perform-Fair (retrieve_txs id slate_id) =
      done-Fair _ (with_instance-Fair b _ (retrieve_txs-Fair b id slate_id))
  perform-Fair (get_stored_tx uuid) =
      done-Fair _ (with_instance-Fair b _ (get_stored_tx-Fair b uuid))
  perform-Fair (post_tx txn fluff) = with_instance-Fair b _ (post_tx-Fair b txn fluff)
  perform-Fair node_height = done-Fair _ (with_instance-Fair b _ (node_height-Fair b))
  perform-Fair (get_tx_proof id) =
      done-Fair _ (with_instance-Fair b _ (get_stored_tx_proof-Fair b id))
