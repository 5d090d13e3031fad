-- ===== src/Wallet/Session/Transactions.antt =====
-- The operations of src/wallet/api/api.rs that make, change and post transactions.
use mwc.Prelude.{ℕ, List, Bool, true, ◌++◌, Option, none, some, Bytes}
use mwc.Codec.Hex.{to_hex}
use mwc.Effects.{Action, result, pure, gets, lift, modify, ◌>>=◌, ◌>>◌}
use mwc.Prelude.{unwrap}
use mwc.Proof.Evidence.{TxProof}
use mwc.Wallet.Library.{Library, InitTxArgs, Context}
use mwc.Wallet.Session.{World, calling, reading, wallet_lock, sharing, set_slate}
use mwc.Wallet.Session.Proofs

-- What a finalised transaction adds to its proof.
abbrev pub filled_in : {S : Type 0} → TxProof S → Context → TxProof S
filled_in proof context = record proof {
  amount = context.amount;
  fee = context.fee;
  inputs = proof.inputs ++ context.input_commits;
  outputs = proof.outputs ++ context.output_commits;
}

-- The arguments of the payment of an invoice, for its amount.
abbrev pub invoice_args :
    Option Bytes → Option Bytes → ℕ → ℕ → ℕ → Bool → Option Bytes → ℕ → InitTxArgs
invoice_args active_account address minimum_confirmations max_outputs num_change_outputs all message
      amount =
    record {
      src_acct_name = active_account;
      amount = amount;
      minimum_confirmations = minimum_confirmations;
      max_outputs = max_outputs;
      num_change_outputs = num_change_outputs;
      selection_strategy_is_use_all = all;
      message = message;
      target_slate_version = none;
      address = address;
    }

module _ {Slate Signature : Type 0} {b : Library Slate Signature} where
  open b use {Transaction, amount, id}

  -- `invoice_tx`, of the slate that is given by reference.
  unfoldable pub invoice_tx :
      Option Bytes → Option Bytes → ℕ → ℕ → ℕ → Bool → Option Bytes → Action (World b) Slate
  invoice_tx active_account address minimum_confirmations max_outputs num_change_outputs all
        message =
      sharing b.update_wallet_state >>= λ _. wallet_lock (do
        slate ← gets (λ w. w.slate)
        calling (
            b.process_invoice_tx slate (
              invoice_args active_account address minimum_confirmations max_outputs
                num_change_outputs all message (amount slate))))

  unfoldable pub initiate_tx :
      Option Bytes
      → Option Bytes
      → ℕ
      → ℕ
      → ℕ
      → ℕ
      → Bool
      → Option Bytes
      → Option (List Bytes)
      → Option ℕ
      → ℕ
      → Action (World b) Slate
  initiate_tx active_account address amount minimum_confirmations max_outputs num_change_outputs all
        message outputs version routputs =
      sharing b.update_wallet_state >>= λ _. wallet_lock (
        calling (
          b.init_send_tx
            (record {
              src_acct_name = active_account;
              amount = amount;
              minimum_confirmations = minimum_confirmations;
              max_outputs = max_outputs;
              num_change_outputs = num_change_outputs;
              selection_strategy_is_use_all = all;
              message = message;
              target_slate_version = version;
              address = address;
            })
            outputs routputs))

  unfoldable pub initiate_receive_tx :
      Option Bytes → Option Bytes → ℕ → ℕ → Option Bytes → Action (World b) Slate
  initiate_receive_tx address active_account amount num_outputs message = wallet_lock (
      calling (
        b.issue_invoice_tx
          (record {
            dest_acct_name = active_account;
            amount = amount;
            message = message;
            target_slate_version = none;
            address = address;
          })
          num_outputs))

  unfoldable pub receive_tx :
      Option Bytes
      → Option Bytes
      → Option Bytes
      → Option (List ℕ)
      → Option Bytes
      → Action (World b) Slate
  receive_tx address message key_id output_amounts dest_acct_name = wallet_lock (do
    slate ← gets (λ w. w.slate)
    calling (b.receive_tx slate address key_id output_amounts dest_acct_name message))

  unfoldable pub tx_lock_outputs : Slate → Option Bytes → ℕ → Action (World b) (Unit {0})
  tx_lock_outputs slate address participant_id =
      wallet_lock (calling (b.tx_lock_outputs slate address participant_id))

  -- The proof that is given by reference is filled in and stored under the slate's id.
  unfoldable pub fill_proof : Context → Option (TxProof Signature) → Action (World b) (Unit {0})
  unfolding Proofs.store_tx_proof
  fill_proof context none = pure tt
  fill_proof context (some proof) = do
    let filled = filled_in proof context
    modify (λ w. record w { tx_proof = some filled })
    data_file_dir ← reading b.get_data_file_dir
    slate ← gets (λ w. w.slate)
    Proofs.store_tx_proof filled data_file_dir (id slate)

  unfoldable pub finalize_tx : Action (World b) Bool
  unfolding fill_proof
  finalize_tx = wallet_lock (do
    slate ← gets (λ w. w.slate)
    (slate_res, context) ← calling (b.finalize_tx slate)
    set_slate slate_res
    proof ← gets (λ w. w.tx_proof)
    fill_proof context proof
    pure true)

  unfoldable pub finalize_invoice_tx : Action (World b) Bool
  finalize_invoice_tx = wallet_lock (do
    slate ← gets (λ w. w.slate)
    slate_res ← calling (b.finalize_invoice_tx slate)
    set_slate slate_res
    pure true)

  unfoldable pub cancel_tx : Option ℕ → Option Bytes → Action (World b) (Unit {0})
  cancel_tx tx_id tx_slate_id = do
    calling b.start_updater_console_thread
    sharing (b.cancel_tx tx_id tx_slate_id)

  unfoldable pub post_tx : Transaction → Bool → Action (World b) (Unit {0})
  post_tx tx fluff = do
    tx_ser ← lift (unwrap (b.ser_vec tx))
    wallet_lock (pure tt)
    calling (b.post_tx (to_hex tx_ser) fluff)

  unfoldable pub verify_slate_messages : Slate → Action (World b) (Unit {0})
  verify_slate_messages slate = lift (result (b.verify_messages slate))

  unfoldable pub check_repair : ℕ → Bool → Action (World b) (Unit {0})
  check_repair start_height delete_unconfirmed = do
    calling b.start_updater_console_thread
    sharing (b.scan start_height delete_unconfirmed)

  unfoldable pub restore : Action (World b) (Unit {0})
  unfolding check_repair
  restore = check_repair 1 true

  unfoldable pub dump_wallet_data : Option Bytes → Action (World b) (Unit {0})
  dump_wallet_data file_name = do
    calling b.start_updater_console_thread
    sharing (b.dump_wallet_data file_name)
