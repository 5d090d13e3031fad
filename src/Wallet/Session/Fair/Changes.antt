-- ===== src/Wallet/Session/Fair/Changes.antt =====
-- The operations of src/wallet/api/api.rs that change the wallet end, and free the mutex.
use mwc.Prelude.{ℕ, [], Bool, true, List, Option, none, some, Bytes, unwrap, refl}
use mwc.Codec.Hex.{to_hex}
use mwc.Effects.{modify}
use mwc.Effects.Steady.{Ends, result-Ends, lift-Steady, bind-Steady}
use mwc.Proof.Evidence.{TxProof}
use mwc.Wallet.Library.{Library, Context}
use mwc.Wallet.Session.Free.{
  Free, Any, the_wallet, Fair, Inner, calling-Inner, calling-Fair, set_slate-Inner,
  wallet_lock-Fair, sharing-Fair,
}
use mwc.Wallet.Session.Fair.{queried, read, got, returned, in_turn}
use mwc.Wallet.Session.Proofs
use mwc.Wallet.Session.Transactions

module _ {Slate Signature : Type 0} (b : Library Slate Signature) where
  open b use {Transaction, amount, id}

  pub invoice_tx-Fair :
      (account address : Option Bytes) (confirmations outputs change : ℕ) (all : Bool)
      (message : Option Bytes)
      → Fair b (Transactions.invoice_tx account address confirmations outputs change all message)
  unfolding Transactions.invoice_tx
  invoice_tx-Fair account address confirmations outputs change all message =
      in_turn b (sharing-Fair b b.update_wallet_state) (λ u. wallet_lock-Fair b _ (
        got b (λ w. w.slate)
          (λ slate. calling-Inner b (
            b.process_invoice_tx slate (
              Transactions.invoice_args account address confirmations outputs change all message
                (amount slate))))))

  pub initiate_tx-Fair :
      (account address : Option Bytes) (amount confirmations outputs change : ℕ) (all : Bool)
      (message : Option Bytes) (listed : Option (List Bytes)) (version : Option ℕ) (routputs : ℕ)
      → Fair b (
          Transactions.initiate_tx account address amount confirmations outputs change all message
            listed version routputs)
  unfolding Transactions.initiate_tx
  initiate_tx-Fair account address amount confirmations outputs change all message listed version
        routputs =
      in_turn b (sharing-Fair b b.update_wallet_state)
        (λ u. wallet_lock-Fair b _ (calling-Inner b _))

  pub initiate_receive_tx-Fair :
      (address account : Option Bytes) (amount n : ℕ) (message : Option Bytes)
      → Fair b (Transactions.initiate_receive_tx address account amount n message)
  unfolding Transactions.initiate_receive_tx
  initiate_receive_tx-Fair address account amount n message =
      wallet_lock-Fair b _ (calling-Inner b _)

  pub receive_tx-Fair :
      (address message key_id : Option Bytes) (amounts : Option (List ℕ)) (account : Option Bytes)
      → Fair b (Transactions.receive_tx address message key_id amounts account)
  unfolding Transactions.receive_tx
  receive_tx-Fair address message key_id amounts account = wallet_lock-Fair b _ (
      got b (λ w. w.slate)
        (λ slate. calling-Inner b (b.receive_tx slate address key_id amounts account message)))

  pub tx_lock_outputs-Fair :
      (slate : Slate) (address : Option Bytes) (id : ℕ)
      → Fair b (Transactions.tx_lock_outputs slate address id)
  unfolding Transactions.tx_lock_outputs
  tx_lock_outputs-Fair slate address id =
      wallet_lock-Fair b _ (calling-Inner b (b.tx_lock_outputs slate address id))

  store_tx_proof-Inner :
      (proof : TxProof Signature) (dir uuid : Bytes)
      → Inner b (Proofs.store_tx_proof proof dir uuid)
  unfolding Proofs.store_tx_proof
  store_tx_proof-Inner proof dir uuid =
      let path = Proofs.store_path dir uuid in
      queried b (b.write_file path []) (λ u.
        bind-Steady (Any b) (the_wallet b)
          (lift-Steady (Any b) (the_wallet b) _ (result-Ends (b.proof_to_string proof)))
          (λ text. calling-Inner b (b.write_file path text)))

  modify_proof-Inner :
      (proof : TxProof Signature) → Inner b (modify (λ w. record w { tx_proof = some proof }))
  modify_proof-Inner proof w h = record { ends = tt; holds = tt; kept = refl }

  fill_proof-Inner :
      (context : Context) (proof : Option (TxProof Signature))
      → Inner b (Transactions.fill_proof context proof)
  unfolding Transactions.fill_proof
  fill_proof-Inner context none = returned b tt
  fill_proof-Inner context (some proof) =
      let filled = Transactions.filled_in proof context in
      bind-Steady (Any b) (the_wallet b) (modify_proof-Inner filled) (λ u.
        read b b.get_data_file_dir
          (λ dir. got b (λ w. w.slate) (λ slate. store_tx_proof-Inner filled dir (id slate))))

  pub finalize_tx-Fair : Fair b Transactions.finalize_tx
  unfolding Transactions.finalize_tx
  finalize_tx-Fair = wallet_lock-Fair b _ (
      got b (λ w. w.slate)
        (λ slate. queried b (b.finalize_tx slate) (λ r.
          bind-Steady (Any b) (the_wallet b) (set_slate-Inner b r.0) (λ u.
            got b (λ w. w.tx_proof)
              (λ proof.
                bind-Steady (Any b) (the_wallet b) (fill_proof-Inner r.1 proof)
                  (λ v. returned b true))))))

  pub finalize_invoice_tx-Fair : Fair b Transactions.finalize_invoice_tx
  unfolding Transactions.finalize_invoice_tx
  finalize_invoice_tx-Fair = wallet_lock-Fair b _ (
      got b (λ w. w.slate)
        (λ slate.
          queried b (b.finalize_invoice_tx slate)
            (λ s. bind-Steady (Any b) (the_wallet b) (set_slate-Inner b s) (λ u. returned b true))))

  pub cancel_tx-Fair :
      (id : Option ℕ) (slate : Option Bytes) → Fair b (Transactions.cancel_tx id slate)
  unfolding Transactions.cancel_tx
  cancel_tx-Fair id slate =
      in_turn b (calling-Fair b b.start_updater_console_thread)
        (λ u. sharing-Fair b (b.cancel_tx id slate))

  unwrap-Ends : {A : Type 0} (o : Option A) → Ends (unwrap o)
  unwrap-Ends none = tt
  unwrap-Ends (some a) = tt

  pub post_tx-Fair : (tx : Transaction) (fluff : Bool) → Fair b (Transactions.post_tx tx fluff)
  unfolding Transactions.post_tx
  post_tx-Fair tx fluff =
      in_turn b (lift-Steady (Free b) (the_wallet b) _ (unwrap-Ends (b.ser_vec tx))) (λ tx_ser.
        in_turn b (wallet_lock-Fair b _ (returned b tt))
          (λ u. calling-Fair b (b.post_tx (to_hex tx_ser) fluff)))

  pub verify_slate_messages-Fair :
      (slate : Slate) → Fair b (Transactions.verify_slate_messages slate)
  unfolding Transactions.verify_slate_messages
  verify_slate_messages-Fair slate =
      lift-Steady (Free b) (the_wallet b) _ (result-Ends (b.verify_messages slate))

  pub check_repair-Fair :
      (height : ℕ) (delete : Bool) → Fair b (Transactions.check_repair height delete)
  unfolding Transactions.check_repair
  check_repair-Fair height delete =
      in_turn b (calling-Fair b b.start_updater_console_thread)
        (λ u. sharing-Fair b (b.scan height delete))

  pub restore-Fair : Fair b Transactions.restore
  unfolding Transactions.restore
  restore-Fair = check_repair-Fair 1 true

  pub dump_wallet_data-Fair : (file : Option Bytes) → Fair b (Transactions.dump_wallet_data file)
  unfolding Transactions.dump_wallet_data
  dump_wallet_data-Fair file =
      in_turn b (calling-Fair b b.start_updater_console_thread)
        (λ u. sharing-Fair b (b.dump_wallet_data file))
