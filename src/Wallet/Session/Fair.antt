-- ===== src/Wallet/Session/Fair.antt =====
-- The operations of src/wallet/api/api.rs end, free the mutex and keep the wallet's fields.
pub mod Changes
pub mod Methods
pub mod Perform
use mwc.Prelude.{
  ℕ, Bool, true, false, List, [], ◌∷◌, Option, none, some, Bytes, unwrap, ◌⊎◌, inl, inr, Bool-cases,
}
use mwc.ErrorKind.{Error, kind, transaction_has_no_proof}
use mwc.Effects.{Action, Call, result, pure, gets, lift, fail, modify, try, ◌>>=◌, ◌>>◌}
use mwc.Effects.Steady.{
  Ends, result-Ends, pure-Steady, gets-Steady, lift-Steady, fail-Steady, try-Steady, bind-Steady,
  if-Steady,
}
use mwc.Proof.Evidence.{TxProof}
use mwc.Wallet.Ledger.{TxLogEntry}
use mwc.Wallet.Library.{Library, Context}
use mwc.Wallet.Session.{World, calling, reading, wallet_lock, sharing}
use mwc.Wallet.Session.Free.{
  Free, Any, the_wallet, Fair, Inner, calling-Inner, calling-Fair, reading-Inner, set_slate-Inner,
  wallet_lock-Fair, sharing-Fair,
}
use mwc.Wallet.Session.Proofs
use mwc.Wallet.Session.Queries
use mwc.Wallet.Session.Transactions

module _ {Slate Signature : Type 0} (b : Library Slate Signature) where
  open b use {State}

  abbrev pub queried :
      {A B : Type 0} (f : Call State A) {g : A → Action (World b) B}
      → ((a : A) → Inner b (g a))
      → Inner b (calling f >>= g)
  queried f t = bind-Steady (Any b) (the_wallet b) (calling-Inner b f) t

  abbrev pub in_turn :
      {A B : Type 0} {m : Action (World b) A} {f : A → Action (World b) B}
      → Fair b m
      → ((a : A) → Fair b (f a))
      → Fair b (m >>= f)
  in_turn s t = bind-Steady (Free b) (the_wallet b) s t

  abbrev pub read :
      {A B : Type 0} (f : State → A) {g : A → Action (World b) B}
      → ((a : A) → Inner b (g a))
      → Inner b (reading f >>= g)
  read f t = bind-Steady (Any b) (the_wallet b) (reading-Inner b f) t

  abbrev pub got :
      {A B : Type 0} (f : World b → A) {g : A → Action (World b) B}
      → ((a : A) → Inner b (g a))
      → Inner b (gets f >>= g)
  got f t = bind-Steady (Any b) (the_wallet b) (gets-Steady (Any b) (the_wallet b) f) t

  abbrev pub returned : {A : Type 0} (a : A) → Inner b (pure a)
  returned a = pure-Steady (Any b) (the_wallet b) a

  pub accounts-Fair : Fair b Queries.accounts
  unfolding Queries.accounts
  accounts-Fair = wallet_lock-Fair b _ (calling-Inner b b.accounts)

  pub create_account_path-Fair : (label : Bytes) → Fair b (Queries.create_account_path label)
  unfolding Queries.create_account_path
  create_account_path-Fair label = wallet_lock-Fair b _ (calling-Inner b (b.new_acct_path label))

  pub rename_account_path-Fair : (old new : Bytes) → Fair b (Queries.rename_account_path old new)
  unfolding Queries.rename_account_path
  rename_account_path-Fair old new =
      in_turn accounts-Fair
        (λ accts. wallet_lock-Fair b _ (calling-Inner b (b.rename_acct_path accts old new)))

  pub retrieve_tx_id_by_slate_id-Fair :
      (slate_id : Bytes) → Fair b (Queries.retrieve_tx_id_by_slate_id slate_id)
  unfolding Queries.retrieve_tx_id_by_slate_id
  retrieve_tx_id_by_slate_id-Fair slate_id =
      wallet_lock-Fair b _
        (queried (b.retrieve_txs none (some slate_id) none none none) (λ txs. returned _))

  pub sync-Fair : (print_progress : Bool) → Fair b (Queries.sync print_progress)
  unfolding Queries.sync
  sync-Fair print_progress =
      in_turn
        (if-Steady (Free b) (the_wallet b) print_progress
          (calling-Fair b b.start_updater_console_thread) (pure-Steady (Free b) (the_wallet b) tt))
        (λ u. sharing-Fair b b.update_wallet_state)

  refreshed-Fair : (refresh : Bool) → Fair b (Queries.refreshed refresh)
  refreshed-Fair refresh =
      if-Steady (Free b) (the_wallet b) refresh (sync-Fair true)
        (pure-Steady (Free b) (the_wallet b) false)

  pub retrieve_outputs-Fair :
      (spent refresh : Bool) (tx : Option TxLogEntry) (start len : Option ℕ)
      → Fair b (Queries.retrieve_outputs spent refresh tx start len)
  unfolding Queries.retrieve_outputs
  retrieve_outputs-Fair spent refresh tx start len = in_turn (refreshed-Fair refresh) (λ validated.
      wallet_lock-Fair b _ (
        read b.parent_key_id (λ key.
          queried (b.retrieve_outputs spent tx key start len) (λ os. returned (validated, os)))))

  -- Under the mutex, the transactions are read without a refresh.
  pub retrieve_txs-Fair :
      (tx_id : Option ℕ) (slate_id : Option Bytes)
      → Fair b (Queries.retrieve_txs false tx_id slate_id)
  unfolding Queries.retrieve_txs
  retrieve_txs-Fair tx_id slate_id = wallet_lock-Fair b _ (
      read b.parent_key_id (λ key. bind-Steady (Any b) (the_wallet b) (returned false) (λ validated.
        queried (b.retrieve_txs tx_id slate_id (some key) none none)
          (λ txs. returned (validated, txs)))))

  has_stored_tx_proof-Inner : (dir uuid : Bytes) → Inner b (Proofs.has_stored_tx_proof dir uuid)
  has_stored_tx_proof-Inner dir uuid = reading-Inner b _

  flag_of-Inner : (o : Option Bytes) → Inner b (Queries.flag_of o)
  flag_of-Inner none = returned false
  flag_of-Inner (some i) = read b.get_data_file_dir (λ dir. has_stored_tx_proof-Inner dir i)

  proof_flags-Inner : (txs : List TxLogEntry) → Inner b (Queries.proof_flags txs)
  proof_flags-Inner [] = returned []
  proof_flags-Inner (t ∷ txs) =
      bind-Steady (Any b) (the_wallet b) (flag_of-Inner t.tx_slate_id) (λ flag.
        bind-Steady (Any b) (the_wallet b) (proof_flags-Inner txs)
          (λ flags. returned ((t, flag) ∷ flags)))

  pub retrieve_txs_with_proof_flag-Fair :
      (refresh : Bool) (tx_id : Option ℕ) (slate_id : Option Bytes) (start len : Option ℕ)
      → Fair b (Queries.retrieve_txs_with_proof_flag refresh tx_id slate_id start len)
  unfolding Queries.retrieve_txs_with_proof_flag
  retrieve_txs_with_proof_flag-Fair refresh tx_id slate_id start len =
      in_turn (refreshed-Fair refresh) (λ validated. wallet_lock-Fair b _ (
        read b.parent_key_id (λ key.
          queried (b.retrieve_txs tx_id slate_id (some key) start len) (λ txs.
            bind-Steady (Any b) (the_wallet b) (proof_flags-Inner txs)
              (λ flags. returned (validated, flags))))))

  pub retrieve_summary_info-Fair :
      (refresh : Bool) (confirmations : ℕ)
      → Fair b (Queries.retrieve_summary_info refresh confirmations)
  unfolding Queries.retrieve_summary_info
  retrieve_summary_info-Fair refresh confirmations =
      in_turn (calling-Fair b b.start_updater_console_thread)
        (λ u. sharing-Fair b (b.retrieve_summary_info refresh confirmations))

  pub get_stored_tx-Fair : (uuid : Bytes) → Fair b (Queries.get_stored_tx uuid)
  unfolding Queries.get_stored_tx
  get_stored_tx-Fair uuid = wallet_lock-Fair b _ (calling-Inner b (b.get_stored_tx_by_uuid uuid))

  output_height-Fair : Fair b Queries.output_height
  output_height-Fair =
      in_turn (retrieve_outputs-Fair true false none none none)
        (λ os. pure-Steady (Free b) (the_wallet b) _)

  height_of-Fair : (res : Option (ℕ × Bytes × ℕ)) → Fair b (Queries.height_of res)
  height_of-Fair none = output_height-Fair
  height_of-Fair (some tip) = pure-Steady (Free b) (the_wallet b) _

  pub node_height-Fair : Fair b Queries.node_height
  unfolding Queries.node_height
  node_height-Fair =
      in_turn
        (wallet_lock-Fair b _
          (try-Steady (Any b) (the_wallet b) _ (calling-Inner b b.get_chain_tip)))
        height_of-Fair

  stored_proof-Inner : (dir uuid : Bytes) → Inner b (Proofs.get_stored_tx_proof dir uuid)
  unfolding Proofs.get_stored_tx_proof
  stored_proof-Inner dir uuid = read _ (λ exists.
      if-Steady (Any b) (the_wallet b) exists
        (queried (b.read_file (Proofs.read_path dir uuid)) (λ content.
          lift-Steady (Any b) (the_wallet b) _ (result-Ends (b.proof_from_str content))))
        (fail-Steady (Any b) (the_wallet b) (kind transaction_has_no_proof)))

  proof_of-Inner : (dir : Bytes) (o : Option Bytes) → Inner b (Queries.proof_of dir o)
  proof_of-Inner dir none = fail-Steady (Any b) (the_wallet b) (kind transaction_has_no_proof)
  proof_of-Inner dir (some uuid) = stored_proof-Inner dir uuid

  pub get_stored_tx_proof-Fair : (id : ℕ) → Fair b (Queries.get_stored_tx_proof id)
  unfolding Queries.get_stored_tx_proof
  get_stored_tx_proof-Fair id = wallet_lock-Fair b _ (
      read b.parent_key_id (λ key.
        queried (b.retrieve_txs (some id) none (some key) none none)
          (λ txs. read b.get_data_file_dir (λ dir. proof_of-Inner dir (Queries.slate_of txs)))))
