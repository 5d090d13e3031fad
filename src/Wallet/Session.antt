-- ===== src/Wallet/Session.antt =====
-- The world of the console's wallet: `Wallet` of src/wallet/wallet.rs, the mutex around the wallet
-- library's instance, and the slate and the proof that a call is given by reference.
pub mod Proofs
pub mod Queries
pub mod Transactions
pub mod Lifecycle
pub mod Methods
pub mod Free
pub mod Fair
pub mod Locked
pub mod Unlocked
pub mod Blocked
pub mod Stored
pub mod Finalized
mod Tests
use mwc.Prelude.{
  ℕ, Bool, true, false, Option, none, some, Bytes, codes, if◌then◌else◌, Outcome, ok, err, diverge,
}
use mwc.ErrorKind.{Error, kind, no_wallet}
use mwc.Effects.{Action, Call, result, modify, pure, fail, ◌>>=◌, ◌>>◌}
use mwc.Proof.Evidence.{TxProof}
use mwc.Wallet.Library.{Library}

-- The backend is known by whether there is one, and so is the updater's thread.
pub record Wallet : Type 0 where
  pub active_account : Bytes
  pub backend : Bool
  pub max_auto_accept_invoice : Option ℕ
  pub updater_running : Bool
  pub updater_handler : Bool

-- `new`
abbrev pub new : Option ℕ → Wallet
new max_auto_accept_invoice = record {
  active_account = codes "default";
  backend = false;
  max_auto_accept_invoice = max_auto_accept_invoice;
  updater_running = false;
  updater_handler = false;
}

module _ {Slate Signature : Type 0} (b : Library Slate Signature) where
  open b use {State}

  -- `held`: whether the instance's mutex is locked.
  pub record World : Type 0 where
    pub wallet : Wallet
    pub held : Bool
    pub lib : State
    pub slate : Slate
    pub tx_proof : Option (TxProof Signature)

module _ {Slate Signature : Type 0} {b : Library Slate Signature} where
  open b use {State}

  -- A call of the library, whose error is passed on.
  abbrev pub calling : {A : Type 0} → Call State A → Action (World b) A
  calling f w = let r = f w.lib in (result r.0, record w { lib = r.1 })

  abbrev pub reading : {A : Type 0} → (State → A) → Action (World b) A
  reading f w = (ok (f w.lib), w)

  -- A scope under the mutex. Locking it while it is held waits for ever; a scope that is left by an
  -- error or a panic unlocks it too.
  abbrev pub locked : {A : Type 0} → Action (World b) A → Action (World b) A
  locked body w =
      if w.held
      then (diverge, w)
      else (let r = body (record w { held = true }) in (r.0, record r.1 { held = false }))

  -- `wallet_lock!`
  abbrev pub wallet_lock : {A : Type 0} → Action (World b) A → Action (World b) A
  wallet_lock body = locked (calling b.wallet_inst >> body)

  -- A call of the library that takes the mutex itself.
  abbrev pub sharing : {A : Type 0} → Call State A → Action (World b) A
  sharing f = locked (calling f)

  -- `get_wallet_instance`
  abbrev pub get_wallet_instance : Action (World b) (Unit {0})
  get_wallet_instance w = if w.wallet.backend then (ok tt, w) else (err (kind no_wallet), w)

  abbrev pub set_slate : Slate → Action (World b) (Unit {0})
  set_slate slate = modify (λ w. record w { slate = slate })

  -- A method of the wallet: its instance, then the call.
  abbrev pub with_instance : {A : Type 0} → Action (World b) A → Action (World b) A
  with_instance m = get_wallet_instance >> m
