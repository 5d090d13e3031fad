-- ===== src/Wallet/Session/Blocked.antt =====
-- The refresh of the transaction log, which waits for the mutex that it holds itself
-- (src/wallet/api/api.rs), and `repost` with it (src/wallet/wallet.rs).
use mwc.Prelude.{ℕ, ◌≡◌, refl, inr, Bool, true, false, diverge}
use mwc.Wallet.Library.{Library}
use mwc.Wallet.Session.{World}
use mwc.Wallet.Session.Methods.{repost}

module _ {Slate Signature : Type 0} (b : Library Slate Signature) where
  open b use {State}

  -- Reposting a transaction never ends: where the wallet is open, its instance answers and the thread
  -- that prints the progress starts, the refresh waits for the mutex that the reading of the log has
  -- locked.
  pub repost-diverge :
      (id : ℕ) (fluff : Bool) (w : World b) (s s' : State)
      → w.held ≡ false
      → w.wallet.backend ≡ true
      → b.wallet_inst w.lib ≡ (inr tt, s)
      → b.start_updater_console_thread s ≡ (inr tt, s')
      → (repost id fluff w).0 ≡ diverge
  unfolding repost
  repost-diverge id fluff w s s' free open' inst console = simp (open', free, inst, console) refl
