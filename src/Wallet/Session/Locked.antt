-- ===== src/Wallet/Session/Locked.antt =====
-- What locking the wallet leaves, and what a locked wallet does (src/wallet/wallet.rs).
use mwc.Prelude.{◌≡◌, refl, ap, ◌∙◌, inl, inr, false, Bool-cases, Outcome, ok, err, panic, diverge}
use mwc.ErrorKind.{Error}
use mwc.Effects.{and_then, call_cases, ◌>>◌}
use mwc.Wallet.Library.{Library}
use mwc.Wallet.Session.{Wallet, World}
use mwc.Wallet.Session.Lifecycle.{set_wallet, stop_updater, close_backend, lock}

abbrev pub stopped : Wallet → Wallet
stopped wallet = record wallet { updater_running = false; updater_handler = false }

abbrev no_backend : Wallet → Wallet
no_backend wallet = record wallet { backend = false }

abbrev pub locked_wallet : Wallet → Wallet
locked_wallet wallet = record wallet {
  backend = false;
  updater_running = false;
  updater_handler = false;
}

module _ {Slate Signature : Type 0} (b : Library Slate Signature) where
  -- How locking comes back.
  abbrev pub Locks : Wallet → Outcome Error (Unit {0}) × World b → Type 0
  Locks wallet (ok u, w) = (w.held ≡ false) × (w.wallet ≡ locked_wallet wallet)
  Locks wallet (err e, w) = ⊥
  Locks wallet (panic, w) = w.wallet ≡ stopped wallet
  Locks wallet (diverge, w) = ⊥

  abbrev Stops : Wallet → Outcome Error (Unit {0}) × World b → Type 0
  Stops wallet (ok u, w) = (w.held ≡ false) × (w.wallet ≡ stopped wallet)
  Stops wallet (err e, w) = ⊥
  Stops wallet (panic, w) = w.wallet ≡ stopped wallet
  Stops wallet (diverge, w) = ⊥

  stop_updater-Stops : (w : World b) → w.held ≡ false → Stops w.wallet (stop_updater w)
  unfolding stop_updater
  stop_updater-Stops w free = elim (Bool-cases w.wallet.updater_handler) [
    | inr e ↦ simp (e) (free, refl)
    | inl e ↦ elim (call_cases b.join_updater w.lib) [
      | inl (x, s, j) ↦ simp (e, j) refl
      | inr (u, s, j) ↦ simp (e, j) (free, refl)
    ]
  ]

  -- The closing never fails, since its errors are ignored.
  abbrev Closes : World b → Outcome Error (Unit {0}) × World b → Type 0
  Closes w (ok u, w') = (w'.held ≡ false) × (w'.wallet ≡ w.wallet)
  Closes w (err e, w') = ⊥
  Closes w (panic, w') = ⊥
  Closes w (diverge, w') = ⊥

  close_backend-Closes : (w : World b) → w.held ≡ false → Closes w (close_backend w)
  unfolding close_backend
  close_backend-Closes w free = elim (Bool-cases w.wallet.backend) [
    | inr e ↦ simp (e) (free, refl)
    | inl e ↦ elim (call_cases b.lc_provider w.lib) [
      | inl (x, s, j) ↦ simp (e, free, j) (refl, refl)
      | inr (u, s, j) ↦ elim (call_cases b.close_wallet s) [
        | inl (x, s', k) ↦ simp (e, free, j, k) (refl, refl)
        | inr (v, s', k) ↦ simp (e, free, j, k) (refl, refl)
      ]
    ]
  ]

  closed-Locks :
      (wallet : Wallet) (r : Outcome Error (Unit {0}) × World b) (w : World b)
      → w.wallet ≡ stopped wallet
      → Closes w r
      → Locks wallet (and_then r (λ u. set_wallet (λ wallet. record wallet { backend = false })))
  closed-Locks wallet (ok u, w') w h k = (k.0, ap (λ (v : Wallet). no_backend v) (k.1 ∙ h))
  closed-Locks wallet (err e, w') w h k = k
  closed-Locks wallet (panic, w') w h k = absurd k
  closed-Locks wallet (diverge, w') w h k = k

  stopped-Locks :
      (wallet : Wallet) (r : Outcome Error (Unit {0}) × World b)
      → Stops wallet r
      → Locks wallet (
          and_then r
            (λ u. close_backend >> set_wallet (λ wallet. record wallet { backend = false })))
  stopped-Locks wallet (ok u, w) h =
      closed-Locks wallet (close_backend w) w h.1 (close_backend-Closes w h.0)
  stopped-Locks wallet (err e, w) h = h
  stopped-Locks wallet (panic, w) h = h
  stopped-Locks wallet (diverge, w) h = h

  pub lock-Locks : (w : World b) → w.held ≡ false → Locks w.wallet (lock w)
  unfolding lock
  lock-Locks w free = stopped-Locks w.wallet (stop_updater w) (stop_updater-Stops w free)
