-- ===== src/Controller/Accounts.antt =====
-- The active account over the receiving of slates (src/main.rs).
use mwc.Prelude.{
  ◌≡◌, refl, ap, sym, ◌∙◌, ◌⊎◌, inl, inr, true, false, Bool-cases, Option, none, some, Bytes,
  Outcome, ok, err, panic, diverge, ltb, ◌==◌,
}
use mwc.ErrorKind.{Error}
use mwc.Effects.{and_then, pure, ◌>>◌}
use mwc.Effects.Steady.{Returned, otherwise-Steady}
use mwc.Config.{Wallet713Config}
use mwc.Wallet.Library.{Library}
use mwc.Wallet.Session.{Wallet, World}
use mwc.Wallet.Session.Lifecycle.{unlock}
use mwc.Wallet.Session.Unlocked.{Unlocks, unlock-Unlocks}
use mwc.Wallet.Session.Free.{Free, the_wallet}
use mwc.Wallet.Session.Fair.Methods.{
  process_sender_initiated_slate-Fair, process_receiver_initiated_slate-Fair, finalize_slate-Fair,
  finalize_invoice_slate-Fair,
}
use mwc.Wallet.Session.Methods.{
  process_sender_initiated_slate, finalize_slate, finalize_invoice_slate,
}
use mwc.Controller.{Receiving, or_empty, switch_to, receive_into, receive, process_incoming_slate}

module _ {Slate Signature SecretKey : Type 0} (b : Library Slate Signature) (r : Receiving)
    (config : Option (Wallet713Config SecretKey)) where
  open b use {num_participants, participant_data, inputs}

  -- The account is the old one, or the one that receives.
  abbrev Either : Bytes → World b → Type 0
  Either old w = (w.wallet.active_account ≡ old) ⊎ (r.recv_account ≡ some w.wallet.active_account)

  -- How a slate's processing comes back.
  abbrev pub Accounted {ℓ} : {A : Type ℓ} → Bytes → Outcome Error A × World b → Type 0
  Accounted old (ok a, w) = (w.held ≡ false) × (w.wallet.active_account ≡ old)
  Accounted old (err e, w) = (w.held ≡ false) × Either old w
  Accounted old (panic, w) = Either old w
  Accounted old (diverge, w) = ⊥

  fair-Accounted :
      {A : Type 0} (w : World b) (t : Outcome Error A × World b)
      → Returned (Free b) (the_wallet b) w t
      → Accounted w.wallet.active_account t
  fair-Accounted w (ok a, w') h = (h.holds, ap (λ (v : Wallet). v.active_account) h.kept)
  fair-Accounted w (err e, w') h = (h.holds, inl (ap (λ (v : Wallet). v.active_account) h.kept))
  fair-Accounted w (panic, w') h = inl (ap (λ (v : Wallet). v.active_account) h.kept)
  fair-Accounted w (diverge, w') h = h.ends

  then_pure-Accounted :
      {A B : Type 0} (old : Bytes) (t : Outcome Error A × World b) (x : B)
      → Accounted old t
      → Accounted old (and_then t (λ a. pure x))
  then_pure-Accounted old (ok a, w) x h = h
  then_pure-Accounted old (err e, w) x h = h
  then_pure-Accounted old (panic, w) x h = h
  then_pure-Accounted old (diverge, w) x h = h

  module _ (conf : Wallet713Config SecretKey) (dst old : Bytes)
      (set : r.recv_account ≡ some dst) where
    -- The account is the receiving one.
    abbrev At : Bytes → World b → Type 0
    At account w = w.wallet.active_account ≡ account

    dst-Either : (w : World b) → At dst w → Either old w
    dst-Either w at' = inr (set ∙ ap (λ (a : Bytes). some a) (sym at'))

    back-Accounted :
        (w : World b) (t : Outcome Error (Unit {0}) × World b)
        → At dst w
        → Unlocks b conf old w.wallet t
        → Accounted old t
    back-Accounted w (ok u, w') at' h = (h.0, ap (λ (v : Wallet). v.active_account) h.1)
    back-Accounted w (err e, w') at' h = (h.1, dst-Either w' (h.2 ∙ at'))
    back-Accounted w (panic, w') at' h = dst-Either w' (h ∙ at')
    back-Accounted w (diverge, w') at' h = h

    received-Accounted :
        (w : World b) (t : Outcome Error (Unit {0}) × World b)
        → At dst w
        → Returned (Free b) (the_wallet b) w t
        → Accounted old (and_then t (λ u. switch_to r config old conf))
    received-Accounted w (ok u, w') at' h =
        let at'' = ap (λ (v : Wallet). v.active_account) h.kept ∙ at' in
        back-Accounted w' (switch_to r config old conf w') at''
          (unlock-Unlocks b conf old (or_empty r.recv_pass) w' h.holds)
    received-Accounted w (err e, w') at' h =
        (h.holds, dst-Either w' (ap (λ (v : Wallet). v.active_account) h.kept ∙ at'))
    received-Accounted w (panic, w') at' h =
        dst-Either w' (ap (λ (v : Wallet). v.active_account) h.kept ∙ at')
    received-Accounted w (diverge, w') at' h = h.ends

    switched-Accounted :
        (address : Option Bytes) (w : World b) (t : Outcome Error (Unit {0}) × World b)
        → At old w
        → Unlocks b conf dst w.wallet t
        → Accounted old (
            and_then t (λ u.
              process_sender_initiated_slate address none none (some dst)
              >> switch_to r config old conf))
    switched-Accounted address w (ok u, w') at' h =
        received-Accounted w' (process_sender_initiated_slate address none none (some dst) w')
          (ap (λ (v : Wallet). v.active_account) h.1)
          (process_sender_initiated_slate-Fair b address none none (some dst) w' h.0)
    switched-Accounted address w (err e, w') at' h = (h.1, inl (h.2 ∙ at'))
    switched-Accounted address w (panic, w') at' h = inl (h ∙ at')
    switched-Accounted address w (diverge, w') at' h = h

  receive_into-Accounted :
      (conf : Option (Wallet713Config SecretKey)) (recv : Option Bytes)
      (address account : Option Bytes) (w : World b)
      → r.recv_account ≡ recv
      → w.held ≡ false
      → Accounted w.wallet.active_account
          (receive_into r config conf recv w.wallet.active_account address account w)
  receive_into-Accounted none recv address account w set free =
      fair-Accounted w _ (process_sender_initiated_slate-Fair b address none none account w free)
  receive_into-Accounted (some conf) none address account w set free =
      fair-Accounted w _ (process_sender_initiated_slate-Fair b address none none account w free)
  receive_into-Accounted (some conf) (some dst) address account w set free =
      switched-Accounted conf dst w.wallet.active_account set address w
        (switch_to r config dst conf w) refl
        (unlock-Unlocks b conf dst (or_empty r.recv_pass) w free)

  -- Whatever slate comes in and whatever the library answers, its processing ends. Where it succeeds,
  -- the active account is the one from before, and the wallet's mutex is free. Where it fails, the
  -- active account is that one or the account that is set for receiving.
  pub process_incoming_slate-Accounted :
      (address account : Option Bytes) (w : World b)
      → w.held ≡ false
      → Accounted w.wallet.active_account (process_incoming_slate r config address account w)
  unfolding process_incoming_slate receive
  process_incoming_slate-Accounted address account w free =
      elim (Bool-cases (ltb (participant_data w.slate) (num_participants w.slate))) [
        | inr e ↦ rw e (
            then_pure-Accounted w.wallet.active_account _ true (
              fair-Accounted w _ (
                otherwise-Steady (Free b) (the_wallet b) finalize_slate finalize_invoice_slate
                  (finalize_slate-Fair b) (finalize_invoice_slate-Fair b) w free)))
        | inl e ↦ elim (Bool-cases (inputs w.slate == 0)) [
          | inl f ↦
              rw (e, f)
                (then_pure-Accounted w.wallet.active_account _ false
                  (fair-Accounted w _ (process_receiver_initiated_slate-Fair b address w free)))
          | inr f ↦
              rw (e, f)
                (then_pure-Accounted w.wallet.active_account _ false
                  (receive_into-Accounted config r.recv_account address account w refl free))
        ]
      ]

  unlocked_at :
      (conf : Wallet713Config SecretKey) (dst : Bytes) (w : World b)
      (t : Outcome Error (Unit {0}) × World b) {w1 : World b}
      → t ≡ (ok tt, w1)
      → Unlocks b conf dst w.wallet t
      → (w1.held ≡ false) × (w1.wallet.active_account ≡ dst)
  unlocked_at conf dst w t is h =
      let u = rw is at h in (u.0, ap (λ (v : Wallet). v.active_account) u.1)

  kept_at :
      (w1 : World b) (t : Outcome Error (Unit {0}) × World b) {e : Error} {w2 : World b}
      → t ≡ (err e, w2)
      → Returned (Free b) (the_wallet b) w1 t
      → w2.wallet.active_account ≡ w1.wallet.active_account
  kept_at w1 t is h = let u = rw is at h in ap (λ (v : Wallet). v.active_account) u.kept

  -- Where a payment comes in while another account is set for receiving, and the wallet library does
  -- not take it, the receiving account stays active: the one from before is not unlocked again.
  pub process_incoming_slate-dst :
      (conf : Wallet713Config SecretKey) (dst : Bytes) (address account : Option Bytes)
      (w w1 w2 : World b) (e : Error)
      → config ≡ some conf
      → r.recv_account ≡ some dst
      → w.held ≡ false
      → ltb (participant_data w.slate) (num_participants w.slate) ≡ true
      → (inputs w.slate == 0) ≡ false
      → unlock conf dst (or_empty r.recv_pass) w ≡ (ok tt, w1)
      → process_sender_initiated_slate address none none (some dst) w1 ≡ (err e, w2)
      → (process_incoming_slate r config address account w ≡ (err e, w2))
        × (w2.wallet.active_account ≡ dst)
  unfolding process_incoming_slate receive
  process_incoming_slate-dst conf dst address account w w1 w2 e configured set free missing spends
        opened failed =
      let at_w1 =
        unlocked_at conf dst w (unlock conf dst (or_empty r.recv_pass) w) opened
          (unlock-Unlocks b conf dst (or_empty r.recv_pass) w free) in
      let kept =
        kept_at w1 (process_sender_initiated_slate address none none (some dst) w1) failed
          (process_sender_initiated_slate-Fair b address none none (some dst) w1 at_w1.0) in
      (simp (missing, spends, configured, set, opened, failed) refl, kept ∙ at_w1.1)
