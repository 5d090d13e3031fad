-- ===== src/Controller/Invoices.antt =====
-- Which invoices the console pays (src/main.rs, src/wallet/wallet.rs).
use mwc.Prelude.{
  ℕ, ◌≤◌, ◌<◌, ◌≡◌, refl, ap, ◌∙◌, ◌⊎◌, inl, inr, Bool, true, false, Bool-cases, Option, none, some,
  Option-cases, Bytes, ltb, ◌==◌, Outcome, ok, err, arith,
}
use mwc.ErrorKind.{ErrorKind, Error, kind, does_not_accept_invoices, invoice_amount_too_big}
use mwc.Config.{Wallet713Config}
use mwc.Wallet.Library.{Library}
use mwc.Wallet.Session.{World}
use mwc.Wallet.Session.Methods.{process_receiver_initiated_slate}
use mwc.Controller.{
  Receiving, process_incoming_slate, first_message, check_sender, send_back, on_slate,
}
use mwc.Contacts.Address.{Crypto}
use mwc.Contacts.Dispatch.{Address, show}
use mwc.Effects.{Call, and_then, caught, try, gets, lift, pure, ◌>>=◌}

module _ {Slate Signature SecretKey : Type 0} (b : Library Slate Signature) (r : Receiving)
    (config : Option (Wallet713Config SecretKey)) where
  open b use {num_participants, participant_data, inputs, amount}

  abbrev refused : ErrorKind → World b → Outcome Error Bool × World b
  refused e w = (err (kind e), w)

  -- A slate that a participant is missing of and that has no inputs is an invoice. Either the wallet
  -- has a limit and the amount is within it, or nothing is changed and no library is called: with the
  -- error that invoices are not accepted where the wallet has no limit, and with the error that the
  -- amount is too big where it is above the limit.
  pub process_incoming_slate-limit :
      (address account : Option Bytes) (w : World b)
      → ltb (participant_data w.slate) (num_participants w.slate) ≡ true
      → inputs w.slate ≡ 0
      → ((limit : ℕ) × (w.wallet.max_auto_accept_invoice ≡ some limit) × (amount w.slate ≤ limit))
        ⊎ ((w.wallet.max_auto_accept_invoice ≡ none)
            × (process_incoming_slate r config address account w
                ≡ refused does_not_accept_invoices w))
        ⊎ ((limit : ℕ) × (w.wallet.max_auto_accept_invoice ≡ some limit)
            × (limit < amount w.slate)
            × (process_incoming_slate r config address account w
                ≡ refused (invoice_amount_too_big (amount w.slate)) w))
  unfolding process_incoming_slate process_receiver_initiated_slate
  process_incoming_slate-limit address account w missing empty =
      elim (Option-cases w.wallet.max_auto_accept_invoice) [
        | inl e ↦ inr (inl (e, simp (missing, empty, e) refl))
        | inr (limit, e) ↦ elim (Bool-cases (ltb limit (amount w.slate))) [
          | inl f ↦ inr (inr (limit, e, ground arith, simp (missing, empty, e, f) refl))
          | inr f ↦ inl (limit, e, ground arith)
        ]
      ]

  module _ (c : Crypto) (post_slate : Slate → Address → Call (Library.State b) (Unit {0}))
      (from : Address) (w : World b) where
    -- The handler behind the readings of the slate and of the sender.
    abbrev after_reading :
        Outcome Error (Unit {0}) → Outcome Error (Unit {0}) → Outcome Error (Unit {0}) × World b
    after_reading message sender =
        and_then (message, w)
          (λ u. lift sender >>= λ v. gets (λ w. w.wallet.active_account) >>= λ account.
            try (
              process_incoming_slate r config (some (show from)) (some account)
              >>= send_back c r config post_slate from)
            >>= λ result. pure tt)

    abbrev after_processing : Outcome Error Bool × World b → Outcome Error (Unit {0}) × World b
    after_processing t =
        and_then (caught (and_then t (send_back c r config post_slate from))) (λ result. pure tt)

    message_read :
        ltb (participant_data w.slate) (num_participants w.slate) ≡ true
        → (participant_data w.slate == 0) ≡ false
        → first_message b w.slate ≡ ok tt
    message_read missing some_data = rw (missing, some_data) refl

    on_slate_read :
        first_message b w.slate ≡ ok tt
        → check_sender c from ≡ ok tt
        → on_slate c r config post_slate from w
          ≡ after_processing
              (process_incoming_slate r config (some (show from)) (some w.wallet.active_account) w)
    unfolding on_slate
    on_slate_read message sender =
        ap (λ (m : Outcome Error (Unit {0})). after_reading m (check_sender c from)) message
        ∙ ap (λ (s : Outcome Error (Unit {0})). after_reading (ok tt) s) sender

    -- If the wallet does not accept an invoice that comes in, whatever the limit, the handler sends
    -- nothing back and changes nothing: neither the wallet, nor the library's state, nor the slate.
    pub on_slate_refused :
        ltb (participant_data w.slate) (num_participants w.slate) ≡ true
        → (participant_data w.slate == 0) ≡ false
        → inputs w.slate ≡ 0
        → check_sender c from ≡ ok tt
        → ((limit : ℕ) → w.wallet.max_auto_accept_invoice ≡ some limit → limit < amount w.slate)
        → on_slate c r config post_slate from w ≡ (ok tt, w)
    on_slate_refused missing some_data empty sender over =
        let read = on_slate_read (message_read missing some_data) sender in
        elim (process_incoming_slate-limit (some (show from)) (some w.wallet.active_account) w
          missing empty) [
            | inl (limit, e, fits) ↦ absurd (let h = over limit e in omega arith)
            | inr (inl (_, e)) ↦ read ∙ ap after_processing e
            | inr (inr (_, _, _, e)) ↦ read ∙ ap after_processing e
          ]
