-- ===== src/Controller/Tests.antt =====
-- Slates that come in, on a small library.
use mwc.Prelude.{
  ℕ, ◌≤◌, ◌<◌, ◌≡◌, refl, ◌⊎◌, inr, [], Option, none, some, Bytes, codes, ok, err, arith,
}
use mwc.ErrorKind.{
  kind, does_not_accept_invoices, invoice_amount_too_big, grin_wallet_receive_error,
}
use mwc.Contacts.Dispatch.{Address, keybase_address}
use mwc.Samples.{sample_crypto}
use mwc.Samples.Library.{sample_library, sample_config, world, payment, invoice}
use mwc.Wallet.Session.{World}
use mwc.Wallet.Session.Lifecycle.{unlock}
use mwc.Wallet.Session.Methods.{process_sender_initiated_slate}
use mwc.Controller.{Receiving, process_incoming_slate, on_slate}
use mwc.Controller.Accounts.{
  Accounted, process_incoming_slate-Accounted, process_incoming_slate-dst,
}
use mwc.Controller.Invoices.{process_incoming_slate-limit, on_slate_refused}

abbrev receiving : Receiving
receiving = record { recv_account = some (codes "shop"); recv_pass = none }

abbrev sender : Option Bytes
sender = some (codes "keybase://bob")

-- A payment for the receiving account: the old account is active again.
account_after :
    (process_incoming_slate receiving
      (some sample_config)
      sender
      none
      (world (payment 3))).1.wallet.active_account
    ≡ codes "default"
unfolding process_incoming_slate
account_after = refl

process_incoming_slate-Accounted_example :
    Accounted sample_library receiving
      (some sample_config)
      (codes "default")
      (process_incoming_slate receiving (some sample_config) sender none (world (payment 3)))
process_incoming_slate-Accounted_example =
    process_incoming_slate-Accounted sample_library receiving (some sample_config) sender none
      (world (payment 3)) refl

abbrev no_limit : Option ℕ
no_limit = none

process_incoming_slate-limit_example :
    ((limit : ℕ) × (some 10 ≡ some limit) × (11 ≤ limit))
    ⊎ ((some 10 ≡ no_limit)
        × (process_incoming_slate receiving (some sample_config) sender none (world (invoice 11))
            ≡ (err (kind does_not_accept_invoices), world (invoice 11))))
    ⊎ ((limit : ℕ) × (some 10 ≡ some limit)
        × (limit < 11)
        × (process_incoming_slate receiving (some sample_config) sender none (world (invoice 11))
            ≡ (err (kind (invoice_amount_too_big 11)), world (invoice 11))))
process_incoming_slate-limit_example =
    process_incoming_slate-limit sample_library receiving (some sample_config) sender none
      (world (invoice 11)) refl refl

abbrev bob : Address
bob = keybase_address (record { username = codes "bob"; topic = none })

over_limit : (limit : ℕ) → (some 10 ≡ some limit) → limit < 11
over_limit limit h = let e : 10 ≡ limit = cc in omega arith

on_slate_refused_example :
    on_slate sample_crypto receiving
      (some sample_config)
      (λ slate from s. (inr tt, s))
      bob
      (world (invoice 11))
    ≡ (ok tt, world (invoice 11))
on_slate_refused_example =
    on_slate_refused sample_library receiving (some sample_config) sample_crypto
      (λ slate from s. (inr tt, s)) bob (world (invoice 11)) refl refl refl refl over_limit

-- A payment that the library does not take.
abbrev opened : World sample_library
opened = (unlock sample_config (codes "shop") [] (world (payment 13))).1

abbrev refused : World sample_library
refused =
    (process_sender_initiated_slate {b = sample_library} sender none none (some (codes "shop"))
      opened).1

opened_ends : unlock sample_config (codes "shop") [] (world (payment 13)) ≡ (ok tt, opened)
unfolding unlock
opened_ends = refl

refused_ends :
    process_sender_initiated_slate sender none none (some (codes "shop")) opened
    ≡ (err (kind grin_wallet_receive_error), refused)
unfolding unlock process_sender_initiated_slate
refused_ends = refl

process_incoming_slate-dst_example :
    (process_incoming_slate receiving (some sample_config) sender none (world (payment 13))
      ≡ (err (kind grin_wallet_receive_error), refused))
    × (refused.wallet.active_account ≡ codes "shop")
process_incoming_slate-dst_example =
    process_incoming_slate-dst sample_library receiving (some sample_config) sample_config
      (codes "shop") sender none (world (payment 13)) opened refused
      (kind grin_wallet_receive_error) refl refl refl refl refl opened_ends refused_ends
