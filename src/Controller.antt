-- ===== src/Controller.antt =====
-- `Controller` of src/main.rs: what the console does with the slates that its listeners receive.
pub mod Accounts
pub mod Invoices
mod Tests
use mwc.Prelude.{
  [], ℕ, zero, suc, Bool, true, false, ◌&&◌, Option, none, some, Bytes, ltb, ◌==◌, if◌then◌else◌,
  Outcome, ok, err, panic, diverge,
}
use mwc.ErrorKind.{ErrorKind, Error}
use mwc.Effects.{Action, Call, pure, gets, lift, try, otherwise, expect, ◌>>=◌, ◌>>◌}
use mwc.Contacts.Address.{Crypto, grinbox, mwcmqs, from_str, to_string}
use mwc.Contacts.Dispatch.{Address, mq_address, show}
use mwc.Config.{Wallet713Config}
use mwc.Wallet.Library.{Library}
use mwc.Wallet.Session.{World, calling}
use mwc.Wallet.Session.Lifecycle.{unlock}
use mwc.Wallet.Session.Methods.{
  process_receiver_initiated_slate, process_sender_initiated_slate, finalize_slate,
  finalize_invoice_slate,
}

-- The account and the passphrase that `set-recv` sets, in static variables.
pub record Receiving : Type 0 where
  pub recv_account : Option Bytes
  pub recv_pass : Option Bytes

abbrev pub or_empty : Option Bytes → Bytes
or_empty none = []
or_empty (some s) = s

module _ {Slate Signature SecretKey : Type 0} {b : Library Slate Signature} (r : Receiving)
    (config : Option (Wallet713Config SecretKey)) where
  open b use {num_participants, participant_data, inputs}

  -- Unlocking for an account, where the listener has a configuration.
  abbrev pub switch_to : Bytes → Wallet713Config SecretKey → Action (World b) (Unit {0})
  switch_to account config = unlock config account (or_empty r.recv_pass)

  -- Receiving a payment: for the receiving account, if there is one and a configuration, with the
  -- account that was active unlocked again behind it.
  abbrev pub receive_into :
      Option (Wallet713Config SecretKey)
      → Option Bytes
      → Bytes
      → Option Bytes
      → Option Bytes
      → Action (World b) (Unit {0})
  receive_into none recv_account old_account address dest_acct_name =
      process_sender_initiated_slate address none none dest_acct_name
  receive_into (some config) none old_account address dest_acct_name =
      process_sender_initiated_slate address none none dest_acct_name
  receive_into (some config) (some dst_account) old_account address dest_acct_name = do
    switch_to dst_account config
    process_sender_initiated_slate address none none (some dst_account)
    switch_to old_account config

  unfoldable pub receive : Option Bytes → Option Bytes → Action (World b) (Unit {0})
  unfolding process_sender_initiated_slate unlock
  receive address dest_acct_name = do
    old_account ← gets (λ w. w.wallet.active_account)
    receive_into config r.recv_account old_account address dest_acct_name

  -- `process_incoming_slate`: whether the slate is finalised.
  unfoldable pub process_incoming_slate : Option Bytes → Option Bytes → Action (World b) Bool
  unfolding receive process_receiver_initiated_slate finalize_slate finalize_invoice_slate
  process_incoming_slate address dest_acct_name = do
    slate ← gets (λ w. w.slate)
    if ltb (participant_data slate) (num_participants slate)
        then (if inputs slate == 0
            then process_receiver_initiated_slate address >> pure false
            else receive address dest_acct_name >> pure false)
        else otherwise finalize_slate finalize_invoice_slate >> pure true

-- The first participant's message is read for the console; there may be none.
abbrev pub first_message :
    {Slate Signature : Type 0} (b : Library Slate Signature) → Slate → Outcome Error (Unit {0})
first_message b slate =
    if ltb (b.participant_data slate) (b.num_participants slate) && (b.participant_data slate == 0)
    then panic
    else ok tt

abbrev pub expect_read : {A : Type 0} → Outcome ErrorKind A → Outcome Error (Unit {0})
expect_read (ok a) = ok tt
expect_read (err e) = panic
expect_read panic = panic
expect_read diverge = diverge

-- An MWCMQ address is read back.
abbrev pub check_sender : Crypto → Address → Outcome Error (Unit {0})
check_sender c (mq_address grinbox a) = expect_read (from_str c grinbox (to_string grinbox a))
check_sender c _ = ok tt

module _ (c : Crypto) {Slate Signature SecretKey : Type 0} {b : Library Slate Signature}
    (r : Receiving) (config : Option (Wallet713Config SecretKey))
    (post_slate : Slate → Address → Call (Library.State b) (Unit {0})) where
  -- The answer to the sender, by the listener's publisher.
  abbrev pub send_back : Address → Bool → Action (World b) (Unit {0})
  send_back from true = pure tt
  send_back from false = do slate ← gets (λ w. w.slate); expect (calling (post_slate slate from))

  -- `on_slate`; an error of the processing is printed.
  unfoldable pub on_slate : Address → Action (World b) (Unit {0})
  unfolding process_incoming_slate
  on_slate from = do
    slate ← gets (λ w. w.slate)
    lift (first_message b slate)
    lift (check_sender c from)
    account ← gets (λ w. w.wallet.active_account)
    result ←
        try (process_incoming_slate r config (some (show from)) (some account) >>= send_back from)
    pure tt
