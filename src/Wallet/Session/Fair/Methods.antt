-- ===== src/Wallet/Session/Fair/Methods.antt =====
-- The methods of `Wallet` end and free the mutex (src/wallet/wallet.rs).
use mwc.Prelude.{ℕ, Bool, false, List, Option, none, some, Bytes, ltb, ok_or}
use mwc.ErrorKind.{
  Error, kind, does_not_accept_invoices, invoice_amount_too_big, grin_wallet_receive_error,
  grin_wallet_post_error, grin_wallet_finalize_error, grin_wallet_verify_slate_messages_error,
}
use mwc.Effects.{Action, pure, gets, ◌>>=◌, ◌>>◌}
use mwc.Effects.Steady.{
  Ends, pure-Steady, gets-Steady, lift-Steady, fail-Steady, map_err-Steady, if-Steady,
}
use mwc.Wallet.Library.{Library}
use mwc.Wallet.Session.{World, get_wallet_instance}
use mwc.Wallet.Session.Free.{Free, the_wallet, Fair, set_slate-Fair, with_instance-Fair}
use mwc.Wallet.Session.Fair.{in_turn}
use mwc.Wallet.Session.Fair.Changes.{
  invoice_tx-Fair, receive_tx-Fair, tx_lock_outputs-Fair, finalize_tx-Fair,
  finalize_invoice_tx-Fair, post_tx-Fair, verify_slate_messages-Fair,
}
use mwc.Wallet.Session.Methods

module _ {Slate Signature : Type 0} (b : Library Slate Signature) where
  open b use {Transaction, amount, tx}

  -- With the instance, a call whose result becomes another value.
  pub mapped-Fair :
      {A B : Type 0} (m : Action (World b) A) (f : A → B)
      → Fair b m
      → Fair b (get_wallet_instance >> (m >>= λ a. pure (f a)))
  mapped-Fair m f s =
      with_instance-Fair b _ (in_turn b s (λ a. pure-Steady (Free b) (the_wallet b) (f a)))

  pub account_of-Fair :
      {A : Type 0} (f : Bytes → Action (World b) A)
      → ((account : Bytes) → Fair b (f account))
      → Fair b (gets (λ w. w.wallet.active_account) >>= f)
  account_of-Fair f s = in_turn b (gets-Steady (Free b) (the_wallet b) _) s

  pub slate_of-Fair :
      {A : Type 0} (f : Slate → Action (World b) A)
      → ((slate : Slate) → Fair b (f slate))
      → Fair b (gets (λ w. w.slate) >>= f)
  slate_of-Fair f s = in_turn b (gets-Steady (Free b) (the_wallet b) _) s

  pub process_sender_initiated_slate-Fair :
      (address key_id : Option Bytes) (amounts : Option (List ℕ)) (account : Option Bytes)
      → Fair b (Methods.process_sender_initiated_slate address key_id amounts account)
  unfolding Methods.process_sender_initiated_slate
  process_sender_initiated_slate-Fair address key_id amounts account = with_instance-Fair b _ (
      in_turn b
        (map_err-Steady (Free b) (the_wallet b) _ (kind grin_wallet_receive_error)
          (receive_tx-Fair b address none key_id amounts account))
        (λ s. set_slate-Fair b s))

  pay_invoice-Fair : (address : Option Bytes) → Fair b (Methods.pay_invoice address)
  pay_invoice-Fair address = with_instance-Fair b _ (
      account_of-Fair _ (λ account.
        in_turn b (invoice_tx-Fair b (some account) address 10 500 1 false none) (λ paid.
          in_turn b (set_slate-Fair b paid) (λ u.
            with_instance-Fair b _
              (slate_of-Fair _ (λ slate. tx_lock_outputs-Fair b slate address 1))))))

  ok_or-Ends : {A : Type 0} (o : Option A) (e : Error) → Ends (ok_or o e)
  ok_or-Ends none e = tt
  ok_or-Ends (some a) e = tt

  pub process_receiver_initiated_slate-Fair :
      (address : Option Bytes) → Fair b (Methods.process_receiver_initiated_slate address)
  unfolding Methods.process_receiver_initiated_slate
  process_receiver_initiated_slate-Fair address =
      in_turn b (gets-Steady (Free b) (the_wallet b) (λ w. w.wallet.max_auto_accept_invoice))
        (λ most.
          in_turn b
            (lift-Steady (Free b) (the_wallet b) _
              (ok_or-Ends most (kind does_not_accept_invoices)))
            (λ limit. slate_of-Fair _ (λ slate.
              if-Steady (Free b) (the_wallet b) (ltb limit (amount slate))
                (fail-Steady (Free b) (the_wallet b) (kind (invoice_amount_too_big (amount slate))))
                (pay_invoice-Fair address))))

  post_finalized-Fair : (should_post : Bool) → Fair b (Methods.post_finalized should_post)
  post_finalized-Fair should_post =
      if-Steady (Free b) (the_wallet b) should_post
        (slate_of-Fair _ (λ slate.
          map_err-Steady (Free b) (the_wallet b) _ (kind grin_wallet_post_error)
            (post_tx-Fair b (tx slate) false)))
        (pure-Steady (Free b) (the_wallet b) tt)

  verified_slate-Fair : Fair b Methods.verified_slate
  verified_slate-Fair = with_instance-Fair b _ (
      slate_of-Fair _ (λ slate.
        map_err-Steady (Free b) (the_wallet b) _ (kind grin_wallet_verify_slate_messages_error)
          (verify_slate_messages-Fair b slate)))

  pub finalize_slate-Fair : Fair b Methods.finalize_slate
  unfolding Methods.finalize_slate
  finalize_slate-Fair = in_turn b verified_slate-Fair (λ u.
      in_turn b
        (map_err-Steady (Free b) (the_wallet b) _ (kind grin_wallet_finalize_error)
          (finalize_tx-Fair b))
        post_finalized-Fair)

  pub finalize_invoice_slate-Fair : Fair b Methods.finalize_invoice_slate
  unfolding Methods.finalize_invoice_slate
  finalize_invoice_slate-Fair = in_turn b verified_slate-Fair (λ u.
      in_turn b
        (map_err-Steady (Free b) (the_wallet b) _ (kind grin_wallet_finalize_error)
          (finalize_invoice_tx-Fair b))
        post_finalized-Fair)
