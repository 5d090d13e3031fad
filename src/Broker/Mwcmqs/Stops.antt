-- ===== src/Broker/Mwcmqs/Stops.antt =====
-- The MWCMQS listener ends once it is stopped (src/broker/mwcmq.rs).
use mwc.Prelude.{
  ℕ, ◌≡◌, ◌≢◌, refl, ap, ◌⊎◌, inl, inr, Bool, true, false, ◌||◌, List, [], ◌∷◌, ◌++◌, Option, none,
  some, Bytes,
}
use mwc.Contacts.Address.{Crypto, MqAddress, unwrap_or}
use mwc.Proof.Cipher.{Cipher}
use mwc.Proof.Message.{sign_challenge}
use mwc.Broker.Mwcmqs.Message.{Action, Going, further, leaving, crashing}
use mwc.Broker.Mwcmqs.Poll.{
  Round, Polling, Reached, in_loop, ended, Site, Step, poll, then_rounds, rounds, start, subscribe,
  starting, site_of,
}

or_true : (b : Bool) → (b || true) ≡ true
or_true true = refl
or_true false = refl

module _ (c : Crypto) (x : Cipher c) (own : Option MqAddress) where
  open x use {SecretKey, Signature, Slate}

  abbrev pub Run : Type 0
  Run = List (Action Slate) × Reached

  -- A run with the broker stopped in the round behind it, against the run up to that round.
  abbrev pub Halts : Run → Run → Type 0
  Halts whole front =
      (whole.0 ≡ front.0)
      × (((front.1 ≡ in_loop) × (whole.1 ≡ ended)) ⊎ ((front.1 ≢ in_loop) × (whole.1 ≡ front.1)))

  module _ (site : Site) (secret_key : SecretKey) where
    then_rounds-Halts :
        (step : Step c x own) (f g : Polling → Run) (k : Going)
        → ((s : Polling) → Halts (f s) (g s))
        → Halts
            (then_rounds c x own site secret_key step f k)
            (then_rounds c x own site secret_key step g k)
    then_rounds-Halts step f g further h =
        let halts = h step.after in (ap (λ rest. step.actions ++ rest) halts.0, halts.1)
    then_rounds-Halts step f g leaving h = (refl, inr (λ e. cc, refl))
    then_rounds-Halts step f g crashing h = (refl, inr (λ e. cc, refl))

    rounds-Halts :
        (front : List Round) (r : Round) (rest : List Round)
        → r.stopped ≡ true
        → (s : Polling)
        → Halts
            (rounds c x own site secret_key s (front ++ r ∷ rest))
            (rounds c x own site secret_key s front)
    unfolding rounds poll
    rounds-Halts [] r rest h s = rw (h, or_true s.link.is_error) (refl, inl (refl, refl))
    rounds-Halts (q ∷ front) r rest h s =
        then_rounds-Halts (poll c x own site secret_key s q) _ _ _ (rounds-Halts front r rest h)

  start-Halts :
      (debug_signature : Signature → Bytes) (domain : Bytes) (port : ℕ) (address : MqAddress)
      (secret_key : SecretKey) (front : List Round) (r : Round) (rest : List Round)
      (time : Option Bytes) (signature : Option Signature)
      → r.stopped ≡ true
      → Halts
          (start c x own debug_signature domain port address secret_key
            (front ++ r ∷ rest)
            time
            signature)
          (start c x own debug_signature domain port address secret_key front time signature)
  unfolding start
  start-Halts d domain port address secret_key front r rest time none h =
      (refl, inr (λ e. cc, refl))
  start-Halts d domain port address secret_key front r rest none (some s) h =
      (refl, inr (λ e. cc, refl))
  start-Halts d domain port address secret_key front r rest (some t) (some s) h =
      let site = site_of c x own d domain port address t s in
      rounds-Halts site secret_key front r rest h (starting site)

  -- Where a round begins with the broker stopped, the listener has done by its end just what it did in
  -- the rounds before: that round adds no request, no call of the handler and no sleep, and the rounds
  -- behind it add nothing. If it was still in its loop it ends in that round; otherwise it has ended
  -- before, as it had.
  pub subscribe_stops :
      (debug_signature : Signature → Bytes) (domain : Bytes) (port : ℕ) (address : MqAddress)
      (secret_key : SecretKey) (time : Option Bytes) (front : List Round) (r : Round)
      (rest : List Round)
      → r.stopped ≡ true
      → Halts
          (subscribe c x own debug_signature domain port address secret_key time
            (front ++ r ∷ rest))
          (subscribe c x own debug_signature domain port address secret_key time front)
  unfolding subscribe
  subscribe_stops d domain port address secret_key time front r rest h =
      start-Halts d domain port address secret_key front r rest time
        (sign_challenge c x (unwrap_or time []) secret_key) h
