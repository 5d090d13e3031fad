-- ===== src/Broker/Keybase/Order.antt =====
-- The order of the Keybase listener's calls, and how its loop can end.
use mwc.Prelude.{
  ◌≡◌, ◌≢◌, refl, true, false, inl, inr, Bool-cases, Option-cases, List, [], ◌∷◌, ◌++◌, Option,
  none, some, Bytes, if◌then◌else◌,
}
use mwc.Broker.Calls.{
  Call, CloseReason, normal, Phase, idle, up, down, closed, next_phase, InOrder, InOrder-append,
}
use mwc.Broker.Keybase.{Unread, Round, Listener, Next, deliver, poll, rounds, start}

-- The phase that the listener's flags stand for.
data Reads : Listener → Phase → Type 0 where
  reads_idle : Reads (record { subscribed = false; dropped = false }) idle
  reads_up : Reads (record { subscribed = true; dropped = false }) up
  reads_down : Reads (record { subscribed = true; dropped = true }) down

-- How the loop stands after some rounds: still running, ended with its last call, or left in the
-- middle of a session by a message that is no slate, without a last call.
pub data Ends : Option Next → Phase → Type 0 where
  running : {p : Phase} → p ≢ closed → Ends none p
  stopped : (r : CloseReason) → Ends (some (Next.stop r)) closed
  raised : Ends (some Next.raise) up

closes :
    {Slate : Type 0} (c : Call Slate) (r : CloseReason) (l : Listener) (p : Phase)
    → c ≡ Call.on_close r
    → Reads l p
    → next_phase p c ≡ some closed
closes c r l _ e Reads.reads_idle = rw e refl
closes c r l _ e Reads.reads_up = rw e refl
closes c r l _ e Reads.reads_down = rw e refl

open_phase : (l : Listener) (p : Phase) → Reads l p → p ≢ closed
open_phase l _ Reads.reads_idle = cc
open_phase l _ Reads.reads_up = cc
open_phase l _ Reads.reads_down = cc

module _ {Slate : Type 0} (deserialize_upgrade : Bytes → Option Slate) where
  deliver-InOrder : (ms : List Unread) → InOrder up (deliver deserialize_upgrade ms).0 up
  unfolding deliver
  deliver-InOrder [] = InOrder.done
  deliver-InOrder (m ∷ ms) = elim (Option-cases (deserialize_upgrade m.msg)) [
    | inl broken ↦ rw (broken, deliver) InOrder.done
    | inr (slate, fine) ↦ rw (fine, deliver) (InOrder.call refl (deliver-InOrder ms))
  ]

  -- What a poll does: its calls are in order, and its flags stand for the phase.
  data Polled (p : Phase) : List (Call Slate) × Next → Type 0 where
    goes_on :
        {cs : List (Call Slate)} (l : Listener) (q : Phase)
        → Reads l q
        → InOrder p cs q
        → Polled p (cs, Next.again l)
    gives_up : (r : CloseReason) → p ≡ idle → Polled p ([], Next.stop r)
    breaks : {cs : List (Call Slate)} → InOrder p cs up → Polled p (cs, Next.raise)

  delivered :
      (p : Phase) (front : List (Call Slate)) (ms : List Unread)
      → InOrder p front up
      → Polled p (
        front ++ (deliver deserialize_upgrade ms).0,
        (if (deliver deserialize_upgrade ms).1
            then Next.again (record { subscribed = true; dropped = false })
            else Next.raise),
      )
  delivered p front ms h = elim (Bool-cases (deliver deserialize_upgrade ms).1) [
    | inl fine ↦
        rw fine (Polled.goes_on _ up Reads.reads_up (InOrder-append h (deliver-InOrder ms)))
    | inr broken ↦ rw broken (Polled.breaks (InOrder-append h (deliver-InOrder ms)))
  ]

  poll-Polled :
      (l : Listener) (p : Phase) (unread : Option (List Unread))
      → Reads l p
      → Polled p (poll deserialize_upgrade l unread)
  unfolding poll
  poll-Polled l _ (some ms) Reads.reads_idle =
      delivered idle (Call.on_open ∷ []) ms (InOrder.call refl InOrder.done)
  poll-Polled l _ (some ms) Reads.reads_up = delivered up [] ms InOrder.done
  poll-Polled l _ (some ms) Reads.reads_down =
      delivered down (Call.on_reestablished ∷ []) ms (InOrder.call refl InOrder.done)
  poll-Polled l _ none Reads.reads_idle = Polled.gives_up _ refl
  poll-Polled l _ none Reads.reads_up =
      Polled.goes_on _ down Reads.reads_down (InOrder.call refl InOrder.done)
  poll-Polled l _ none Reads.reads_down = Polled.goes_on l down Reads.reads_down InOrder.done

  -- The run of the rounds from a phase on.
  abbrev Runs : Phase → List (Call Slate) × Option Next → Type 0
  Runs p run = (q : Phase) × InOrder p run.0 q × Ends run.1 q

  after_poll :
      (p : Phase) (polled : List (Call Slate) × Next)
      (rest : Listener → List (Call Slate) × Option Next)
      → Polled p polled
      → ((l : Listener) (q : Phase) → Reads l q → Runs q (rest l))
      → Runs p (elim polled.1 [
        | Next.again l ↦ (polled.0 ++ (rest l).0, (rest l).1)
        | Next.stop reason ↦ (polled.0 ++ Call.on_close reason ∷ [], some (Next.stop reason))
        | Next.raise ↦ (polled.0, some Next.raise)
      ])
  after_poll p _ rest (Polled.goes_on l q reads order) h =
      let (end, order', how) = h l q reads in (end, InOrder-append order order', how)
  after_poll p _ rest (Polled.gives_up r e) h =
      (closed, rw e (InOrder.call (refl) InOrder.done), Ends.stopped r)
  after_poll p _ rest (Polled.breaks order) h = (up, order, Ends.raised)

  rounds-InOrder :
      (l : Listener) (p : Phase) (rs : List Round)
      → Reads l p
      → Runs p (rounds deserialize_upgrade l rs)
  unfolding rounds
  rounds-InOrder l p [] reads = (p, InOrder.done, Ends.running (open_phase l p reads))
  rounds-InOrder l p (r ∷ rs) reads = elim (Bool-cases r.stop_signal) [
    | inl told ↦
        rw told
          (closed, InOrder.call (closes _ normal l p refl reads) InOrder.done, Ends.stopped normal)
    | inr live ↦ rw live (
        after_poll p (poll deserialize_upgrade l r.unread) (λ l'. rounds deserialize_upgrade l' rs)
          (poll-Polled l p r.unread reads) (λ l' q reads'. rounds-InOrder l' q rs reads'))
  ]

  -- In all rounds the calls of the Keybase listener are in order: it opens once, slates come only while
  -- it is up, it drops and is reestablished in turn, and nothing follows the close. It closes if the
  -- loop ends, except where a message is no slate: then `start` is left while it is up.
  pub start-InOrder :
      (rs : List Round)
      → (q : Phase) × InOrder idle (start deserialize_upgrade rs).0 q
        × Ends (start deserialize_upgrade rs).1 q
  unfolding start
  start-InOrder rs = rounds-InOrder _ idle rs Reads.reads_idle
