-- ===== src/Broker/Calls.antt =====
-- The `SubscriptionHandler` of src/broker/types.rs: its calls, and the order that a handler can rely on.
use mwc.Prelude.{◌≡◌, List, [], ◌∷◌, ◌++◌, Option, none, some, Bytes}
use mwc.ErrorKind.{Error}

pub data CloseReason : Type 0 where
  normal : CloseReason
  abnormal : Error → CloseReason

-- A call of the handler, with the sender's address of a slate.
pub data Call (Slate : Type 0) : Type 0 where
  on_open : Call Slate
  on_slate : Bytes → Slate → Call Slate
  on_close : CloseReason → Call Slate
  on_dropped : Call Slate
  on_reestablished : Call Slate

pub data Phase : Type 0 where
  idle up down closed : Phase

-- The phase after a call, where the call is in order.
abbrev pub next_phase : {Slate : Type 0} → Phase → Call Slate → Option Phase
next_phase idle on_open = some up
next_phase idle (on_close r) = some closed
next_phase up (on_slate from slate) = some up
next_phase up on_dropped = some down
next_phase up (on_close r) = some closed
next_phase down on_reestablished = some up
next_phase down (on_close r) = some closed
next_phase p c = none

-- The phase after a list of calls, all in order.
pub data InOrder {Slate : Type 0} : Phase → List (Call Slate) → Phase → Type 0 where
  done : {p : Phase} → InOrder p [] p
  call :
      {p q r : Phase} {c : Call Slate} {cs : List (Call Slate)}
      → next_phase p c ≡ some q
      → InOrder q cs r
      → InOrder p (c ∷ cs) r

pub InOrder-append :
    {Slate : Type 0} {p q r : Phase} {cs ds : List (Call Slate)}
    → InOrder p cs q
    → InOrder q ds r
    → InOrder p (cs ++ ds) r
InOrder-append done h = h
InOrder-append (call e g) h = InOrder.call e (InOrder-append g h)
