-- ===== src/Broker/Keybase.antt =====
-- The Keybase listener of src/broker/keybase.rs. What its loop sees of the world in a round, the stop
-- signal and the answer of the Keybase process, is given.
pub mod Order
use mwc.Prelude.{
  Bool, true, false, not, ◌&&◌, List, [], ◌∷◌, ◌++◌, Option, none, some, Bytes, codes, bytes_eq,
  if◌then◌else◌,
}
use mwc.ErrorKind.{Error, kind, keybase_not_found}
use mwc.Broker.Calls.{
  Call, on_open, on_slate, on_close, on_dropped, on_reestablished, CloseReason, normal, abnormal,
}
use mwc.Contacts.Address.{KeybaseAddress}
use mwc.Contacts.Dispatch.{keybase_to_string}

abbrev pub topic_wallet713_slates : Bytes
topic_wallet713_slates = codes "wallet713_grin_slate"

abbrev pub topic_slate_new : Bytes
topic_slate_new = codes "grin_slate_new"

abbrev pub topic_slate_signed : Bytes
topic_slate_signed = codes "grin_slate_signed"

-- `(sender, topic, msg)`
pub record Unread : Type 0 where
  pub sender : Bytes
  pub topic : Bytes
  pub msg : Bytes

-- A round: the stop signal as it is read, and what `get_unread` gives, where `none` is an error.
pub record Round : Type 0 where
  pub stop_signal : Bool
  pub unread : Option (List Unread)

pub record Listener : Type 0 where
  pub subscribed : Bool
  pub dropped : Bool

-- How the loop goes on: with the next round, to its end, or by `?` out of `start`.
pub data Next : Type 0 where
  again : Listener → Next
  stop : CloseReason → Next
  raise : Next

pub reply_topic : Bytes → Bytes
reply_topic topic =
    if bytes_eq topic topic_slate_new then topic_slate_signed else topic_wallet713_slates

-- `Slate::deserialize_upgrade` is not under src/.
module _ {Slate : Type 0} (deserialize_upgrade : Bytes → Option Slate) where
  -- The calls for the unread messages, and whether all of them could be read.
  pub deliver : List Unread → List (Call Slate) × Bool
  unfolding reply_topic
  deliver [] = ([], true)
  deliver (m ∷ ms) = elim (deserialize_upgrade m.msg) [
    | none ↦ ([], false)
    | some slate ↦
        let address : KeybaseAddress = record {
          username = m.sender;
          topic = some (reply_topic m.topic);
        } in
        (on_slate (keybase_to_string address) slate ∷ (deliver ms).0, (deliver ms).1)
  ]

  -- The body of the loop behind the stop signal.
  pub poll : Listener → Option (List Unread) → List (Call Slate) × Next
  unfolding deliver
  poll l (some unread) =
      let opened = if l.subscribed then [] else on_open ∷ [] in
      let restored = if l.dropped then on_reestablished ∷ [] else [] in
      let delivered = deliver unread in
      (
        opened ++ (restored ++ delivered.0),
        if delivered.1 then again (record { subscribed = true; dropped = false }) else raise,
      )
  poll l none =
      if l.dropped
      then ([], again l)
      else if l.subscribed
      then (on_dropped ∷ [], again (record l { dropped = true }))
      else ([], stop (abnormal (kind keybase_not_found)))

  -- The calls of the loop in the given rounds, and how it ended, if it did.
  pub rounds : Listener → List Round → List (Call Slate) × Option Next
  unfolding poll
  rounds l [] = ([], none)
  rounds l (r ∷ rs) =
      if r.stop_signal
      then (on_close normal ∷ [], some (stop normal))
      else elim (poll l r.unread).1 [
        | again l' ↦ ((poll l r.unread).0 ++ (rounds l' rs).0, (rounds l' rs).1)
        | stop reason ↦ ((poll l r.unread).0 ++ on_close reason ∷ [], some (stop reason))
        | raise ↦ ((poll l r.unread).0, some raise)
      ]

  -- `start`
  pub start : List Round → List (Call Slate) × Option Next
  unfolding rounds
  start rs = rounds (record { subscribed = false; dropped = false }) rs
