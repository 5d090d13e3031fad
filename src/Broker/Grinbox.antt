-- ===== src/Broker/Grinbox.antt =====
-- The MWCMQ listener of src/broker/grinbox.rs. What the web socket library does in a connection is
-- given: whether it opens, its messages, how it ends, and whether the broker was stopped in it.
pub mod Backoff
pub mod Order
use mwc.Prelude.{
  ℕ, zero, suc, ◌+◌, ◌%◌, ◌^◌, min, Bool, true, false, not, ◌&&◌, List, [], ◌∷◌, ◌++◌, Option, none,
  some, Bytes, ◌==◌, if◌then◌else◌, Outcome, ok, err, panic, diverge,
}
use mwc.ErrorKind.{ErrorKind, Error, kind, grinbox_websocket_abnormal_termination}
use mwc.Codec.Hex.{to_hex}
use mwc.Contacts.Address.{Crypto, MqAddress, grinbox, to_string}
use mwc.Broker.Calls.{
  Call, on_open, on_slate, on_close, on_dropped, on_reestablished, CloseReason, normal, abnormal,
}
use mwc.Proof.Cipher.{Cipher}
use mwc.Proof.Message.{sign_challenge}
use mwc.Proof.Evidence.{TxProof, from_response}

-- `ProtocolResponse`; an error's kind and description are only printed.
pub data ProtocolResponse : Type 0 where
  response_ok response_error : ProtocolResponse
  response_challenge : Bytes → ProtocolResponse
  response_slate : Bytes → Bytes → Bytes → Bytes → ProtocolResponse

pub record ConnectionMetadata : Type 0 where
  pub retries : ℕ
  pub connected_at_least_once : Bool

-- One `connect`.
pub record Connection : Type 0 where
  pub opened : Bool
  pub messages : List Bytes
  pub failed : Bool
  pub stopped : Bool

-- What the listener does: it calls the handler, sends a subscription, or sleeps some seconds.
pub data Effect (Slate : Type 0) : Type 0 where
  calls : Call Slate → Effect Slate
  subscribes : Bytes → Bytes → Effect Slate
  sleeps : ℕ → Effect Slate

-- How far it got: still in the loop, behind it, or into a panic.
pub data Reached : Type 0 where
  in_loop ended panicked : Reached

-- `std::cmp::min(32, 2u64.pow(guard.retries))`
pub backoff : ℕ → ℕ
backoff retries = min 32 (2 ^ retries % 2 ^ 64)

abbrev pub close_reason : Connection → CloseReason
close_reason n = if n.failed then abnormal (kind grinbox_websocket_abnormal_termination) else normal

module _ {Slate : Type 0} where
  -- `GrinboxClient::on_open`
  pub open_connection : ConnectionMetadata → List (Effect Slate) × ConnectionMetadata
  open_connection m = (
    calls (if m.connected_at_least_once then on_reestablished else on_open) ∷ [],
    record { retries = 0; connected_at_least_once = true },
  )

  -- The end of a round that was not stopped.
  pub end_round : ConnectionMetadata → List (Effect Slate) × ConnectionMetadata
  unfolding backoff
  end_round m = (
    (if m.retries == 0 && m.connected_at_least_once then calls on_dropped ∷ [] else [])
        ++ sleeps (backoff m.retries) ∷ [],
    record m { retries = (m.retries + 1) % 2 ^ 32 },
  )

module _ (c : Crypto) (x : Cipher c) (parse_response : Bytes → Option ProtocolResponse) where
  open x use {SecretKey, Signature, Slate, serialize_der}

  -- The address and the key that the listener subscribes with.
  module _ (address : MqAddress) (secret_key : SecretKey) where
    -- What `on_message` does with a slate, with `false` for a panic.
    pub on_slate_read : Outcome ErrorKind (Slate × TxProof Signature) → List (Effect Slate) × Bool
    on_slate_read (ok (slate, tx_proof)) =
        (calls (on_slate (to_string grinbox tx_proof.address) slate) ∷ [], true)
    on_slate_read (err e) = ([], true)
    on_slate_read panic = ([], false)
    on_slate_read diverge = ([], false)

    pub on_signature : Option Signature → List (Effect Slate) × Bool
    on_signature none = ([], false)
    on_signature (some signature) =
        (subscribes address.public_key (to_hex (serialize_der signature)) ∷ [], true)

    pub on_response : Option ProtocolResponse → List (Effect Slate) × Bool
    unfolding on_slate_read on_signature
    on_response none = ([], true)
    on_response (some response_ok) = ([], true)
    on_response (some response_error) = ([], true)
    on_response (some (response_challenge str)) = on_signature (sign_challenge c x str secret_key)
    on_response (some (response_slate from str signature challenge)) =
        on_slate_read (from_response c x from str challenge signature secret_key (some address))

    -- `on_message`. (The challenge that it keeps is never read.)
    pub on_message : Bytes → List (Effect Slate) × Bool
    unfolding on_response
    on_message msg = on_response (parse_response msg)

    pub on_messages : List Bytes → List (Effect Slate) × Bool
    unfolding on_message
    on_messages [] = ([], true)
    on_messages (msg ∷ msgs) =
        if (on_message msg).1
        then ((on_message msg).0 ++ (on_messages msgs).0, (on_messages msgs).1)
        else ((on_message msg).0, false)

    -- What a connection does before it ends.
    pub connect : ConnectionMetadata → Connection → List (Effect Slate) × Bool
    unfolding open_connection on_messages
    connect m n =
        if n.opened
        then ((open_connection m).0 ++ (on_messages n.messages).0, (on_messages n.messages).1)
        else ([], true)

    -- The metadata behind it.
    pub connected : ConnectionMetadata → Connection → ConnectionMetadata
    unfolding open_connection
    connected m n = if n.opened then (open_connection {Slate = Slate} m).1 else m

    -- The loop of `subscribe` over the given connections.
    pub subscribe_loop : ConnectionMetadata → List Connection → List (Effect Slate) × Reached
    subscribe_loop m [] = ([], in_loop)
    subscribe_loop m (n ∷ ns) =
        let done = connect m n in
        let ending = end_round (connected m n) in
        let rest = subscribe_loop ending.1 ns in
        if not done.1
        then (done.0, panicked)
        else if n.stopped
        then (done.0 ++ calls (on_close (close_reason n)) ∷ [], ended)
        else (done.0 ++ (ending.0 ++ rest.0), rest.1)

    pub subscribe : List Connection → List (Effect Slate) × Reached
    unfolding subscribe_loop
    subscribe ns = subscribe_loop (record { retries = 0; connected_at_least_once = false }) ns
