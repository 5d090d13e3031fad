-- ===== src/Broker/Grinbox/Order.antt =====
-- The order of the MWCMQ listener's calls (src/broker/grinbox.rs).
use mwc.Prelude.{
  ℕ, suc, ◌+◌, ◌^◌, ◌<◌, ◌≤◌, ◌≡◌, ◌≢◌, refl, ap, inl, inr, Bool, true, false, ◌&&◌, Bool-cases,
  List, [], ◌∷◌, ◌++◌, Option, none, some, Bytes, ◌==◌, length, Outcome, ok, err, panic, diverge,
  arith,
}
use mwc.ErrorKind.{ErrorKind}
use mwc.Contacts.Address.{Crypto, MqAddress}
use mwc.Broker.Calls.{Call, CloseReason, Phase, idle, up, down, closed, InOrder, InOrder-append}
use mwc.Broker.Grinbox.{
  ProtocolResponse, ConnectionMetadata, Connection, Effect, Reached, open_connection, end_round,
  on_slate_read, on_signature, on_response, on_message, on_messages, connect, connected,
  subscribe_loop, subscribe, close_reason,
}
use mwc.Proof.Cipher.{Cipher}
use mwc.Proof.Message.{sign_challenge}
use mwc.Proof.Evidence.{TxProof}

-- The calls among the effects.
abbrev pub calls_of : {Slate : Type 0} → List (Effect Slate) → List (Call Slate)
calls_of [] = []
calls_of (Effect.calls k ∷ es) = k ∷ calls_of es
calls_of (Effect.subscribes a s ∷ es) = calls_of es
calls_of (Effect.sleeps n ∷ es) = calls_of es

calls_of-append :
    {Slate : Type 0} (es fs : List (Effect Slate))
    → calls_of (es ++ fs) ≡ calls_of es ++ calls_of fs
calls_of-append [] fs = refl
calls_of-append (Effect.calls k ∷ es) fs = ap (λ t. k ∷ t) (calls_of-append es fs)
calls_of-append (Effect.subscribes a s ∷ es) fs = calls_of-append es fs
calls_of-append (Effect.sleeps n ∷ es) fs = calls_of-append es fs

-- The effects' calls are in order.
abbrev pub Ordered : {Slate : Type 0} → Phase → List (Effect Slate) → Phase → Type 0
Ordered p es q = InOrder p (calls_of es) q

Ordered-append :
    {Slate : Type 0} {p q r : Phase} (es fs : List (Effect Slate))
    → Ordered p es q
    → Ordered q fs r
    → Ordered p (es ++ fs) r
Ordered-append es fs g h = rw (calls_of-append es fs) (InOrder-append g h)

-- The phase that the metadata stands for between two rounds, the retries being at most some number.
pub data Between : ConnectionMetadata → Phase → ℕ → Type 0 where
  never :
      {r n : ℕ} → r ≤ n → Between (record { retries = r; connected_at_least_once = false }) idle n
  lost :
      {r n : ℕ}
      → 0 < r
      → r ≤ n
      → Between (record { retries = r; connected_at_least_once = true }) down n

-- How the listener stands: in its loop or in a panic, without a close, or ended by it.
pub data Stands : Reached → Phase → Type 0 where
  loops : {p : Phase} → p ≢ closed → Stands Reached.in_loop p
  breaks : {p : Phase} → p ≢ closed → Stands Reached.panicked p
  ends : Stands Reached.ended closed

-- The phase in a round behind the connection.
data During : ConnectionMetadata → Phase → ℕ → Type 0 where
  fresh : {n : ℕ} → During (record { retries = 0; connected_at_least_once = true }) up n
  waiting : {m : ConnectionMetadata} {p : Phase} {n : ℕ} → Between m p n → During m p n

not_closed : (m : ConnectionMetadata) (p : Phase) (n : ℕ) → During m p n → p ≢ closed
not_closed _ _ n During.fresh = cc
not_closed _ _ n (During.waiting (Between.never h)) = cc
not_closed _ _ n (During.waiting (Between.lost h k)) = cc

may_close :
    {Slate : Type 0} (r : CloseReason) (m : ConnectionMetadata) (p : Phase) (n : ℕ)
    → During m p n
    → Ordered {Slate = Slate} p (Effect.calls (Call.on_close r) ∷ []) closed
may_close r _ _ n During.fresh = InOrder.call refl InOrder.done
may_close r _ _ n (During.waiting (Between.never h)) = InOrder.call refl InOrder.done
may_close r _ _ n (During.waiting (Between.lost h k)) = InOrder.call refl InOrder.done

and_false : (b : Bool) → (b && false) ≡ false
and_false true = refl
and_false false = refl

-- The end of a round keeps the phase, or makes an open connection a dropped one.
end_round-Ordered :
    {Slate : Type 0} (m : ConnectionMetadata) (p : Phase) (n : ℕ)
    → suc n < 2 ^ 32
    → During m p n
    → (q : Phase) × Ordered {Slate = Slate} p (end_round m).0 q
      × Between (end_round {Slate = Slate} m).1 q (suc n)
unfolding end_round
end_round-Ordered _ _ n h During.fresh =
    (down, InOrder.call refl InOrder.done, Between.lost (omega arith) (omega arith))
end_round-Ordered _ _ n h (During.waiting (Between.never {r} le)) =
    rw (and_false (r == 0)) (idle, InOrder.done, Between.never (omega arith))
end_round-Ordered _ _ n h (During.waiting (Between.lost {r} pos le)) =
    let no_drop : (r == 0) ≡ false = ground arith in
    rw no_drop (down, InOrder.done, Between.lost (omega arith) (omega arith))

module _ (c : Crypto) (x : Cipher c) (parse_response : Bytes → Option ProtocolResponse)
    (address : MqAddress) (secret_key : Cipher.SecretKey x) where
  open x use {Slate}

  on_slate_read-Ordered :
      (r : Outcome ErrorKind (Slate × TxProof (Cipher.Signature x)))
      → Ordered up (on_slate_read c x parse_response address secret_key r).0 up
  unfolding on_slate_read
  on_slate_read-Ordered (ok (slate, tx_proof)) = InOrder.call refl InOrder.done
  on_slate_read-Ordered (err e) = InOrder.done
  on_slate_read-Ordered panic = InOrder.done
  on_slate_read-Ordered diverge = InOrder.done

  on_signature-Ordered :
      (s : Option (Cipher.Signature x))
      → Ordered up (on_signature c x parse_response address secret_key s).0 up
  unfolding on_signature
  on_signature-Ordered none = InOrder.done
  on_signature-Ordered (some s) = InOrder.done

  on_response-Ordered :
      (r : Option ProtocolResponse)
      → Ordered up (on_response c x parse_response address secret_key r).0 up
  unfolding on_response
  on_response-Ordered none = InOrder.done
  on_response-Ordered (some ProtocolResponse.response_ok) = InOrder.done
  on_response-Ordered (some ProtocolResponse.response_error) = InOrder.done
  on_response-Ordered (some (ProtocolResponse.response_challenge str)) =
      on_signature-Ordered (sign_challenge c x str secret_key)
  on_response-Ordered (some (ProtocolResponse.response_slate from str signature challenge)) =
      on_slate_read-Ordered _

  on_messages-Ordered :
      (msgs : List Bytes) → Ordered up (on_messages c x parse_response address secret_key msgs).0 up
  unfolding on_messages on_message
  on_messages-Ordered [] = InOrder.done
  on_messages-Ordered (msg ∷ msgs) =
      let first = on_response-Ordered (parse_response msg) in
      elim (Bool-cases (on_response c x parse_response address secret_key (parse_response msg)).1) [
        | inl fine ↦ rw fine (
            Ordered-append
              (on_response c x parse_response address secret_key (parse_response msg)).0
              (on_messages c x parse_response address secret_key msgs).0 first
              (on_messages-Ordered msgs))
        | inr broken ↦ rw broken first
      ]

  opened :
      (m : ConnectionMetadata) (p : Phase) (n : ℕ) (msgs : List Bytes)
      → Between m p n
      → (q : Phase) × Ordered p
          ((open_connection m).0 ++ (on_messages c x parse_response address secret_key msgs).0)
          q
        × During (open_connection {Slate = Slate} m).1 q n
  unfolding open_connection
  opened _ _ n msgs (Between.never h) =
      (up, InOrder.call refl (on_messages-Ordered msgs), During.fresh)
  opened _ _ n msgs (Between.lost h k) =
      (up, InOrder.call refl (on_messages-Ordered msgs), During.fresh)

  connect-Ordered :
      (m : ConnectionMetadata) (p : Phase) (n : ℕ) (k : Connection)
      → Between m p n
      → (q : Phase) × Ordered p (connect c x parse_response address secret_key m k).0 q
        × During (connected c x parse_response address secret_key m k) q n
  unfolding connect connected open_connection
  connect-Ordered m p n k between = elim (Bool-cases k.opened) [
    | inr refused ↦ rw refused (p, InOrder.done, During.waiting between)
    | inl open' ↦ rw open' (opened m p n k.messages between)
  ]

  subscribe_loop-Ordered :
      (m : ConnectionMetadata) (p : Phase) (n : ℕ) (ks : List Connection)
      → Between m p n
      → n + length ks < 2 ^ 32
      → (q : Phase) × Ordered p (subscribe_loop c x parse_response address secret_key m ks).0 q
        × Stands (subscribe_loop c x parse_response address secret_key m ks).1 q
  unfolding subscribe_loop connect connected
  subscribe_loop-Ordered m p n [] between h =
      (p, InOrder.done, Stands.loops (not_closed m p n (During.waiting between)))
  subscribe_loop-Ordered m p n (k ∷ ks) between h =
      let (q, order, during) = connect-Ordered m p n k between in
      let m' = connected c x parse_response address secret_key m k in
      let done = connect c x parse_response address secret_key m k in
      let (r, order', between') = end_round-Ordered {Slate = Slate} m' q n (omega arith) during in
      let (s, order'', stands) =
        subscribe_loop-Ordered (end_round {Slate = Slate} m').1 r (suc n) ks between'
          (omega arith) in
      let rest =
        subscribe_loop c x parse_response address secret_key (end_round {Slate = Slate} m').1 ks in
      elim (Bool-cases done.1) [
        | inr broken ↦ rw broken (q, order, Stands.breaks (not_closed m' q n during))
        | inl fine ↦ elim (Bool-cases k.stopped) [
          | inl told ↦
              rw (fine, told)
                (
                  closed,
                  Ordered-append done.0 _ order (may_close (close_reason k) m' q n during),
                  Stands.ends,
                )
          | inr live ↦
              rw (fine, live)
                (
                  s,
                  Ordered-append done.0 ((end_round m').0 ++ rest.0) order
                      (Ordered-append (end_round m').0 rest.0 order' order''),
                  stands,
                )
        ]
      ]

  -- In fewer than 2 ^ 32 connections, whatever they do, the calls of the MWCMQ listener are in order: it
  -- opens once, slates come only while it is up, it drops and is reestablished in turn, and nothing
  -- follows the close. It closes where its loop ends, and only there.
  pub subscribe-Ordered :
      (ks : List Connection)
      → length ks < 2 ^ 32
      → (q : Phase) × Ordered idle (subscribe c x parse_response address secret_key ks).0 q
        × Stands (subscribe c x parse_response address secret_key ks).1 q
  unfolding subscribe
  subscribe-Ordered ks h =
      subscribe_loop-Ordered (record { retries = 0; connected_at_least_once = false }) idle 0 ks
        (Between.never (omega arith)) (omega arith)
