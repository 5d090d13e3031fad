-- ===== src/Broker/Mwcmqs/Honest.antt =====
-- What the MWCMQS listener hands to its handler (src/broker/mwcmq.rs).
use mwc.Prelude.{
  ℕ, ◌≡◌, refl, ap, inl, inr, true, ◌||◌, List, [], ◌∷◌, Option, none, some, Option-cases,
  Bool-cases, Bytes, codes, All, All-append, starts_with, contains, length, ◌==◌, Outcome, ok, err,
  panic, diverge,
}
use mwc.ErrorKind.{ErrorKind}
use mwc.Contacts.Address.{Crypto, MqAddress, mwcmqs, from_str, to_string, unwrap_or}
use mwc.Contacts.Address.SameKey.{from_str_same_key}
use mwc.Broker.Calls.{on_open, on_slate, on_close, on_dropped, on_reestablished}
use mwc.Proof.Cipher.{Cipher}
use mwc.Proof.Message.{sign_challenge}
use mwc.Proof.Evidence.{TxProof, from_response}
use mwc.Proof.Checks.{Checked, from_response-Received}
use mwc.Broker.Mwcmqs.Reply.{Reading, messages, nginx, closed, ours, unknown, read_reply}
use mwc.Broker.Mwcmqs.Message.{
  Link, Action, asks, calls, sleeps, Going, further, leaving, crashing, Turn, Handled, delivered,
  skipped, faulty, crashed, unescape, handle_sender, handle_response, handle, value_of, on_handled,
  then_texts, walk, on_parts, on_text, on_texts, is_close, is_nil, parts_of,
}
use mwc.Broker.Mwcmqs.Poll.{
  Answer, refused, unreadable, replied, Round, Polling, Reached, Site, Step, on_reading, on_answer,
  poll, then_rounds, rounds, site_of, start, subscribe, starting, timed_out, in_round,
}

module _ (c : Crypto) (x : Cipher c) where
  open x use {SecretKey, Signature, Slate}

  -- The slate comes with a proof that has been checked, for our own address, and is signed by the key
  -- of the address that the handler is given.
  pub record Genuine (own : MqAddress) (from : Bytes) (slate : Slate) : Type 0 where
    pub address : MqAddress
    pub p : TxProof Signature
    pub destination : Option MqAddress
    pub named : from ≡ to_string mwcmqs address
    pub signer : p.address.public_key ≡ address.public_key
    pub checked : Checked c x p (some own) destination slate

  -- The handler gets genuine slates, and no other calls.
  abbrev pub Honest : Option MqAddress → Action Slate → Type 0
  Honest own (asks secs url) = Unit
  Honest own (sleeps ms) = Unit
  Honest own (calls (on_slate from slate)) =
      (address : MqAddress) × (own ≡ some address) × Genuine address from slate
  Honest own (calls on_open) = ⊥
  Honest own (calls (on_close r)) = ⊥
  Honest own (calls on_dropped) = ⊥
  Honest own (calls on_reestablished) = ⊥

  abbrev handled : MqAddress → Slate → Handled Slate
  handled a s = delivered a s

  abbrev response : Slate → TxProof Signature → Outcome ErrorKind (Slate × TxProof Signature)
  response s p = ok (s, p)

  handle_sender-delivered :
      (m : Outcome ErrorKind MqAddress) (slate : Slate) {a : MqAddress} {s : Slate}
      → handle_sender c x m slate ≡ handled a s
      → (m ≡ ok a) × (slate ≡ s)
  handle_sender-delivered (ok a) slate h = (cc, cc)
  handle_sender-delivered (err e) slate h = cc
  handle_sender-delivered panic slate h = cc
  handle_sender-delivered diverge slate h = cc

  handle_response-delivered :
      (from : Bytes) (m : Outcome ErrorKind (Slate × TxProof Signature)) {a : MqAddress} {s : Slate}
      → handle_response c x from m ≡ handled a s
      → (p : TxProof Signature) × (m ≡ response s p) × (from_str c mwcmqs from ≡ ok a)
  handle_response-delivered from (ok (slate, p)) {a} {s} h =
      let (read, same) = handle_sender-delivered (from_str c mwcmqs from) slate h in
      (p, ap (λ s. response s p) same, read)
  handle_response-delivered from (err e) h = cc
  handle_response-delivered from panic h = cc
  handle_response-delivered from diverge h = cc

  module _ (own : Option MqAddress) (secret_key : SecretKey) where
    handle-Genuine :
        (from signature value : Bytes) {a : MqAddress} {s : Slate}
        → handle c x own secret_key from signature value ≡ handled a s
        → Honest own (calls (on_slate (to_string mwcmqs a) s))
    unfolding handle
    handle-Genuine from signature value {a} {s} h = elim (Option-cases own) [
      | inl none' ↦ let h' = rw none' at h in cc
      | inr (mine, is) ↦
          let (p, answered, read) =
            handle_response-delivered from
              (from_response c x from (unescape value) [] signature secret_key (some mine))
              (rw is at h) in
          let r =
            from_response-Received c x from (unescape value) [] signature secret_key (some mine)
              answered in
          (
            mine,
            is,
            record {
              address = a;
              p = r.p;
              destination = r.destination;
              named = refl;
              signer = from_str_same_key c from r.sender read;
              checked = r.checked;
            },
          )
    ]

    abbrev AllHonest : List (Action Slate) → Type 0
    AllHonest = All (Honest own)

    on_handled-Honest :
        (again : Link → Turn Slate) (l : Link) (h : Handled Slate)
        → ((l : Link) → AllHonest (again l).actions)
        → ((a : MqAddress) (s : Slate)
            → h ≡ handled a s
            → Honest own (calls (on_slate (to_string mwcmqs a) s)))
        → AllHonest (on_handled c x own secret_key again l h).actions
    on_handled-Honest again l (delivered a s) rest here = (here a s refl, tt)
    on_handled-Honest again l skipped rest here = rest l
    on_handled-Honest again l faulty rest here = rest (record l { is_error = true })
    on_handled-Honest again l crashed rest here = tt

    walk-Honest :
        (from signature : Bytes) (parts : List Bytes) (l : Link)
        → AllHonest (walk c x own secret_key from signature parts l).actions
    unfolding walk
    walk-Honest from signature [] l = tt
    walk-Honest from signature (part ∷ parts) l =
        let again = walk-Honest from signature parts in
        elim (Bool-cases (starts_with (codes "mapmessage=") part)) [
          | inr other ↦ rw other (again l)
          | inl is ↦ rw is (elim (Option-cases (value_of part)) [
            | inl nothing ↦ rw nothing (again (record l { is_error = true }))
            | inr (value, some_value) ↦ rw some_value (
                on_handled-Honest (walk c x own secret_key from signature parts) l
                  (handle c x own secret_key from signature value) again
                  (λ a s h. handle-Genuine from signature value h))
          ])
        ]

    on_text-Honest :
        (text : Bytes) (l : Link) → AllHonest (on_text c x own secret_key text l).actions
    unfolding on_text on_parts
    on_text-Honest text l = elim (Bool-cases (is_close text)) [
      | inl e ↦ rw e tt
      | inr e ↦ elim (Bool-cases (is_nil text)) [
        | inl f ↦ rw (e, f) tt
        | inr f ↦ elim (Bool-cases (length (parts_of text) == 3)) [
          | inl g ↦ rw (e, f, g) (walk-Honest _ _ (parts_of text) _)
          | inr g ↦ elim (Bool-cases (contains (codes "nginx") text)) [
            | inl h ↦ rw (e, f, g, h) (tt, tt)
            | inr h ↦ rw (e, f, g, h) tt
          ]
        ]
      ]
    ]

    then_texts-Honest :
        (turn : Turn Slate) (again : Link → Turn Slate) (g : Going)
        → AllHonest turn.actions
        → ((l : Link) → AllHonest (again l).actions)
        → AllHonest (then_texts c x own secret_key turn again g).actions
    then_texts-Honest turn again further h k =
        All-append (Honest own) turn.actions _ h (k turn.link)
    then_texts-Honest turn again leaving h k = h
    then_texts-Honest turn again crashing h k = h

    on_texts-Honest :
        (texts : List Bytes) (l : Link) → AllHonest (on_texts c x own secret_key texts l).actions
    unfolding on_texts
    on_texts-Honest [] l = tt
    on_texts-Honest (text ∷ texts) l =
        then_texts-Honest (on_text c x own secret_key text l) (on_texts c x own secret_key texts) _
          (on_text-Honest text l) (on_texts-Honest texts)

    module _ (site : Site) where
      on_reading-Honest :
          (s : Polling) (r : Reading) → AllHonest (on_reading c x own site secret_key s r).actions
      unfolding on_reading
      on_reading-Honest s (messages l) = on_texts-Honest l.texts _
      on_reading-Honest s nginx = (tt, tt)
      on_reading-Honest s closed = tt
      on_reading-Honest s ours = tt
      on_reading-Honest s unknown = tt

      on_answer-Honest :
          (s : Polling) (a : Answer) → AllHonest (on_answer c x own site secret_key s a).actions
      unfolding on_answer
      on_answer-Honest s (refused e) = elim (Bool-cases (timed_out e)) [
        | inl h ↦ rw h tt
        | inr h ↦ rw h (tt, tt)
      ]
      on_answer-Honest s unreadable = (tt, tt)
      on_answer-Honest s (replied body) = on_reading-Honest _ (read_reply body)

      poll-Honest : (s : Polling) (r : Round) → AllHonest (poll c x own site secret_key s r).actions
      unfolding poll
      poll-Honest s r = elim (Bool-cases (s.link.is_error || r.stopped)) [
        | inl e ↦ rw e tt
        | inr e ↦ elim (Bool-cases r.client_built) [
          | inr f ↦ rw (e, f) tt
          | inl f ↦ rw (e, f) (tt, on_answer-Honest (in_round c x own site secret_key s) r.answer)
        ]
      ]

      then_rounds-Honest :
          (step : Step c x own) (again : Polling → List (Action Slate) × Reached) (g : Going)
          → AllHonest step.actions
          → ((s : Polling) → AllHonest (again s).0)
          → AllHonest (then_rounds c x own site secret_key step again g).0
      then_rounds-Honest step again further h k =
          All-append (Honest own) step.actions _ h (k step.after)
      then_rounds-Honest step again leaving h k = h
      then_rounds-Honest step again crashing h k = h

      rounds-Honest :
          (rs : List Round) (s : Polling) → AllHonest (rounds c x own site secret_key s rs).0
      unfolding rounds
      rounds-Honest [] s = tt
      rounds-Honest (r ∷ rs) s =
          then_rounds-Honest (poll c x own site secret_key s r)
            (λ s'. rounds c x own site secret_key s' rs) _ (poll-Honest s r) (rounds-Honest rs)

  start-Honest :
      (own : Option MqAddress) (debug_signature : Signature → Bytes) (domain : Bytes) (port : ℕ)
      (address : MqAddress) (secret_key : SecretKey) (rs : List Round) (time : Option Bytes)
      (signature : Option Signature)
      → All
          (Honest own)
          (start c x own debug_signature domain port address secret_key rs time signature).0
  unfolding start
  start-Honest own d domain port address secret_key rs time none = tt
  start-Honest own d domain port address secret_key rs none (some s) = tt
  start-Honest own d domain port address secret_key rs (some t) (some s) =
      let site = site_of c x own d domain port address t s in
      rounds-Honest own secret_key site rs (starting site)

  -- Whatever the server answers, the MWCMQS listener calls its handler only with slates: each comes
  -- with a proof that has been checked, whose signer has the key of the address that the handler is
  -- given as the sender, and whose message, if it names a destination, names our own key.
  pub subscribe-Honest :
      (own : Option MqAddress) (debug_signature : Signature → Bytes) (domain : Bytes) (port : ℕ)
      (address : MqAddress) (secret_key : SecretKey) (time : Option Bytes) (rs : List Round)
      → All
          (Honest own)
          (subscribe c x own debug_signature domain port address secret_key time rs).0
  unfolding subscribe
  subscribe-Honest own d domain port address secret_key time rs =
      start-Honest own d domain port address secret_key rs time
        (sign_challenge c x (unwrap_or time []) secret_key)
