-- ===== src/Broker/Mwcmqs/Message.antt =====
-- What `subscribe` of src/broker/mwcmq.rs does with a message. The counter `delcount` is never read,
-- and what is printed is left out.
use mwc.Prelude.{
  ℕ, Bool, true, false, not, ◌||◌, List, [], ◌∷◌, ◌++◌, Option, none, some, Bytes, codes, bytes_eq,
  length, get_elem?, get_or, ◌==◌, if◌then◌else◌, split, starts_with, contains, replace, Outcome,
  ok, err, panic, diverge,
}
use mwc.ErrorKind.{ErrorKind}
use mwc.Codec.Hex.{trim}
use mwc.Contacts.Address.{Crypto, MqAddress, mwcmqs, from_str, to_string}
use mwc.Broker.Calls.{Call, on_slate}
use mwc.Proof.Cipher.{Cipher}
use mwc.Proof.Evidence.{TxProof, from_response}

-- The flags of the loop.
pub record Link : Type 0 where
  pub connected : Bool
  pub is_nginx_error : Bool
  pub is_in_warning : Bool
  pub is_error : Bool

-- What the listener does: it asks the server within some seconds, calls the handler, or sleeps some
-- milliseconds.
pub data Action (Slate : Type 0) : Type 0 where
  asks : ℕ → Bytes → Action Slate
  calls : Call Slate → Action Slate
  sleeps : ℕ → Action Slate

-- How the loop over the messages goes on: with the next one, out of the listener, or into a panic.
pub data Going : Type 0 where
  further leaving crashing : Going

pub record Turn (Slate : Type 0) : Type 0 where
  pub actions : List (Action Slate)
  pub link : Link
  pub going : Going

-- The proxy answers for a server that is down.
abbrev pub nginx_down : Link → Link
nginx_down l = record l {
  connected = false;
  is_in_warning = not l.is_nginx_error || l.is_in_warning;
  is_nginx_error = true;
}

abbrev pub nginx_up : Link → Link
nginx_up l = if l.is_nginx_error then record l { is_nginx_error = false; connected = true } else l

abbrev pub is_close : Bytes → Bool
is_close text =
    bytes_eq text (codes "message: closenewlogin\n") || bytes_eq text (codes "closenewlogin")

abbrev pub is_nil : Bytes → Bool
is_nil text =
    bytes_eq text (codes "message: mapmessage=nil\n")
    || bytes_eq text (codes "mapmessage=nil")
    || bytes_eq text (codes "mapmessage=nil\n")

-- The parts of a message between `&`, behind its first word if there are two.
abbrev pub parts_of : Bytes → List Bytes
parts_of text =
    let words = split b' ' text in
    split b'&' (if length words == 1 then get_or words 0 [] else get_or words 1 [])

-- `vec[1]` of a part split at `=`
abbrev pub value_of : Bytes → Option Bytes
value_of part = get_elem? (split b'=' part) 1

-- A parameter that is read, and whether a part was bad.
pub record Param : Type 0 where
  pub text : Bytes
  pub bad : Bool

-- `for i in 0..3`: the last part with the prefix counts.
unfoldable pub read_param : Bytes → (Bytes → Bytes) → List Bytes → Param → Param
read_param prefix clean [] p = p
read_param prefix clean (part ∷ parts) p = read_param prefix clean parts (
    if starts_with prefix part
    then elim (value_of part) [
      | none ↦ record p { bad = true }
      | some value ↦ record p { text = clean value }
    ]
    else p)

abbrev pub clean_from : Bytes → Bytes
clean_from value = replace (trim value) (codes "%40") (codes "@")

abbrev pub no_param : Param
no_param = record { text = []; bad = false }

-- `r1` to `r5`
unfoldable pub unescape : Bytes → Bytes
unescape value =
    let r1 = replace value (codes "%22") (b'"' ∷ []) in
    let r2 = replace r1 (codes "%7B") (codes "{") in
    let r3 = replace r2 (codes "%7D") (codes "}") in
    let r4 = replace r3 (codes "%3A") (codes ":") in trim (replace r4 (codes "%2C") (codes ","))

-- What becomes of a `mapmessage`.
pub data Handled (Slate : Type 0) : Type 0 where
  delivered : MqAddress → Slate → Handled Slate
  skipped faulty crashed : Handled Slate

module _ (c : Crypto) (x : Cipher c) where
  open x use {SecretKey, Signature, Slate}

  -- `MWCMQSAddress::from_str(&from)`
  abbrev pub handle_sender : Outcome ErrorKind MqAddress → Slate → Handled Slate
  handle_sender (ok address) slate = delivered address slate
  handle_sender (err e) slate = faulty
  handle_sender panic slate = crashed
  handle_sender diverge slate = crashed

  abbrev pub handle_response : Bytes → Outcome ErrorKind (Slate × TxProof Signature) → Handled Slate
  handle_response from (ok (slate, tx_proof)) = handle_sender (from_str c mwcmqs from) slate
  handle_response from (err e) = skipped
  handle_response from panic = crashed
  handle_response from diverge = crashed

  -- The listener's own address, as the configuration gives it, and its key.
  module _ (own : Option MqAddress) (secret_key : SecretKey) where
    -- A value of a `mapmessage`, with the sender and the signature that were read.
    unfoldable pub handle : Bytes → Bytes → Bytes → Handled Slate
    unfolding unescape
    handle from signature value = elim own [
      | none ↦ crashed
      | some address ↦
          handle_response from
            (from_response c x from (unescape value) [] signature secret_key (some address))
    ]

    -- Behind a `mapmessage`: `break`, `continue`, or a panic.
    abbrev pub on_handled : (Link → Turn Slate) → Link → Handled Slate → Turn Slate
    on_handled again l (delivered address slate) = record {
      actions = calls (on_slate (to_string mwcmqs address) slate) ∷ [];
      link = l;
      going = further;
    }
    on_handled again l skipped = again l
    on_handled again l faulty = again (record l { is_error = true })
    on_handled again l crashed = record { actions = []; link = l; going = crashing }

    abbrev pub on_value : Bytes → Bytes → (Link → Turn Slate) → Link → Option Bytes → Turn Slate
    on_value from signature again l none = again (record l { is_error = true })
    on_value from signature again l (some value) = on_handled again l (handle from signature value)

    -- The last loop over the parts.
    unfoldable pub walk : Bytes → Bytes → List Bytes → Link → Turn Slate
    unfolding handle
    walk from signature [] l = record { actions = []; link = l; going = further }
    walk from signature (part ∷ parts) l =
        let again = walk from signature parts in
        if starts_with (codes "mapmessage=") part
        then on_value from signature again l (value_of part)
        else again l

    -- A message of three parts.
    unfoldable pub on_parts : List Bytes → Link → Turn Slate
    unfolding read_param walk
    on_parts parts l =
        let from = read_param (codes "from=") clean_from parts no_param in
        let signature = read_param (codes "signature=") trim parts no_param in
        let up = nginx_up l in
        walk from.text signature.text parts
          (record up { is_error = up.is_error || from.bad || signature.bad })

    -- The body of the loop over the messages.
    unfoldable pub on_text : Bytes → Link → Turn Slate
    unfolding on_parts
    on_text text l =
        if is_close text
        then record { actions = []; link = l; going = leaving }
        else if is_nil text
        then record { actions = []; link = l; going = further }
        else if length (parts_of text) == 3
        then on_parts (parts_of text) l
        else if contains (codes "nginx") text
        then record { actions = sleeps 5000 ∷ []; link = nginx_down l; going = further }
        else record { actions = []; link = record l { is_error = true }; going = further }

    abbrev pub then_texts : Turn Slate → (Link → Turn Slate) → Going → Turn Slate
    then_texts turn again further =
        let rest = again turn.link in record rest { actions = turn.actions ++ rest.actions }
    then_texts turn again leaving = turn
    then_texts turn again crashing = turn

    unfoldable pub on_texts : List Bytes → Link → Turn Slate
    unfolding on_text
    on_texts [] l = record { actions = []; link = l; going = further }
    on_texts (text ∷ texts) l =
        let turn = on_text text l in then_texts turn (on_texts texts) turn.going
