-- ===== src/Broker/Mwcmqs/Post.antt =====
-- `MWCMQSBroker::post_slate` of src/broker/mwcmq.rs.
use mwc.Prelude.{
  ℕ, ◌+◌, ◌*◌, ◌-◌, ◌^◌, Bool, false, [], ◌∷◌, ◌++◌, Option, none, some, Bytes, codes, leb,
  get_elem?, ◌==◌, if◌then◌else◌, split, Outcome, ok, err, panic, diverge, ◌>>=◌, ◌>>◌, guard,
  map_err, unwrap,
}
use mwc.ErrorKind.{Error, kind, external, into, closed_listener, invalid_respose}
use mwc.Codec.Hex.{to_hex}
use mwc.Contacts.Address.{
  Crypto, MqAddress, grinbox, mwcmqs, is_digit, from_str, public_key, stripped, show_u16, unwrap_or,
}
use mwc.Contacts.Address.Cross.{quoted, without_quotes}
use mwc.Proof.Cipher.{Cipher}
use mwc.Proof.Message.{sign_challenge, new_message}
use mwc.Broker.Mwcmqs.Poll.{Answer, refused, unreadable, replied, percent_at}

-- The request: its url and its form.
pub record Post : Type 0 where
  pub url : Bytes
  pub mapmessage : Bytes
  pub from : Bytes
  pub signature : Bytes

abbrev pub default_mwcmqs_port : ℕ
default_mwcmqs_port = 443

-- The receiver as an MWCMQ address. A key is plain letters, which `{:?}` writes as they are.
abbrev pub destination_text : MqAddress → Bytes
destination_text to = without_quotes (
    quoted to.public_key
    ++ b'@' ∷ (to.domain ++ b':' ∷ show_u16 (unwrap_or to.port default_mwcmqs_port)))

abbrev pub sender_url : Bytes → ℕ → MqAddress → Bytes
sender_url domain port to =
    codes "https://"
    ++ domain
    ++ codes ":"
    ++ show_u16 port
    ++ codes "/sender?address="
    ++ percent_at (stripped mwcmqs to)

module _ (c : Crypto) (x : Cipher c) where
  open x use {SecretKey, Slate, slate_to_string, message_to_string, serialize_der}

  -- Up to the request, for the server of the configuration, and the salt and the nonce drawn.
  unfoldable pub post_request :
      Bytes
      → ℕ
      → Bool
      → Slate
      → MqAddress
      → MqAddress
      → SecretKey
      → Bytes
      → Bytes
      → Outcome Error Post
  post_request domain port is_running slate to from secret_key salt nonce = do
    guard is_running (kind (closed_listener (codes "mwcmqs")))
    pkey ← into (public_key c to)
    destination ← into (from_str c grinbox (destination_text to))
    message ←
        map_err (new_message c x (slate_to_string slate) destination pkey secret_key salt nonce)
          (external (codes "could not encrypt slate!"))
    signature ← unwrap (sign_challenge c x (message_to_string message) secret_key)
    ok (record {
      url = sender_url domain port to;
      mapmessage = message_to_string message;
      from = stripped mwcmqs from;
      signature = to_hex (serialize_der signature);
    })

-- The number of a text of digits.
abbrev pub number : ℕ → Bytes → Option ℕ
number n [] = some n
number n (c ∷ s) = if is_digit c then number (n * 10 + (c - b'0')) s else none

abbrev at_most : ℕ → Option ℕ → Bool
at_most n none = false
at_most n (some m) = leb m n

-- Whether `parse::<i64>` takes the text.
abbrev pub is_i64 : Bytes → Bool
is_i64 [] = false
is_i64 (c ∷ []) = is_digit c
is_i64 (c ∷ d ∷ s) =
    let digits = number 0 (d ∷ s) in
    if c == b'-'
    then at_most (2 ^ 63) digits
    else if c == b'+'
    then at_most (2 ^ 63 - 1) digits
    else at_most (2 ^ 63 - 1) (number 0 (c ∷ d ∷ s))

abbrev pub last_seen : Option Bytes → Bool
last_seen none = false
last_seen (some s) = is_i64 s

-- The answer must give, as its second word, how long ago the receiver was connected; what is
-- printed for a long time is left out.
unfoldable pub posted : Answer → Outcome Error (Unit {0})
posted (refused e) = err (kind (invalid_respose (codes "mwcmqs connection error")))
posted unreadable = err (kind (invalid_respose (codes "mwcmqs i/o error")))
posted (replied resp_str) =
    guard (last_seen (get_elem? (split b' ' resp_str) 1)) (kind (invalid_respose (codes "mwcmqs")))

-- `post_slate`: the request, if it is made, and the result. The client can be built.
unfoldable pub post_slate : Outcome Error Post → Answer → Option Post × Outcome Error (Unit {0})
unfolding posted
post_slate (ok request) answer = (some request, posted answer)
post_slate (err e) answer = (none, err e)
post_slate panic answer = (none, panic)
post_slate diverge answer = (none, diverge)
