-- ===== src/Broker/Mwcmqs/PostTests.antt =====
-- A slate that is posted over MWCMQS and delivered, with the sample cryptography.
use mwc.Prelude.{◌≡◌, refl, true, false, none, some, Bytes, All, codes, ok, arith}
use mwc.Samples.{sample_crypto, sample_cipher, write_message, bit, bit-Carried}
use mwc.Codec.Base58.{to_base58_check, to_base58, carry_loop, encode_loop}
use mwc.Codec.Hex.{to_hex}
use mwc.Contacts.Address.{MqAddress, mwcmqs, new, stripped, is_domain}
use mwc.Proof.Cipher.{EncryptedMessage}
use mwc.Proof.Message.{new_message}
use mwc.Broker.Mwcmqs.Message.{Link, on_text}
use mwc.Broker.Mwcmqs.Escapes.{escape, IsSendable, unescape-escape}
use mwc.Broker.Mwcmqs.Post.{Post, post_request, sender_url}
use mwc.Contacts.Address.Cross.{CrossRead, new-CrossRead}
use mwc.Broker.Mwcmqs.Posted.{destination_read}
use mwc.Broker.Mwcmqs.Relayed.{IsInner, relayed, Delivers, on_text-post_request}

abbrev domain : Bytes
domain = codes "a"

domain_ok : (is_domain b'a' ≡ true) × Unit {0}
unfolding is_domain
domain_ok = (refl, tt)

-- The addresses of the keys `true` and `false`.
abbrev from : MqAddress
from = record {
  public_key = codes "q5WpkSv6ji5CdFNnuxDREayTJ2pYrcCKEL9XgQ71LfLwYSW5LfRg";
  domain = domain;
  port = none;
}

abbrev to : MqAddress
to = record {
  public_key = codes "q5YmVd9YmZVsrPCNcro3EYJ44wwAaFuA77nbneFhEezwvw89K7a6";
  domain = domain;
  port = some 700;
}

from-new : new sample_crypto mwcmqs true (some domain) none ≡ ok from
unfolding new to_base58_check to_base58 carry_loop encode_loop
from-new = refl

to-new : new sample_crypto mwcmqs false (some domain) (some 700) ≡ ok to
unfolding new to_base58_check to_base58 carry_loop encode_loop
to-new = refl

to-CrossRead : CrossRead sample_crypto false domain (some 700) to
to-CrossRead =
    new-CrossRead sample_crypto false domain (some 700) to (cc) domain_ok (omega arith) to-new

abbrev message : EncryptedMessage
message = record {
  destination = some to;
  encrypted_message = to_hex (bit true);
  salt = to_hex (bit true);
  nonce = to_hex (bit false);
}

abbrev request : Post
request = record {
  url = sender_url (codes "mqs.mwc.mw") 443 to;
  mapmessage = write_message message;
  from = stripped mwcmqs from;
  signature = to_hex (bit true);
}

posted :
    post_request sample_crypto sample_cipher
      (codes "mqs.mwc.mw")
      443
      true
      true
      to
      from
      true
      (bit true)
      (bit false)
    ≡ ok request
unfolding post_request new_message
posted =
    rw
      (
        to-CrossRead.own_key,
        destination_read sample_crypto sample_cipher true true false domain (some 700) to from
            to-CrossRead,
      )
      refl

sendable : All IsSendable request.mapmessage
unfolding to_hex
sendable = ground arith

-- The message with its quotes and braces escaped.
abbrev value : Bytes
value = escape request.mapmessage

inner : All IsInner value
unfolding to_hex
inner = ground arith

abbrev link : Link
link = record { connected = true; is_nginx_error = false; is_in_warning = false; is_error = false }

on_text-post_request_example :
    (address : MqAddress) × Delivers sample_crypto sample_cipher address true (
      on_text sample_crypto sample_cipher
        (some to)
        false
        (relayed request.from request.signature value)
        link)
    × (address.public_key ≡ from.public_key)
on_text-post_request_example =
    on_text-post_request sample_crypto sample_cipher true true false domain domain none (some 700)
      from to to (codes "mqs.mwc.mw") 443 (bit true) (bit false) value link request (cc) domain_ok
      tt (cc) domain_ok (omega arith) from-new to-new refl (bit-Carried true) (bit-Carried false)
      posted (unescape-escape request.mapmessage sendable) inner
