-- ===== src/Broker/Mwcmqs/Posted.antt =====
-- A slate that is posted over MWCMQS is delivered by the listener of its receiver
-- (src/broker/mwcmq.rs).
use mathlib.Core.Path.{subst}
use mwc.Prelude.{
  ℕ, ◌≡◌, refl, ap, sym, ◌∙◌, true, Option, some, Bytes, Outcome, ok, codes, bind_ok, map_err,
  map_err_ok, unwrap, unwrap_ok,
}
use mwc.ErrorKind.{Error}
use mwc.Codec.Hex.{to_hex}
use mwc.Contacts.Address.{Crypto, MqAddress, grinbox, mwcmqs, from_str, stripped}
use mwc.Contacts.Address.Cross.{CrossRead, without_quotes-quoted, port_or_default}
use mwc.Proof.Cipher.{Cipher, Carried, EncryptedMessage}
use mwc.Proof.Message.{sign_challenge, new_message}
use mwc.Proof.Delivery.{Readable, new_message-Readable, from_response-Readable}
use mwc.Broker.Mwcmqs.Message.{delivered, handle, unescape}
use mwc.Broker.Mwcmqs.Post.{Post, destination_text, post_request}

abbrev ok_post : Post → Outcome Error Post
ok_post r = ok r

same_post : {r s : Post} → ok_post r ≡ ok_post s → r ≡ s
same_post h = cc

module _ (c : Crypto) (x : Cipher c) where
  open x use {
    SecretKey, Signature, Slate, public_key_from_secret_key, slate_to_string, message_to_string,
    serialize_der, slate_is_utf8,
  }

  -- What a posted slate is made of, for the destination that its message names.
  pub record Made (slate : Slate) (to from : MqAddress) (a b : SecretKey) (r : Post) : Type 0 where
    pub destination : MqAddress
    pub same_key : destination.public_key ≡ to.public_key
    pub m : EncryptedMessage
    pub readable : Readable c x m (slate_to_string slate) destination a b
    pub s : Signature
    pub signed : sign_challenge c x (message_to_string m) a ≡ some s
    pub sent_message : r.mapmessage ≡ message_to_string m
    pub sent_from : r.from ≡ stripped mwcmqs from
    pub sent_signature : r.signature ≡ to_hex (serialize_der s)

  module _ (slate : Slate) (a b : SecretKey) (to_domain : Bytes) (to_port : Option ℕ)
      (to from : MqAddress) where
    pub destination_read :
        CrossRead c (public_key_from_secret_key b) to_domain to_port to
        → from_str c grinbox (destination_text to)
          ≡ ok (record to { port = some (port_or_default to_port) })
    destination_read t =
        ap (from_str c grinbox) (
          without_quotes-quoted to.public_key to.domain (port_or_default to.port) t.letters
            t.domain_letters)
        ∙ t.full_read

    pub post_request-Made :
        (domain : Bytes) (port : ℕ) (salt nonce : Bytes) {r : Post}
        → Carried salt
        → Carried nonce
        → CrossRead c (public_key_from_secret_key b) to_domain to_port to
        → post_request c x domain port true slate to from a salt nonce ≡ ok r
        → Made slate to from a b r
    unfolding post_request
    post_request-Made domain port salt nonce hs hn t sent =
        let destination : MqAddress = record to { port = some (port_or_default to_port) } in
        let text = slate_to_string slate in
        let built = new_message c x text destination (public_key_from_secret_key b) a salt nonce in
        let (m, wrapped, rest) =
          bind_ok (map_err built (Error.external (codes "could not encrypt slate!"))) _
            (rw (t.own_key, destination_read t) at sent) in
        let made = map_err_ok built _ wrapped in
        let (s, unwrapped, last) =
          bind_ok (unwrap (sign_challenge c x (message_to_string m) a)) _ rest in
        subst (Made slate to from a b) (same_post last) (record {
          destination = destination;
          same_key = refl;
          m = m;
          readable =
              new_message-Readable c x text destination a b salt nonce hs hn (slate_is_utf8 slate)
                made;
          s = s;
          signed = unwrap_ok (sign_challenge c x (message_to_string m) a) unwrapped;
          sent_message = refl;
          sent_from = refl;
          sent_signature = refl;
        })

    pub handle-Made :
        (mine : MqAddress) (from_domain : Bytes) (from_port : Option ℕ) (value : Bytes) {r : Post}
        → (m : Made slate to from a b r)
        → CrossRead c (public_key_from_secret_key a) from_domain from_port from
        → mine.public_key ≡ to.public_key
        → unescape value ≡ r.mapmessage
        → (address : MqAddress) × (handle c x (some mine) b r.from r.signature value
            ≡ delivered address slate)
          × (address.public_key ≡ from.public_key)
    unfolding handle
    handle-Made mine from_domain from_port value {r} m f same carried =
        let read =
          from_response-Readable c x slate m.destination mine f.mq a b m.m m.s
            (stripped mwcmqs from) m.readable (same ∙ sym m.same_key) m.signed f.mq_read f.mq_key in
        (
          f.mqs,
          rw (carried, m.sent_message, m.sent_from, m.sent_signature, read, f.mqs_read) refl,
          f.mqs_same,
        )
