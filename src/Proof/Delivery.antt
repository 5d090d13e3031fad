-- ===== src/Proof/Delivery.antt =====
-- A slate that is posted is read by its receiver (src/broker/grinbox.rs, src/common/message.rs and
-- src/wallet/types/tx_proof.rs).
use mathlib.Core.Path.{subst}
use mwc.Prelude.{
  ℕ, ◌≡◌, ◌≢◌, refl, sym, ◌∙◌, inl, inr, true, [], append-nil, Option, some, Option-cases, Bytes,
  bytes_eq_refl, Outcome, ok, codes, bind_ok, map_err, map_err_ok, unwrap, unwrap_ok,
}
use mwc.ErrorKind.{ErrorKind, Error}
use mwc.Codec.Hex.{to_hex, from_hex}
use mwc.Codec.Hex.RoundTrip.{from_hex-to_hex}
use mwc.Contacts.Address.{
  Crypto, MqAddress, grinbox, new, from_str, stripped, public_key, is_domain,
}
use mwc.Contacts.Address.Chars.{Of}
use mwc.Contacts.Address.Suffix.{FitsU16}
use mwc.Contacts.Address.Mq.{stripped_read}
use mwc.Proof.Cipher.{Cipher, Carried, EncryptedMessage}
use mwc.Proof.Message.{
  sign_challenge, new_message, message_key, decrypt_with_key, common_secret_slice,
}
use mwc.Proof.Evidence.{
  TxProof, PostSlate, verify_extract, signature_from_hex, from_response, post_slate,
}

read_hex : (bs : Bytes) → Carried bs → from_hex (to_hex bs) ≡ ok bs
unfolding Carried
read_hex bs (hn, hb, hl) = from_hex-to_hex bs hn hb hl

abbrev ok_message : EncryptedMessage → Outcome ErrorKind EncryptedMessage
ok_message m = ok m

same_message : {m n : EncryptedMessage} → ok_message m ≡ ok_message n → m ≡ n
same_message h = cc

abbrev ok_post : PostSlate → Outcome Error PostSlate
ok_post r = ok r

same_post : {r s : PostSlate} → ok_post r ≡ ok_post s → r ≡ s
same_post h = cc

module _ (c : Crypto) (x : Cipher c) where
  open c use {PublicKey, serialize, sha256}
  open x use {
    SecretKey, Signature, Slate, public_key_from_secret_key, multiply, pbkdf2, seal_in_place,
    open_in_place, is_utf8, serialize_der, from_der, message_to_string, message_from_str,
    slate_to_string, deserialize_upgrade, multiply_shared, open-seal, verify-sign,
    from_der-serialize_der, der_carried, message_from_str-to_string, deserialize_upgrade-to_string,
    slate_is_utf8,
  }

  -- The receiver has the key of the message, and reads its text.
  pub record Readable (m : EncryptedMessage) (text : Bytes) (to : MqAddress) (a b : SecretKey)
      : Type 0 where
    pub key : Bytes
    pub agreed : message_key c x m (public_key_from_secret_key a) b ≡ ok key
    pub opened : decrypt_with_key c x m key ≡ ok text
    pub addressed : m.destination ≡ some to

  pub new_message-Readable :
      (text : Bytes) (to : MqAddress) (a b : SecretKey) (salt nonce : Bytes) {m : EncryptedMessage}
      → Carried salt
      → Carried nonce
      → is_utf8 text ≡ true
      → new_message c x text to (public_key_from_secret_key b) a salt nonce ≡ ok m
      → Readable m text to a b
  unfolding new_message message_key decrypt_with_key
  new_message-Readable text to a b salt nonce {m} hs hn utf made =
      elim (Option-cases (multiply (public_key_from_secret_key b) a)) [
        | inl fails ↦ let h = rw fails at made in cc
        | inr (common, shared) ↦
            let key = pbkdf2 salt (common_secret_slice c x common) in
            elim (Option-cases (seal_in_place key nonce text)) [
              | inl fails ↦ let h = rw (shared, fails) at made in cc
              | inr (sealed, done) ↦
                  let h = rw (shared, done) at made in
                  let (opens, carried) = open-seal key nonce text done in
                  let shared' = multiply_shared a b ∙ shared in
                  subst (λ m. Readable m text to a b) (same_message h)
                    (record {
                      key = key;
                      agreed = rw (read_hex salt hs, shared') refl;
                      opened = rw (read_hex sealed carried, read_hex nonce hn, opens, utf) refl;
                      addressed = refl;
                    })
            ]
      ]

  -- What a posted slate is made of.
  record Posted (slate : Slate) (to from : MqAddress) (a b : SecretKey) (r : PostSlate)
      : Type 0 where
    pub m : EncryptedMessage
    pub readable : Readable m (slate_to_string slate) to a b
    pub s : Signature
    pub signed : sign_challenge c x (message_to_string m) a ≡ some s
    pub sent : r ≡ record {
      from = stripped grinbox from;
      to = stripped grinbox to;
      str = message_to_string m;
      signature = to_hex (serialize_der s);
    }

  post_slate-Posted :
      (slate : Slate) (to from : MqAddress) (a b : SecretKey) (salt nonce : Bytes) {r : PostSlate}
      → Carried salt
      → Carried nonce
      → public_key c to ≡ ok (public_key_from_secret_key b)
      → post_slate c x true slate to from a salt nonce ≡ ok r
      → Posted slate to from a b r
  unfolding post_slate
  post_slate-Posted slate to from a b salt nonce hs hn key sent =
      let text = slate_to_string slate in
      let built = new_message c x text to (public_key_from_secret_key b) a salt nonce in
      let (m, wrapped, rest) =
        bind_ok (map_err built (Error.external (codes "could not encrypt slate!"))) _
          (rw key at sent) in
      let made = map_err_ok built _ wrapped in
      let (s, unwrapped, last) =
        bind_ok (unwrap (sign_challenge c x (message_to_string m) a)) _ rest in
      record {
        m = m;
        readable = new_message-Readable text to a b salt nonce hs hn (slate_is_utf8 slate) made;
        s = s;
        signed = unwrap_ok (sign_challenge c x (message_to_string m) a) unwrapped;
        sent = sym (same_post last);
      }

  signature_back : (s : Signature) → signature_from_hex c x (to_hex (serialize_der s)) ≡ ok s
  unfolding signature_from_hex
  signature_back s = rw (read_hex (serialize_der s) (der_carried s), from_der-serialize_der s) refl

  verified :
      (slate : Slate) (to mine : MqAddress) (a b : SecretKey) (m : EncryptedMessage) (s : Signature)
      (p : TxProof Signature)
      → (q : Readable m (slate_to_string slate) to a b) → mine.public_key ≡ to.public_key
      → sign_challenge c x (message_to_string m) a ≡ some s
      → public_key c p.address ≡ ok (public_key_from_secret_key a)
      → p.message ≡ message_to_string m
      → p.challenge ≡ []
      → p.signature ≡ s
      → p.key ≡ q.key
      → verify_extract c x p (some mine) ≡ ok (some to, slate)
  unfolding verify_extract decrypt_with_key
  verified slate to mine a b m s p q same signed key em ec es ek =
      rw
        (
          key,
          em,
          ec,
          append-nil (message_to_string m),
          es,
          verify-sign (sha256 (message_to_string m)) a signed,
          message_from_str-to_string m,
          q.addressed,
          same,
          bytes_eq_refl to.public_key,
          ek,
          q.opened,
          deserialize_upgrade-to_string slate,
        )
        refl

  -- The proof that the receiver makes of a message and its signature.
  abbrev pub proof_of : MqAddress → EncryptedMessage → Signature → Bytes → TxProof Signature
  proof_of read m s key = record {
    address = read;
    message = message_to_string m;
    challenge = [];
    signature = s;
    key = key;
    amount = 0;
    fee = 0;
    inputs = [];
    outputs = [];
  }

  -- A message for a key, signed by the sender, is read by the owner of the key, whatever address of
  -- that key they expect.
  pub from_response-Readable :
      (slate : Slate) (to mine read : MqAddress) (a b : SecretKey) (m : EncryptedMessage)
      (s : Signature) (from : Bytes)
      → (q : Readable m (slate_to_string slate) to a b) → mine.public_key ≡ to.public_key
      → sign_challenge c x (message_to_string m) a ≡ some s
      → from_str c grinbox from ≡ ok read
      → public_key c read ≡ ok (public_key_from_secret_key a)
      → from_response c x from (message_to_string m) [] (to_hex (serialize_der s)) b (some mine)
        ≡ ok (slate, proof_of read m s q.key)
  unfolding from_response
  from_response-Readable slate to mine read a b m s from q same signed text key =
      let p = proof_of read m s q.key in
      let checked = verified slate to mine a b m s p q same signed key refl refl refl refl in
      rw (text, signature_back s, key, message_from_str-to_string m, q.agreed, checked) refl

  -- A slate that the owner of a key posts from their address to the address of another owner's key is
  -- read by the latter from the request, with the expected destination and a proof of it. The domains
  -- are not empty and have the characters of a domain, the port is a u16, and the server adds no
  -- challenge.
  pub from_response-post_slate :
      (slate : Slate) (a b : SecretKey) (domain : Bytes) (port : Option ℕ) (from to : MqAddress)
      (salt nonce : Bytes) (r : PostSlate)
      → domain ≢ []
      → Of is_domain domain
      → FitsU16 port
      → new c grinbox (public_key_from_secret_key a) (some domain) port ≡ ok from
      → public_key c to ≡ ok (public_key_from_secret_key b)
      → Carried salt
      → Carried nonce
      → post_slate c x true slate to from a salt nonce ≡ ok r
      → (p : TxProof Signature) × (from_response c x r.from r.str [] r.signature b (some to)
          ≡ ok (slate, p))
        × (p.address.public_key ≡ from.public_key)
  from_response-post_slate slate a b domain port from to salt nonce r hd hc hp made key hs hn sent =
      let (read, text, key', _, same) =
        stripped_read c grinbox (public_key_from_secret_key a) domain port from hd hc hp made in
      let posted = post_slate-Posted slate to from a b salt nonce hs hn key sent in
      let q = posted.readable in
      subst
        (λ r.
          (p : TxProof Signature) × (from_response c x r.from r.str [] r.signature b (some to)
            ≡ ok (slate, p))
          × (p.address.public_key ≡ from.public_key))
        (sym posted.sent)
        (
          proof_of read posted.m posted.s q.key,
          from_response-Readable slate to to read a b posted.m posted.s (stripped grinbox from) q
              refl posted.signed text key',
          same,
        )
