-- ===== src/Proof/Checks.antt =====
-- What a proof that is accepted has been checked for (src/wallet/types/tx_proof.rs).
use mwc.Prelude.{
  [], ◌≡◌, refl, ap, sym, ◌∙◌, Bool, true, false, not, ◌++◌, Option, some, Bytes, Outcome, ok,
  guard, ok_or, map_err, bind_ok, map_err_ok, guard_ok, ok_or_ok,
}
use mathlib.Core.Path.{subst}
use mwc.ErrorKind.{
  ErrorKind, tx_proof_parse_public_key, tx_proof_verify_signature, tx_proof_parse_encrypted_message,
  tx_proof_verify_destination, tx_proof_decrypt_message, tx_proof_parse_slate,
  tx_proof_parse_address, tx_proof_parse_signature, tx_proof_decryption_key,
}
use mwc.Contacts.Address.{Crypto, MqAddress, grinbox, from_str, public_key}
use mwc.Proof.Cipher.{Cipher, EncryptedMessage}
use mwc.Proof.Message.{verify_signature, message_key, decrypt_with_key}
use mwc.Proof.Evidence.{
  TxProof, wrong_destination, verify_extract, signature_from_hex, from_response,
}

not-true : (b : Bool) → not b ≡ true → b ≡ false
not-true true h = cc
not-true false h = refl

module _ (c : Crypto) (x : Cipher c) where
  open c use {PublicKey}
  open x use {SecretKey, Signature, Slate, message_from_str, deserialize_upgrade}

  -- The signature is by the key of the proof's address and covers the message and the challenge, the
  -- message is for the destination, and its text is the slate.
  pub record Checked (p : TxProof Signature) (expected : Option MqAddress)
      (destination : Option MqAddress) (slate : Slate) : Type 0 where
    pub key : PublicKey
    pub m : EncryptedMessage
    pub text : Bytes
    pub owner : public_key c p.address ≡ ok key
    pub signed : verify_signature c x (p.message ++ p.challenge) p.signature key ≡ true
    pub parsed : message_from_str p.message ≡ some m
    pub destined : destination ≡ m.destination
    pub for_us : wrong_destination destination expected ≡ false
    pub opened : decrypt_with_key c x m p.key ≡ ok text
    pub read : deserialize_upgrade text ≡ some slate

  abbrev ok_pair : Option MqAddress → Slate → Outcome ErrorKind (Option MqAddress × Slate)
  ok_pair d s = ok (d, s)

  same_pair : {d e : Option MqAddress} {s t : Slate} → ok_pair d s ≡ ok_pair e t → (d ≡ e) × (s ≡ t)
  same_pair h = (cc, cc)

  -- A proof is accepted only if it is signed by the key of its address, over its message and its
  -- challenge, if the destination that its message names, if any, is the expected one, if any, and if
  -- its message is opened with its key to the text of the slate.
  pub verify_extract-Checked :
      (p : TxProof Signature) (expected destination : Option MqAddress) (slate : Slate)
      → verify_extract c x p expected ≡ ok (destination, slate)
      → Checked p expected destination slate
  unfolding verify_extract
  verify_extract-Checked p expected destination slate h =
      let (key, h1, r1) =
        bind_ok (map_err (public_key c p.address) tx_proof_parse_public_key) _ h in
      let (_, h2, r2) =
        bind_ok
          (guard (verify_signature c x (p.message ++ p.challenge) p.signature key)
            tx_proof_verify_signature)
          _ r1 in
      let (m, h3, r3) =
        bind_ok (ok_or (message_from_str p.message) tx_proof_parse_encrypted_message) _ r2 in
      let (_, h4, r4) =
        bind_ok (guard (not (wrong_destination m.destination expected)) tx_proof_verify_destination)
          _ r3 in
      let (text, h5, r5) =
        bind_ok (map_err (decrypt_with_key c x m p.key) tx_proof_decrypt_message) _ r4 in
      let (slate', h6, r6) = bind_ok (ok_or (deserialize_upgrade text) tx_proof_parse_slate) _ r5 in
      let (same_d, same_s) = same_pair r6 in
      record {
        key = key;
        m = m;
        text = text;
        owner = map_err_ok (public_key c p.address) tx_proof_parse_public_key h1;
        signed = guard_ok _ tx_proof_verify_signature h2;
        parsed = ok_or_ok (message_from_str p.message) tx_proof_parse_encrypted_message h3;
        destined = sym same_d;
        for_us =
            ap (λ d. wrong_destination d expected) (sym same_d)
            ∙ not-true _ (guard_ok _ tx_proof_verify_destination h4);
        opened = map_err_ok (decrypt_with_key c x m p.key) tx_proof_decrypt_message h5;
        read = ok_or_ok (deserialize_upgrade text) tx_proof_parse_slate h6 ∙ ap some same_s;
      }

  abbrev ok_proof : Slate → TxProof Signature → Outcome ErrorKind (Slate × TxProof Signature)
  ok_proof s p = ok (s, p)

  same_slate : {s t : Slate} {p q : TxProof Signature} → ok_proof s p ≡ ok_proof t q → s ≡ t
  same_slate h = cc

  -- What `from_response` gives is a proof of the message and the challenge, from the address that it
  -- was given, which has been checked.
  pub record Received (from message challenge : Bytes) (expected : Option MqAddress) (slate : Slate)
      : Type 0 where
    pub p : TxProof Signature
    pub destination : Option MqAddress
    pub sender : from_str c grinbox from ≡ ok p.address
    pub of_message : p.message ≡ message
    pub of_challenge : p.challenge ≡ challenge
    pub checked : Checked p expected destination slate

  pub from_response-Received :
      (from message challenge signature : Bytes) (secret_key : SecretKey)
      (expected : Option MqAddress) {slate : Slate} {p : TxProof Signature}
      → from_response c x from message challenge signature secret_key expected ≡ ok_proof slate p
      → Received from message challenge expected slate
  unfolding from_response
  from_response-Received from message challenge signature secret_key expected {slate} h =
      let (address, h1, r1) =
        bind_ok (map_err (from_str c grinbox from) (tx_proof_parse_address from)) _ h in
      let (s, h2, r2) =
        bind_ok (map_err (signature_from_hex c x signature) (tx_proof_parse_signature signature)) _
          r1 in
      let (key_of, h3, r3) =
        bind_ok (map_err (public_key c address) tx_proof_parse_public_key) _ r2 in
      let (m, h4, r4) =
        bind_ok (ok_or (message_from_str message) tx_proof_parse_encrypted_message) _ r3 in
      let (key, h5, r5) =
        bind_ok (map_err (message_key c x m key_of secret_key) tx_proof_decryption_key) _ r4 in
      let p : TxProof Signature = record {
        address = address;
        message = message;
        challenge = challenge;
        signature = s;
        key = key;
        amount = 0;
        fee = 0;
        inputs = [];
        outputs = [];
      } in
      let (found, h6, r6) = bind_ok (verify_extract c x p expected) _ r5 in
      let same : found.1 ≡ slate = same_slate r6 in
      record {
        p = p;
        destination = found.0;
        sender = map_err_ok (from_str c grinbox from) (tx_proof_parse_address from) h1;
        of_message = refl;
        of_challenge = refl;
        checked =
            subst (Checked p expected found.0) same
              (verify_extract-Checked p expected found.0 found.1 h6);
      }
