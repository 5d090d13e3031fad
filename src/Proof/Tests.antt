-- ===== src/Proof/Tests.antt =====
-- A slate that is posted and read, with the sample cryptography.
use mwc.Prelude.{ℕ, ◌<◌, ◌≡◌, refl, Bool, true, false, [], ◌∷◌, none, some, Bytes, codes, ok, arith}
use mwc.Samples.{sample_crypto, sample_cipher, write_message, bit}
use mwc.Codec.Hex.{to_hex, from_hex, split_n, split_rounds, parse_bytes}
use mwc.Contacts.Address.{MqAddress, grinbox, new, public_key, stripped, is_domain}
use mwc.Contacts.Address.Mq.{from_str-to_string}
use mwc.Proof.Cipher.{EncryptedMessage, Carried}
use mwc.Proof.Message.{new_message, decrypt_with_key}
use mwc.Proof.Evidence.{TxProof, PostSlate, post_slate, from_response, verify_extract}
use mwc.Proof.Delivery.{from_response-post_slate}
use mwc.Proof.Checks.{Checked, verify_extract-Checked}

-- The addresses of the keys `true` and `false`, which `from_str-to_string` gives.
abbrev domain : Bytes
domain = codes "a"

domain_ok : (is_domain b'a' ≡ true) × Unit {0}
unfolding is_domain
domain_ok = (refl, tt)

made :
    (k : Bool)
    → (a : MqAddress) × (new sample_crypto grinbox k (some domain) none ≡ ok a)
      × (public_key sample_crypto a ≡ ok k)
made k =
    let (a, e, _, _, key) =
      from_str-to_string sample_crypto grinbox k domain none (cc) domain_ok tt in
    (a, e, key)

from : MqAddress
from = (made true).0

to : MqAddress
to = (made false).0

abbrev message : EncryptedMessage
message = record {
  destination = some to;
  encrypted_message = to_hex (bit true);
  salt = to_hex (9 ∷ []);
  nonce = to_hex (8 ∷ []);
}

abbrev request : PostSlate
request = record {
  from = stripped grinbox from;
  to = stripped grinbox to;
  str = write_message message;
  signature = to_hex (bit true);
}

to-public_key : public_key sample_crypto to ≡ ok false
unfolding to
to-public_key = (made false).2

from-new : new sample_crypto grinbox true (some domain) none ≡ ok from
unfolding from
from-new = (made true).1

posted :
    post_slate sample_crypto sample_cipher true true to from true (9 ∷ []) (8 ∷ []) ≡ ok request
unfolding post_slate new_message
posted = rw to-public_key refl

carried : (n : ℕ) → n < 256 → Carried (n ∷ [])
unfolding Carried
carried n h = (cc, omega arith, omega arith)

from_response-post_slate_example :
    (p : TxProof Bool) × (from_response sample_crypto sample_cipher request.from request.str []
        request.signature false
        (some to)
      ≡ ok (true, p))
    × (p.address.public_key ≡ from.public_key)
from_response-post_slate_example =
    from_response-post_slate sample_crypto sample_cipher true true false domain none from to
      (9 ∷ []) (8 ∷ []) request (cc) domain_ok tt from-new to-public_key (carried 9 (omega arith))
      (carried 8 (omega arith)) posted

-- A message that names no destination.
abbrev anonymous : EncryptedMessage
anonymous = record {
  destination = none;
  encrypted_message = codes "01";
  salt = codes "09";
  nonce = codes "08";
}

abbrev proof : TxProof Bool
proof = record {
  address = from;
  message = write_message anonymous;
  challenge = [];
  signature = true;
  key = [];
  amount = 0;
  fee = 0;
  inputs = [];
  outputs = [];
}

from-public_key : public_key sample_crypto from ≡ ok true
unfolding from
from-public_key = (made true).2

accepted : verify_extract sample_crypto sample_cipher proof (some from) ≡ ok (none, true)
unfolding verify_extract decrypt_with_key from_hex split_n split_rounds parse_bytes
accepted = rw from-public_key refl

verify_extract-Checked_example : Checked sample_crypto sample_cipher proof (some from) none true
verify_extract-Checked_example =
    verify_extract-Checked sample_crypto sample_cipher proof (some from) none true accepted
