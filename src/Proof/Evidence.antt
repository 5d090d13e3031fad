-- ===== src/Proof/Evidence.antt =====
-- `TxProof` of src/wallet/types/tx_proof.rs, and the posting of a slate by src/broker/grinbox.rs.
use mwc.Prelude.{
  ℕ, List, [], Bool, false, not, ◌++◌, Option, none, some, Bytes, codes, bytes_eq, Outcome, ok,
  ◌>>=◌, ◌>>◌, guard, ok_or, map_err, unwrap,
}
use mwc.ErrorKind.{
  ErrorKind, Error, kind, external, into, tx_proof_parse_address, tx_proof_parse_public_key,
  tx_proof_parse_signature, tx_proof_verify_signature, tx_proof_parse_encrypted_message,
  tx_proof_verify_destination, tx_proof_decryption_key, tx_proof_decrypt_message,
  tx_proof_parse_slate, closed_listener, secp,
}
use mwc.Codec.Hex.{to_hex, from_hex}
use mwc.Contacts.Address.{Crypto, MqAddress, grinbox, from_str, public_key, stripped}
use mwc.Proof.Cipher.{Cipher}
use mwc.Proof.Message.{sign_challenge, verify_signature, new_message, message_key, decrypt_with_key}

-- A commitment is its bytes.
pub record TxProof (S : Type 0) : Type 0 where
  pub address : MqAddress
  pub message : Bytes
  pub challenge : Bytes
  pub signature : S
  pub key : Bytes
  pub amount : ℕ
  pub fee : ℕ
  pub inputs : List Bytes
  pub outputs : List Bytes

-- `ProtocolRequest::PostSlate`
pub record PostSlate : Type 0 where
  pub from : Bytes
  pub to : Bytes
  pub str : Bytes
  pub signature : Bytes

-- Whether both are there and their keys differ.
abbrev pub wrong_destination : Option MqAddress → Option MqAddress → Bool
wrong_destination none expected = false
wrong_destination (some d) none = false
wrong_destination (some d) (some e) = not (bytes_eq d.public_key e.public_key)

module _ (c : Crypto) (x : Cipher c) where
  open c use {PublicKey}
  open x use {
    SecretKey, Signature, Slate, serialize_der, from_der, message_to_string, message_from_str,
    slate_to_string, deserialize_upgrade,
  }

  -- `verify_extract`
  unfoldable pub verify_extract :
      TxProof Signature → Option MqAddress → Outcome ErrorKind (Option MqAddress × Slate)
  verify_extract p expected_destination = do
    key ← map_err (public_key c p.address) tx_proof_parse_public_key
    guard (verify_signature c x (p.message ++ p.challenge) p.signature key)
        tx_proof_verify_signature
    m ← ok_or (message_from_str p.message) tx_proof_parse_encrypted_message
    guard (not (wrong_destination m.destination expected_destination)) tx_proof_verify_destination
    text ← map_err (decrypt_with_key c x m p.key) tx_proof_decrypt_message
    slate ← ok_or (deserialize_upgrade text) tx_proof_parse_slate
    ok (m.destination, slate)

  -- `Signature::from_hex`
  unfoldable pub signature_from_hex : Bytes → Outcome ErrorKind Signature
  signature_from_hex s = do hex ← from_hex s; ok_or (from_der hex) secp

  -- `from_response`
  unfoldable pub from_response :
      Bytes
      → Bytes
      → Bytes
      → Bytes
      → SecretKey
      → Option MqAddress
      → Outcome ErrorKind (Slate × TxProof Signature)
  from_response from message challenge signature secret_key expected_destination = do
    address ← map_err (from_str c grinbox from) (tx_proof_parse_address from)
    s ← map_err (signature_from_hex signature) (tx_proof_parse_signature signature)
    key_of ← map_err (public_key c address) tx_proof_parse_public_key
    m ← ok_or (message_from_str message) tx_proof_parse_encrypted_message
    key ← map_err (message_key c x m key_of secret_key) tx_proof_decryption_key
    let proof : TxProof Signature = record {
      address = address;
      message = message;
      challenge = challenge;
      signature = s;
      key = key;
      amount = 0;
      fee = 0;
      inputs = [];
      outputs = [];
    }
    r ← verify_extract proof expected_destination
    ok (r.1, proof)

  -- `GrinboxBroker::post_slate` up to the sender: the request that it sends, for the salt and the nonce
  -- drawn. An error of the encryption is reported by the web socket library's type.
  unfoldable pub post_slate :
      Bool → Slate → MqAddress → MqAddress → SecretKey → Bytes → Bytes → Outcome Error PostSlate
  post_slate is_running slate to from secret_key salt nonce = do
    guard is_running (kind (closed_listener (codes "mwcmq")))
    pkey ← into (public_key c to)
    message ←
        map_err (new_message c x (slate_to_string slate) to pkey secret_key salt nonce)
          (external (codes "could not encrypt slate!"))
    let message_ser = message_to_string message
    signature ← unwrap (sign_challenge c x message_ser secret_key)
    ok (record {
      from = stripped grinbox from;
      to = stripped grinbox to;
      str = message_ser;
      signature = to_hex (serialize_der signature);
    })
