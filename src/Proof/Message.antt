-- ===== src/Proof/Message.antt =====
-- `EncryptedMessage` of src/common/message.rs. The salt and the nonce that it draws are given.
use mwc.Prelude.{
  Bool, Option, some, Bytes, take, drop, Outcome, ok, ◌>>=◌, ◌>>◌, guard, ok_or, map_err,
}
use mwc.ErrorKind.{ErrorKind, encryption, decryption}
use mwc.Codec.Hex.{to_hex, from_hex}
use mwc.Contacts.Address.{Crypto, MqAddress}
use mwc.Proof.Cipher.{Cipher, EncryptedMessage}

module _ (c : Crypto) (x : Cipher c) where
  open c use {PublicKey, serialize, sha256}
  open x use {
    SecretKey, Signature, secp_sign, secp_verify, multiply, pbkdf2, seal_in_place, open_in_place,
    is_utf8,
  }

  -- The signed message is the hash of the challenge.
  abbrev pub sign_challenge : Bytes → SecretKey → Option Signature
  sign_challenge challenge secret_key = secp_sign (sha256 challenge) secret_key

  abbrev pub verify_signature : Bytes → Signature → PublicKey → Bool
  verify_signature challenge signature public_key =
      secp_verify (sha256 challenge) signature public_key

  -- `&common_secret_ser[1..33]`
  abbrev pub common_secret_slice : PublicKey → Bytes
  common_secret_slice k = take 32 (drop 1 (serialize k))

  -- `EncryptedMessage::new`
  unfoldable pub new_message :
      Bytes → MqAddress → PublicKey → SecretKey → Bytes → Bytes → Outcome ErrorKind EncryptedMessage
  new_message message destination receiver_public_key secret_key salt nonce = do
    common_secret ← ok_or (multiply receiver_public_key secret_key) encryption
    enc_bytes ←
        ok_or (seal_in_place (pbkdf2 salt (common_secret_slice common_secret)) nonce message)
          encryption
    ok (record {
      destination = some destination;
      encrypted_message = to_hex enc_bytes;
      salt = to_hex salt;
      nonce = to_hex nonce;
    })

  -- `key`
  unfoldable pub message_key : EncryptedMessage → PublicKey → SecretKey → Outcome ErrorKind Bytes
  message_key m sender_public_key secret_key = do
    salt ← map_err (from_hex m.salt) decryption
    common_secret ← ok_or (multiply sender_public_key secret_key) decryption
    ok (pbkdf2 salt (common_secret_slice common_secret))

  -- `decrypt_with_key`
  unfoldable pub decrypt_with_key : EncryptedMessage → Bytes → Outcome ErrorKind Bytes
  decrypt_with_key m key = do
    encrypted_message ← map_err (from_hex m.encrypted_message) decryption
    nonce ← map_err (from_hex m.nonce) decryption
    decrypted_data ← ok_or (open_in_place key nonce encrypted_message) decryption
    guard (is_utf8 decrypted_data) decryption
    ok decrypted_data
