-- ===== src/Proof/Cipher.antt =====
-- What src/common/message.rs and src/wallet/types/tx_proof.rs use of the cryptography, of the JSON
-- library and of the slates, none of which is under src/, with their documented behaviour.
use mwc.Prelude.{◌^◌, ◌<◌, ◌≡◌, ◌≢◌, Bool, true, [], Option, some, Bytes, IsByte, All, length}
use mwc.Contacts.Address.{Crypto, MqAddress}

pub record EncryptedMessage : Type 0 where
  pub destination : Option MqAddress
  pub encrypted_message : Bytes
  pub salt : Bytes
  pub nonce : Bytes

-- What the hexadecimal codec can carry.
unfoldable pub Carried : Bytes → Type 0
Carried bs = (bs ≢ []) × All IsByte bs × (length bs < 2 ^ 62)

pub record Cipher (c : Crypto) : Type 1 where
  pub SecretKey : Type 0
  pub Signature : Type 0
  pub Slate : Type 0
  pub public_key_from_secret_key : SecretKey → Crypto.PublicKey c
  -- `mul_assign`
  pub multiply : Crypto.PublicKey c → SecretKey → Option (Crypto.PublicKey c)
  pub pbkdf2 : Bytes → Bytes → Bytes
  pub seal_in_place : Bytes → Bytes → Bytes → Option Bytes
  pub open_in_place : Bytes → Bytes → Bytes → Option Bytes
  pub is_utf8 : Bytes → Bool
  pub secp_sign : Bytes → SecretKey → Option Signature
  pub secp_verify : Bytes → Signature → Crypto.PublicKey c → Bool
  pub serialize_der : Signature → Bytes
  pub from_der : Bytes → Option Signature
  pub message_to_string : EncryptedMessage → Bytes
  pub message_from_str : Bytes → Option EncryptedMessage
  pub slate_to_string : Slate → Bytes
  pub deserialize_upgrade : Bytes → Option Slate
  pub multiply_shared :
      (a b : SecretKey)
      → multiply (public_key_from_secret_key a) b ≡ multiply (public_key_from_secret_key b) a
  pub open-seal :
      (key nonce text : Bytes) {sealed : Bytes}
      → seal_in_place key nonce text ≡ some sealed
      → (open_in_place key nonce sealed ≡ some text) × Carried sealed
  pub verify-sign :
      (digest : Bytes) (k : SecretKey) {s : Signature}
      → secp_sign digest k ≡ some s
      → secp_verify digest s (public_key_from_secret_key k) ≡ true
  pub from_der-serialize_der : (s : Signature) → from_der (serialize_der s) ≡ some s
  pub der_carried : (s : Signature) → Carried (serialize_der s)
  pub message_from_str-to_string :
      (m : EncryptedMessage) → message_from_str (message_to_string m) ≡ some m
  pub deserialize_upgrade-to_string : (s : Slate) → deserialize_upgrade (slate_to_string s) ≡ some s
  pub slate_is_utf8 : (s : Slate) → is_utf8 (slate_to_string s) ≡ true
