-- ===== src/Config/Addresses.antt =====
-- The wallet's addresses at the two message queues (src/common/config.rs).
use mwc.Prelude.{◌≡◌, refl, sym, ◌∙◌, Bytes, Option, some, ℕ, ok}
use mwc.Contacts.Address.{
  Crypto, MqKind, grinbox, mwcmqs, MqAddress, new, public_key, key_to_base58_check, version_bytes,
  default_domain, unwrap_or,
}
use mwc.Contacts.Address.Key.{key_text}
use mwc.Proof.Cipher.{Cipher}
use mwc.Config.{
  Wallet713Config, get_grinbox_secret_key, get_grinbox_public_key, get_mwcmqs_address,
  get_grinbox_address, mwcmqs_domain, get_mwcmq_domain,
}

abbrev some_text : Bytes → Option Bytes
some_text s = some s

same_some : {s t : Bytes} → some_text s ≡ some_text t → s ≡ t
same_some h = cc

module _ (c : Crypto) where
  open c use {PublicKey}

  -- An address that is made for a key gives the key back.
  pub new-public_key :
      (kind : MqKind) (k : PublicKey) (domain : Option Bytes) (port : Option ℕ)
      → (a : MqAddress) × (new c kind k domain port ≡ ok a)
        × (public_key c a ≡ ok k)
        × (key_to_base58_check c k (version_bytes c) ≡ some a.public_key)
        × (a.domain ≡ unwrap_or domain (default_domain kind))
        × (a.port ≡ port)
  unfolding new public_key
  new-public_key kind k domain port =
      let (s, to, from, length, letters) = key_text c k in
      let a : MqAddress = record {
        public_key = s;
        domain = unwrap_or domain (default_domain kind);
        port = port;
      } in
      (a, rw to refl, from, to, refl, refl)

  module _ (x : Cipher c) (config : Wallet713Config (Cipher.SecretKey x)) where
    open x use {SecretKey, public_key_from_secret_key}

    -- The two addresses of a key.
    pub record Addressed (secret : SecretKey) : Type 0 where
      pub mq : MqAddress
      pub mqs : MqAddress
      pub get_mq : get_grinbox_address c x config ≡ ok mq
      pub get_mqs : get_mwcmqs_address c x config ≡ ok mqs
      pub mq_key : public_key c mq ≡ ok (public_key_from_secret_key secret)
      pub mqs_key : public_key c mqs ≡ ok (public_key_from_secret_key secret)
      pub same_text : mq.public_key ≡ mqs.public_key
      pub mq_domain : mq.domain ≡ get_mwcmq_domain config
      pub mqs_domain : mqs.domain ≡ mwcmqs_domain config
      pub mq_port : mq.port ≡ config.mwcmq_port
      pub mqs_port : mqs.port ≡ config.mwcmqs_port

    -- Once the address key is set, the configuration has an address at either queue. Both are for that
    -- key and show it in the same letters, and each has its own queue's domain and port.
    pub get_grinbox_address-Addressed :
        (secret : SecretKey) → config.grinbox_address_key ≡ some secret → Addressed secret
    unfolding get_grinbox_address get_mwcmqs_address get_grinbox_public_key get_grinbox_secret_key
    get_grinbox_address-Addressed secret set =
        let k = public_key_from_secret_key secret in
        let (a, made, key, text, domain, port) =
          new-public_key grinbox k (some (get_mwcmq_domain config)) config.mwcmq_port in
        let (a', made', key', text', domain', port') =
          new-public_key mwcmqs k (some (mwcmqs_domain config)) config.mwcmqs_port in
        record {
          mq = a;
          mqs = a';
          get_mq = simp (set, made) refl;
          get_mqs = simp (set, made') refl;
          mq_key = key;
          mqs_key = key';
          same_text = same_some (sym text ∙ text');
          mq_domain = domain;
          mqs_domain = domain';
          mq_port = port;
          mqs_port = port';
        }
