-- ===== src/Config.antt =====
-- `Wallet713Config` of src/common/config.rs.
use mwc.Prelude.{
  ℕ, Bool, true, false, ◌&&◌, Option, none, some, Bytes, codes, Outcome, ok, err, ◌>>=◌, ok_or,
  unwrap, guard,
}
use mwc.ErrorKind.{ErrorKind, Error, kind, into, no_wallet}
use mwc.Contacts.Address.{Crypto, MqAddress, grinbox, mwcmqs, new, unwrap_or}
use mwc.Proof.Cipher.{Cipher}
use mwc.Paths.{PathBuf, parse, push, pop, parent, file_name, empty}
pub mod Directories
pub mod Addresses
pub mod Files
pub mod Saved
mod FileTests
mod Tests

pub data ChainTypes : Type 0 where
  automated_testing user_testing floonet mainnet : ChainTypes

pub record Wallet713Config (SecretKey : Type 0) : Type 0 where
  pub chain : ChainTypes
  pub wallet713_data_path : Bytes
  pub keybase_binary : Option Bytes
  pub mwcmq_domain : Option Bytes
  pub mwcmq_port : Option ℕ
  pub mwcmqs_domain : Option Bytes
  pub mwcmqs_port : Option ℕ
  pub grinbox_protocol_unsecure : Option Bool
  pub grinbox_address_index : Option ℕ
  pub mwc_node_uri : Option Bytes
  pub mwc_node_secret : Option Bytes
  pub grinbox_listener_auto_start : Option Bool
  pub keybase_listener_auto_start : Option Bool
  pub max_auto_accept_invoice : Option ℕ
  pub default_keybase_ttl : Option Bytes
  pub owner_api : Option Bool
  pub owner_api_address : Option Bytes
  pub owner_api_secret : Option Bytes
  pub owner_api_include_foreign : Option Bool
  pub foreign_api : Option Bool
  pub disable_history : Option Bool
  pub foreign_api_address : Option Bytes
  pub foreign_api_secret : Option Bytes
  pub tls_certificate_file : Option Bytes
  pub tls_certificate_key : Option Bytes
  pub config_home : Option Bytes
  pub grinbox_address_key : Option SecretKey
  pub wallet_updater_frequency_sec : Option ℕ

abbrev pub is_some : {A : Type 0} → Option A → Bool
is_some none = false
is_some (some a) = true

abbrev pub wallet713_default_config_filename : Bytes
wallet713_default_config_filename = codes "wallet713.toml"

abbrev on_mainnet : ChainTypes → Bytes → Bytes → Bytes
on_mainnet mainnet here there = here
on_mainnet _ here there = there

module _ {SecretKey : Type 0} where
  abbrev pub default : ChainTypes → Wallet713Config SecretKey
  default chain = record {
    chain = chain;
    wallet713_data_path = codes "wallet713_data";
    keybase_binary = none;
    mwcmq_domain = none;
    mwcmq_port = none;
    mwcmqs_domain = none;
    mwcmqs_port = none;
    grinbox_protocol_unsecure = none;
    grinbox_address_index = none;
    mwc_node_uri = none;
    mwc_node_secret = none;
    grinbox_listener_auto_start = none;
    keybase_listener_auto_start = none;
    max_auto_accept_invoice = none;
    default_keybase_ttl = some (codes "24h");
    owner_api = none;
    owner_api_address = none;
    owner_api_secret = none;
    owner_api_include_foreign = some false;
    foreign_api = none;
    disable_history = none;
    foreign_api_address = none;
    foreign_api_secret = none;
    tls_certificate_file = none;
    tls_certificate_key = none;
    config_home = none;
    grinbox_address_key = none;
    wallet_updater_frequency_sec = none;
  }

  module _ (config : Wallet713Config SecretKey) where
    abbrev pub disable_history : Bool
    disable_history = unwrap_or config.disable_history false

    abbrev pub get_mwcmq_domain : Bytes
    get_mwcmq_domain = unwrap_or config.mwcmq_domain (codes "mq.mwc.mw")

    abbrev pub mwcmqs_domain : Bytes
    mwcmqs_domain = unwrap_or config.mwcmqs_domain (codes "mqs.mwc.mw")

    abbrev pub mwcmqs_port : ℕ
    mwcmqs_port = unwrap_or config.mwcmqs_port 443

    abbrev pub grinbox_address_index : ℕ
    grinbox_address_index = unwrap_or config.grinbox_address_index 0

    -- `get_grinbox_secret_key`, and `get_mwcmqs_secret_key`, which is the same.
    unfoldable pub get_grinbox_secret_key : Outcome Error SecretKey
    get_grinbox_secret_key = ok_or config.grinbox_address_key (kind no_wallet)

    -- `get_data_path`
    unfoldable pub get_data_path : PathBuf
    get_data_path =
        let data_path = parse config.wallet713_data_path in
        elim data_path.absolute [
          | true ↦ data_path
          | false ↦
              push (pop (parse (unwrap_or config.config_home wallet713_default_config_filename)))
                data_path
        ]

    unfoldable pub get_top_level_directory : Outcome Error PathBuf
    unfolding get_data_path
    get_top_level_directory = unwrap (parent get_data_path)

    unfoldable pub get_wallet_data_directory : Outcome Error Bytes
    unfolding get_data_path
    get_wallet_data_directory = unwrap (file_name get_data_path)

    abbrev pub mwc_node_uri : Bytes
    mwc_node_uri = unwrap_or config.mwc_node_uri (
        on_mainnet config.chain (codes "https://mwc713.mwc.mw")
          (codes "https://mwc713.floonet.mwc.mw"))

    -- The secret that comes with the program goes to its own node only.
    unfoldable pub mwc_node_secret : Option Bytes
    mwc_node_secret = elim config.mwc_node_uri [
      | some uri ↦ config.mwc_node_secret
      | none ↦ some (codes "11ne3EAUtOXVKwhxm84U")
    ]

    -- `grinbox_listener_auto_start`, for whether the program runs as a console.
    abbrev pub grinbox_listener_auto_start : Bool → Bool
    grinbox_listener_auto_start is_cli = unwrap_or config.grinbox_listener_auto_start is_cli

    abbrev pub keybase_listener_auto_start : Bool
    keybase_listener_auto_start = unwrap_or config.keybase_listener_auto_start false

    abbrev pub owner_api_address : Bytes
    owner_api_address =
        unwrap_or config.owner_api_address
          (on_mainnet config.chain (codes "127.0.0.1:3420") (codes "127.0.0.1:13420"))

    abbrev pub foreign_api_address : Bytes
    foreign_api_address =
        unwrap_or config.foreign_api_address
          (on_mainnet config.chain (codes "127.0.0.1:3415") (codes "127.0.0.1:13415"))

    abbrev pub owner_api : Bool
    owner_api = unwrap_or config.owner_api false

    abbrev pub foreign_api : Bool
    foreign_api = unwrap_or config.foreign_api false

    abbrev pub is_tls_enabled : Bool
    is_tls_enabled = is_some config.tls_certificate_file && is_some config.tls_certificate_key

-- The addresses of the wallet at the two message queues.
module _ (c : Crypto) (x : Cipher c) (config : Wallet713Config (Cipher.SecretKey x)) where
  open x use {public_key_from_secret_key}

  unfoldable pub get_grinbox_public_key : Outcome Error (Crypto.PublicKey c)
  unfolding get_grinbox_secret_key
  get_grinbox_public_key = do
    secret ← get_grinbox_secret_key config
    ok (public_key_from_secret_key secret)

  unfoldable pub get_mwcmqs_address : Outcome Error MqAddress
  unfolding get_grinbox_public_key
  get_mwcmqs_address = do
    key ← get_grinbox_public_key
    into (new c mwcmqs key (some (mwcmqs_domain config)) config.mwcmqs_port)

  unfoldable pub get_grinbox_address : Outcome Error MqAddress
  unfolding get_grinbox_public_key
  get_grinbox_address = do
    key ← get_grinbox_public_key
    into (new c grinbox key (some (get_mwcmq_domain config)) config.mwcmq_port)
