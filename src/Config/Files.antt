-- ===== src/Config/Files.antt =====
-- The configuration file (src/common/config.rs), and the changes to it from the command line
-- (`do_config` of src/main.rs).
use mwc.Prelude.{
  ℕ, ◌≡◌, Bool, true, false, ◌||◌, [], ◌∷◌, ◌++◌, Option, none, some, ◌⊎◌, inr, Bytes, codes, leb,
  ◌==◌, if◌then◌else◌, Outcome, ok, err, unwrap, not,
}
use mwc.ErrorKind.{Error, kind, number_parsing_error}
use mwc.Effects.{Action, Call, result, pure, gets, lift, ◌>>=◌, ◌>>◌}
use mwc.Contacts.Address.{unwrap_or}
use mwc.Broker.Mwcmqs.Post.{number}
use mwc.Paths.{PathBuf, parse, push}
use mwc.Config.{ChainTypes, Wallet713Config, default, is_some, wallet713_default_config_filename}

abbrev wallet713_home : Bytes
wallet713_home = codes ".mwc713"

-- The help text in front of the settings.
pub wallet713_config_help : Bytes
wallet713_config_help =
    codes "#########################################\n"
    ++ codes "### WALLET 713 CONFIGURATION          ###\n"
    ++ codes "#########################################\n"
    ++ codes "\n"
    ++ codes "# Blockcahin to use: 'Mainnet' or 'Floonet'\n"
    ++ codes "# chain = \"Floonet\"\n"
    ++ codes "\n"
    ++ codes "# Path for mwc713 wallet data\n"
    ++ codes "# wallet713_data_path = \"wallet713_data\"\n"
    ++ codes "\n"
    ++ codes "# Path to the keybase binary\n"
    ++ codes "# keybase_binary = \"keybase\"\n"
    ++ codes "\n"
    ++ codes
        "# Legacy Grin Box connection URI. Depricated unsecure method of communication, not recommended for usage\n"
    ++ codes "# If you decided to use it, specify URI.\n"
    ++ codes "# mwcmq_domain = \"legacy.grin.box\"\n"
    ++ codes "# mwcmq_port   = 443\n"
    ++ codes "\n"
    ++ codes "# Use SSL for Legacy Grin Box connection.\n"
    ++ codes "# grinbox_protocol_unsecure = false\n"
    ++ codes "\n"
    ++ codes
        "# MWC MQS connection settings. By default mwc713 using thhis method for communication.\n"
    ++ codes "# mwcmqs_domain: mqs.mwc.mw\n"
    ++ codes "# mwcmqs_port: 443\n"
    ++ codes "\n"
    ++ codes
        "# MWC MQS/GrinBox address defive index. Every new index will give you a new address that will be used for\n"
    ++ codes "# communication with message queue\n"
    ++ codes "# grinbox_address_index = 1\n"
    ++ codes "\n"
    ++ codes
        "# MWC node connection URI. Please make sure that you are connecting to the node from correct network.\n"
    ++ codes "# mwc_node_uri = \"https://mwc713.floonet.mwc.mw\"\n"
    ++ codes "\n"
    ++ codes "# MWC node secret\n"
    ++ codes "# mwc_node_secret = \"11ne3EAUtOXVKwhxm84U\"\n"
    ++ codes "\n"
    ++ codes
        "# Start Message Queue listener automatically if wallet password was provided at start.\n"
    ++ codes "# grinbox_listener_auto_start = true\n"
    ++ codes "\n"
    ++ codes "# Start KeyBase listener automatically if wallet password was provided at start.\n"
    ++ codes "# keybase_listener_auto_start = true\n"
    ++ codes "\n"
    ++ codes
        "# Specify maximum amount in nano MWC if you want this wallet automatically accept invoices.\n"
    ++ codes "# Example for 5 MWCs:  max_auto_accept_invoice = 50000000000\n"
    ++ codes "# Note! Change it if you really understand what you are going!\n"
    ++ codes "# max_auto_accept_invoice =\n"
    ++ codes "\n"
    ++ codes "# KetBase TTL period\n"
    ++ codes "# default_keybase_ttl = \"24h\"\n"
    ++ codes "\n"
    ++ codes
        "# Enable Owner API for this wallet. See for details: https://github.com/mwcproject/mwc713/blob/master/docs/API_documentation.md\n"
    ++ codes "# owner_api = false\n"
    ++ codes "\n"
    ++ codes "# Owner API listening address. If you want accept connections from\n"
    ++ codes "# the Internet, please make it \"0.0.0.0:13415\"\n"
    ++ codes "# owner_api_address = \"127.0.0.1:13415\"\n"
    ++ codes "\n"
    ++ codes
        "# Owner API secret. REST API call required basic authorization with this secret (user: mwc).\n"
    ++ codes "# owner_api_secret = \"my_secret_password\"\n"
    ++ codes "\n"
    ++ codes "# Include the foreign API endpoints on the same port as the owner\n"
    ++ codes "# API. Useful for networking environments like AWS ECS that make\n"
    ++ codes "# it difficult to access multiple ports on a single service.\n"
    ++ codes "# owner_api_include_foreign = false\n"
    ++ codes "\n"
    ++ codes
        "# Enable Foreign API for this wallet. See for details: https://github.com/mwcproject/mwc713/blob/master/docs/API_documentation.md\n"
    ++ codes
        "# Note! Use this setting if you disable Owner API. Otherwise concider to use 'owner_api_include_foreign' setting\n"
    ++ codes "# foreign_api = false\n"
    ++ codes "\n"
    ++ codes "# Foreign API listening address. If you want accept connections from\n"
    ++ codes "# the Internet, please make it \"0.0.0.0:13416\"\n"
    ++ codes "# foreign_api_address = \"127.0.0.1:13416\"\n"
    ++ codes "\n"
    ++ codes
        "# Foreign API secret. REST API call required basic authorization with this secret (user: mwc).\n"
    ++ codes "# foreign_api_secret = \"my_secret_password\"\n"
    ++ codes "\n"
    ++ codes
        "# Disable logging history of your mwc713 commands. Recommended for stronger security.\n"
    ++ codes "# Also you can disable history with command line argument '--disable-history'\n"
    ++ codes "# disable_history = false\n"
    ++ codes "\n"
    ++ codes "\n"
    ++ codes
        "# If enabled both tls_certificate_file and tls_certificate_key, TSL will be applicable to all rest API\n"
    ++ codes "# Paths to TLS certificate files:\n"
    ++ codes "# tls_certificate_file = \"path to TLS certificate file\"\n"
    ++ codes "# tls_certificate_key = \"path to TLS certificate private key file\"\n"
    ++ codes "\n"
    ++ codes "# Wallet state update frequency. In none, no updates will be run in the background.\n"
    ++ codes "# If will be set, will run 'sync' command with defined time interval\n"
    ++ codes "# wallet_updater_frequency_sec =\n"
    ++ codes "\n"

-- What is stored of a configuration: two fields are skipped.
abbrev pub stored : {SecretKey : Type 0} → Wallet713Config SecretKey → Wallet713Config SecretKey
stored config = record config { config_home = none; grinbox_address_key = none }

-- What the code uses of the file system and of TOML. What was written is read; the settings are read
-- back from behind the comments of the help text; reading leaves the skipped fields out.
pub record Files (SecretKey : Type 0) : Type 1 where
  pub State : Type 0
  pub home_dir : Option PathBuf
  pub current_dir : Error ⊎ PathBuf
  pub to_str : PathBuf → Option Bytes
  pub shortname : ChainTypes → Bytes
  pub create_dir_all : PathBuf → Call State (Unit {0})
  pub file_exists : State → Bytes → Bool
  pub read_file : State → Bytes → Error ⊎ Bytes
  pub create : Bytes → Call State (Unit {0})
  pub write_all : Bytes → Bytes → Call State (Unit {0})
  pub to_toml : Wallet713Config SecretKey → Error ⊎ Bytes
  pub from_toml : Bytes → Error ⊎ Wallet713Config SecretKey
  pub read_file-write_all :
      (path text : Bytes) (s s' : State)
      → write_all path text s ≡ (inr tt, s')
      → read_file s' path ≡ inr text
  pub from_toml-to_toml :
      (config : Wallet713Config SecretKey) (text : Bytes)
      → to_toml config ≡ inr text
      → from_toml (wallet713_config_help ++ text) ≡ inr (stored config)
  pub from_toml-stored :
      (text : Bytes) (config : Wallet713Config SecretKey)
      → from_toml text ≡ inr config
      → stored config ≡ config

-- The options of the command `config`
pub record Args : Type 0 where
  pub data_path : Option Bytes
  pub domain : Option Bytes
  pub port : Option Bytes
  pub node_uri : Option Bytes
  pub node_secret : Option Bytes

abbrev without_plus : Bytes → Bytes
without_plus [] = []
without_plus (c ∷ s) = if c == b'+' then s else c ∷ s

abbrev in_u16 : Option ℕ → Option ℕ
in_u16 none = none
in_u16 (some n) = if leb n 65535 then some n else none

abbrev digits_u16 : Bytes → Option ℕ
digits_u16 [] = none
digits_u16 (c ∷ s) = in_u16 (number 0 (c ∷ s))

-- `u16::from_str_radix(_, 10)`
abbrev pub read_u16 : Bytes → Option ℕ
read_u16 s = digits_u16 (without_plus s)

abbrev pub or_some : {A : Type 0} → Option A → Option A → Option A
or_some none old = old
or_some (some a) old = some a

abbrev port_or_err : Option ℕ → Outcome Error (Option ℕ)
port_or_err none = err (kind number_parsing_error)
port_or_err (some n) = ok (some n)

abbrev pub new_port : Option Bytes → Option ℕ → Outcome Error (Option ℕ)
new_port none old = ok old
new_port (some port) old = port_or_err (read_u16 port)

-- The options in the configuration, with the port that was read.
abbrev pub with_args :
    {SecretKey : Type 0}
    → Args
    → Option ℕ
    → Option ℕ
    → Wallet713Config SecretKey
    → Wallet713Config SecretKey
with_args args port new_address_index config = record config {
  wallet713_data_path = unwrap_or args.data_path config.wallet713_data_path;
  mwcmq_domain = or_some args.domain config.mwcmq_domain;
  mwcmq_port = port;
  mwc_node_uri = or_some args.node_uri config.mwc_node_uri;
  mwc_node_secret = or_some args.node_secret config.mwc_node_secret;
  grinbox_address_index = or_some new_address_index config.grinbox_address_index;
}

abbrev pub any_given : Args → Option ℕ → Bool
any_given args new_address_index =
    is_some args.data_path
    || is_some args.domain
    || is_some args.port
    || is_some args.node_uri
    || is_some args.node_secret
    || is_some new_address_index

module _ {SecretKey : Type 0} (f : Files SecretKey) where
  open f use {
    State, home_dir, current_dir, to_str, shortname, create_dir_all, file_exists, read_file, create,
    write_all, to_toml, from_toml,
  }

  abbrev called : {A : Type 0} → (Error ⊎ A) × State → Outcome Error A × State
  called (r, s) = (result r, s)

  abbrev pub calling : {A : Type 0} → Call State A → Action State A
  calling m s = called (m s)

  abbrev pub reading : {A : Type 0} → (State → Error ⊎ A) → Action State A
  reading m s = (result (m s), s)

  abbrev pub home_or_current : Option PathBuf → Outcome Error PathBuf
  home_or_current (some home) = ok home
  home_or_current none = result current_dir

  abbrev pub default_home_path : ChainTypes → Action State PathBuf
  default_home_path chain = do
    path ← lift (home_or_current home_dir)
    calling (create_dir_all (push (push path (parse wallet713_home)) (parse (shortname chain))))
    pure (push (push path (parse wallet713_home)) (parse (shortname chain)))

  abbrev pub default_config_path : ChainTypes → Action State PathBuf
  default_config_path chain = do
    path ← default_home_path chain
    pure (push path (parse wallet713_default_config_filename))

  -- The file that is given, or the default one of the chain, whose directory is made in both cases.
  unfoldable pub config_file : Option Bytes → ChainTypes → Action State Bytes
  config_file config_path chain = do
    default_path_buf ← default_config_path chain
    default_path ← lift (unwrap (to_str default_path_buf))
    pure (unwrap_or config_path default_path)

  abbrev pub exists : Option Bytes → ChainTypes → Action State Bool
  exists config_path chain = do path ← config_file config_path chain; gets (λ s. file_exists s path)

  unfoldable pub from_file : Option Bytes → ChainTypes → Action State (Wallet713Config SecretKey)
  from_file config_path chain = do
    path ← config_file config_path chain
    toml_str ← reading (λ s. read_file s path)
    config ← lift (result (from_toml toml_str))
    pure (record config { config_home = some path })

  unfoldable pub to_file :
      Wallet713Config SecretKey → Option Bytes → Action State (Wallet713Config SecretKey)
  to_file config config_path = do
    path ← config_file config_path config.chain
    toml_str ← lift (result (to_toml config))
    calling (create path)
    calling (write_all path (wallet713_config_help ++ toml_str))
    pure (record config { config_home = some path })

  abbrev pub from_file_or_default :
      Bool → Option Bytes → ChainTypes → Action State (Wallet713Config SecretKey)
  from_file_or_default true config_path chain = from_file config_path chain
  from_file_or_default false config_path chain = pure (default chain)

  abbrev pub saved_if :
      Bool → Option Bytes → Wallet713Config SecretKey → Action State (Wallet713Config SecretKey)
  saved_if true config_path config = to_file config config_path
  saved_if false config_path config = pure config

  -- `do_config`: what it prints of an unchanged configuration is left out.
  unfoldable pub do_config :
      Args → ChainTypes → Option ℕ → Option Bytes → Action State (Wallet713Config SecretKey)
  unfolding from_file to_file
  do_config args chain new_address_index config_path = do
    found ← exists config_path chain
    config ← from_file_or_default found config_path chain
    port ← lift (new_port args.port config.mwcmq_port)
    saved_if (not found || any_given args new_address_index) config_path
        (with_args args port new_address_index config)
