-- ===== src/Samples/Files.antt =====
-- A small file system and a small format of the configuration, for the tests.
use mwc.Prelude.{
  ℕ, zero, suc, ◌≡◌, refl, ap, ◌∙◌, Bool, true, false, List, [], ◌∷◌, ◌++◌, Option, none, some, ◌⊎◌,
  inr, Bytes, codes, length, take, drop, get_or, take_front, drop_front,
}
use mathlib.Core.Path.{subst}
use mwc.ErrorKind.{Error}
use mwc.Paths.{parse}
use mwc.Config.{ChainTypes, automated_testing, user_testing, floonet, mainnet, Wallet713Config}
use mwc.Config.Files.{Files, stored, wallet713_config_help}

abbrev write_text : Option Bytes → Bytes
write_text none = []
write_text (some s) = 1 ∷ s

abbrev read_text : Bytes → Option Bytes
read_text [] = none
read_text (c ∷ s) = some s

read_text_back : (o : Option Bytes) → read_text (write_text o) ≡ o
read_text_back none = refl
read_text_back (some s) = refl

abbrev write_number : Option ℕ → Bytes
write_number none = []
write_number (some n) = n ∷ []

abbrev read_number : Bytes → Option ℕ
read_number [] = none
read_number (n ∷ s) = some n

read_number_back : (o : Option ℕ) → read_number (write_number o) ≡ o
read_number_back none = refl
read_number_back (some n) = refl

abbrev write_flag : Option Bool → Bytes
write_flag none = []
write_flag (some false) = 0 ∷ []
write_flag (some true) = 1 ∷ []

abbrev read_flag : Bytes → Option Bool
read_flag [] = none
read_flag (zero ∷ s) = some false
read_flag (suc n ∷ s) = some true

read_flag_back : (o : Option Bool) → read_flag (write_flag o) ≡ o
read_flag_back none = refl
read_flag_back (some false) = refl
read_flag_back (some true) = refl

abbrev write_chain : ChainTypes → Bytes
write_chain automated_testing = 0 ∷ []
write_chain user_testing = 1 ∷ []
write_chain floonet = 2 ∷ []
write_chain mainnet = 3 ∷ []

abbrev read_chain : Bytes → ChainTypes
read_chain (zero ∷ s) = automated_testing
read_chain (suc zero ∷ s) = user_testing
read_chain (suc (suc zero) ∷ s) = floonet
read_chain _ = mainnet

read_chain_back : (chain : ChainTypes) → read_chain (write_chain chain) ≡ chain
read_chain_back automated_testing = refl
read_chain_back user_testing = refl
read_chain_back floonet = refl
read_chain_back mainnet = refl

-- A field is written with its length in front.
abbrev pub write_cells : List Bytes → Bytes
write_cells [] = []
write_cells (c ∷ cs) = length c ∷ (c ++ write_cells cs)

abbrev read_cells : ℕ → Bytes → List Bytes
read_cells zero s = []
read_cells (suc k) [] = []
read_cells (suc k) (n ∷ s) = take n s ∷ read_cells k (drop n s)

read_cells_back : (cs : List Bytes) → read_cells (length cs) (write_cells cs) ≡ cs
read_cells_back [] = refl
read_cells_back (c ∷ cs) =
    rw (take_front c (write_cells cs), drop_front c (write_cells cs))
      (ap (λ t. c ∷ t) (read_cells_back cs))

abbrev pub cells : Wallet713Config Bool → List Bytes
cells config =
    write_chain config.chain
    ∷ config.wallet713_data_path
    ∷ write_text config.keybase_binary
    ∷ write_text config.mwcmq_domain
    ∷ write_number config.mwcmq_port
    ∷ write_text config.mwcmqs_domain
    ∷ write_number config.mwcmqs_port
    ∷ write_flag config.grinbox_protocol_unsecure
    ∷ write_number config.grinbox_address_index
    ∷ write_text config.mwc_node_uri
    ∷ write_text config.mwc_node_secret
    ∷ write_flag config.grinbox_listener_auto_start
    ∷ write_flag config.keybase_listener_auto_start
    ∷ write_number config.max_auto_accept_invoice
    ∷ write_text config.default_keybase_ttl
    ∷ write_flag config.owner_api
    ∷ write_text config.owner_api_address
    ∷ write_text config.owner_api_secret
    ∷ write_flag config.owner_api_include_foreign
    ∷ write_flag config.foreign_api
    ∷ write_flag config.disable_history
    ∷ write_text config.foreign_api_address
    ∷ write_text config.foreign_api_secret
    ∷ write_text config.tls_certificate_file
    ∷ write_text config.tls_certificate_key
    ∷ write_number config.wallet_updater_frequency_sec
    ∷ []

abbrev from_cells : List Bytes → Wallet713Config Bool
from_cells cs = record {
  chain = read_chain (get_or cs 0 []);
  wallet713_data_path = get_or cs 1 [];
  keybase_binary = read_text (get_or cs 2 []);
  mwcmq_domain = read_text (get_or cs 3 []);
  mwcmq_port = read_number (get_or cs 4 []);
  mwcmqs_domain = read_text (get_or cs 5 []);
  mwcmqs_port = read_number (get_or cs 6 []);
  grinbox_protocol_unsecure = read_flag (get_or cs 7 []);
  grinbox_address_index = read_number (get_or cs 8 []);
  mwc_node_uri = read_text (get_or cs 9 []);
  mwc_node_secret = read_text (get_or cs 10 []);
  grinbox_listener_auto_start = read_flag (get_or cs 11 []);
  keybase_listener_auto_start = read_flag (get_or cs 12 []);
  max_auto_accept_invoice = read_number (get_or cs 13 []);
  default_keybase_ttl = read_text (get_or cs 14 []);
  owner_api = read_flag (get_or cs 15 []);
  owner_api_address = read_text (get_or cs 16 []);
  owner_api_secret = read_text (get_or cs 17 []);
  owner_api_include_foreign = read_flag (get_or cs 18 []);
  foreign_api = read_flag (get_or cs 19 []);
  disable_history = read_flag (get_or cs 20 []);
  foreign_api_address = read_text (get_or cs 21 []);
  foreign_api_secret = read_text (get_or cs 22 []);
  tls_certificate_file = read_text (get_or cs 23 []);
  tls_certificate_key = read_text (get_or cs 24 []);
  wallet_updater_frequency_sec = read_number (get_or cs 25 []);
  config_home = none;
  grinbox_address_key = none;
}

from_cells_back : (config : Wallet713Config Bool) → from_cells (cells config) ≡ stored config
from_cells_back config =
    rw
      (
        read_chain_back config.chain,
        read_text_back config.keybase_binary,
        read_text_back config.mwcmq_domain,
        read_number_back config.mwcmq_port,
        read_text_back config.mwcmqs_domain,
        read_number_back config.mwcmqs_port,
        read_flag_back config.grinbox_protocol_unsecure,
        read_number_back config.grinbox_address_index,
        read_text_back config.mwc_node_uri,
        read_text_back config.mwc_node_secret,
        read_flag_back config.grinbox_listener_auto_start,
        read_flag_back config.keybase_listener_auto_start,
        read_number_back config.max_auto_accept_invoice,
        read_text_back config.default_keybase_ttl,
        read_flag_back config.owner_api,
        read_text_back config.owner_api_address,
        read_text_back config.owner_api_secret,
        read_flag_back config.owner_api_include_foreign,
        read_flag_back config.foreign_api,
        read_flag_back config.disable_history,
        read_text_back config.foreign_api_address,
        read_text_back config.foreign_api_secret,
        read_text_back config.tls_certificate_file,
        read_text_back config.tls_certificate_key,
        read_number_back config.wallet_updater_frequency_sec,
      )
      refl

-- The state is the text of the file that was written last.
abbrev to_toml : Wallet713Config Bool → Error ⊎ Bytes
to_toml config = inr (write_cells (cells config))

abbrev from_toml : Bytes → Error ⊎ Wallet713Config Bool
from_toml text = inr (from_cells (read_cells 26 (drop (length wallet713_config_help) text)))

abbrev right : {A : Type 0} → A → Error ⊎ A
right a = inr a

pub same : {A : Type 0} {a b : A} → right a ≡ right b → a ≡ b
same h = cc

pub toml_back :
    (config : Wallet713Config Bool) (text : Bytes)
    → to_toml config ≡ inr text
    → from_toml (wallet713_config_help ++ text) ≡ inr (stored config)
toml_back config text h = rw (← same h) (
    ap (λ t. right (from_cells (read_cells 26 t)))
      (drop_front wallet713_config_help (write_cells (cells config)))
    ∙ ap (λ cs. right (from_cells cs)) (read_cells_back (cells config))
    ∙ ap (λ (c : Wallet713Config Bool). right c) (from_cells_back config))

abbrev pair : Bytes → (Error ⊎ Unit {0}) × Bytes
pair text = (inr tt, text)

pub written : {text s : Bytes} → pair text ≡ pair s → right s ≡ right text
written h = cc

abbrev pub sample_files : Files Bool
sample_files = record {
  State = Bytes;
  home_dir = some (parse (codes "/home/me"));
  current_dir = inr (parse (codes "/"));
  to_str = λ p. some (codes "wallet713.toml");
  shortname = λ chain. codes "main";
  create_dir_all = λ p s. (inr tt, s);
  file_exists = λ s path. false;
  read_file = λ s path. inr s;
  create = λ path s. (inr tt, []);
  write_all = λ path text s. (inr tt, text);
  to_toml = to_toml;
  from_toml = from_toml;
  read_file-write_all = λ path text s s' h. written h;
  from_toml-to_toml = toml_back;
  from_toml-stored = λ text config h. subst (λ c. stored c ≡ c) (same h) refl;
}
