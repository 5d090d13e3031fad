-- ===== src/Config/FileTests.antt =====
-- A configuration that is made and changed from the command line.
use mwc.Prelude.{◌≡◌, refl, Bool, none, some, Bytes, codes, ◌++◌, err}
use mwc.ErrorKind.{kind, number_parsing_error}
use mwc.Effects.{returns}
use mwc.Samples.Files.{sample_files, write_cells, cells}
use mwc.Config.{Wallet713Config, mainnet, default}
use mwc.Config.Files.{Args, read_u16, config_file, to_file, do_config, wallet713_config_help}
use mwc.Config.Saved.{Saved, Applied, do_config-Saved}

abbrev args : Args
args = record {
  data_path = none;
  domain = some (codes "mq.mwc.mw");
  port = some (codes "+700");
  node_uri = none;
  node_secret = none;
}

-- A sign may stand in front of a port, and no more than a port.
too_large : read_u16 (codes "65536") ≡ none
too_large = refl

sign_only : read_u16 (codes "+") ≡ none
sign_only = refl

abbrev set_config : Wallet713Config Bool
set_config = record (default mainnet) {
  mwcmq_domain = some (codes "mq.mwc.mw");
  mwcmq_port = some 700;
  grinbox_address_index = some 3;
}

abbrev config : Wallet713Config Bool
config = record set_config { config_home = some (codes "wallet713.toml") }

abbrev text : Bytes
text = wallet713_config_help ++ write_cells (cells set_config)

done : do_config sample_files args mainnet (some 3) none (codes "") ≡ returns config text
unfolding do_config config_file to_file
done = refl

bad_port :
    do_config sample_files (record args { port = some (codes "-1") }) mainnet none none (codes "")
    ≡ (err (kind number_parsing_error), codes "")
unfolding do_config config_file
bad_port = refl

do_config-Saved_example : Saved sample_files config text × Applied args (some 3) config
do_config-Saved_example =
    do_config-Saved sample_files args mainnet (some 3) none (codes "") config text done
