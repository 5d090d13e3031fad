-- ===== src/Config/Tests.antt =====
-- A configuration's directories and addresses.
use mwc.Prelude.{◌≡◌, refl, true, codes, ok}
use mwc.Paths.{PathBuf, parse, push}
use mwc.Samples.{sample_crypto, sample_cipher}
use mwc.Samples.Library.{sample_config}
use mwc.Config.{get_data_path, get_top_level_directory, get_wallet_data_directory}
use mwc.Config.Directories.{get_wallet_data_directory-get_top_level_directory}
use mwc.Config.Addresses.{Addressed, get_grinbox_address-Addressed}

abbrev top : PathBuf
top = parse (codes "/home/me/.mwc713/main/wallets")

data_path : get_data_path sample_config ≡ parse (codes "/home/me/.mwc713/main/wallets/main")
unfolding get_data_path
data_path = refl

top_is : get_top_level_directory sample_config ≡ ok top
unfolding get_top_level_directory
top_is = refl

name_is : get_wallet_data_directory sample_config ≡ ok (codes "main")
unfolding get_wallet_data_directory
name_is = refl

joined_again : push top (parse (codes "main")) ≡ get_data_path sample_config
joined_again = get_wallet_data_directory-get_top_level_directory sample_config top_is name_is

get_grinbox_address-Addressed_example : Addressed sample_crypto sample_cipher sample_config true
get_grinbox_address-Addressed_example =
    get_grinbox_address-Addressed sample_crypto sample_cipher sample_config true refl
