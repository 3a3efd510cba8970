-- ===== src/Config/Examples.antt =====
-- Tests of the configuration, and its theorems at concrete inputs. The codec of the tests keeps what
-- it is given; a document of the ini package is the text itself.
use ubuntu_pro_for_wsl.Prelude.{◌≡◌, refl, true, none, some, ok, String}
use ubuntu_pro_for_wsl.ClientConfig.{Ini}
use ubuntu_pro_for_wsl.Config.{
  StoredConfig, ConfigCodec, Config, Io, user_token, new_config, load, read_file, set, dump,
  write_file,
}
use ubuntu_pro_for_wsl.Config.Persistence.{ReadsStored, Sets, set-Sets}
use ubuntu_pro_for_wsl.Config.Registry.{RegistryData, update_registry_data, settle}

abbrev empty_stored : StoredConfig
empty_stored = record {
  user = "";
  store = "";
  subscription_checksum = "";
  user_config = "";
  uid = "";
  landscape_checksum = "";
}

abbrev plain : ConfigCodec String StoredConfig
plain = record { marshal = λ s. ok s; unmarshal = λ b. ok b; no_bytes = empty_stored }

plain-ReadsStored : ReadsStored plain
plain-ReadsStored s b h = cc h

abbrev verbatim : Ini String String
verbatim = record {
  parse = λ s. ok s;
  get_section = λ _ _. ok tt;
  has_key = λ _ _ _. true;
  new_key = λ _ _ _ doc. ok doc;
  set_value = λ _ _ _ doc. doc;
  write = λ doc. ok doc;
}

abbrev no_faults : Io String StoredConfig
no_faults = record { read_error = none; write_error = none }

abbrev read_only : Io String StoredConfig
read_only = record { read_error = none; write_error = some ("read only", none) }

abbrev fresh : Config StoredConfig
fresh = new_config none

abbrev from_registry : RegistryData
from_registry = record { ubuntu_pro_token = "token"; landscape_config = "[client]" }

set-Sets_example :
    Sets plain user_token "token"
      (load plain read_only fresh).0.state
      (set plain read_only user_token "token" fresh)
set-Sets_example = set-Sets plain plain-ReadsStored read_only user_token "token" fresh

updated : (update_registry_data plain verbatim (λ s. s) no_faults from_registry fresh).1 ≡ ok tt
unfolding update_registry_data load read_file dump write_file settle new_config
updated = refl

abbrev with_client : Config StoredConfig
with_client = new_config (
    some (record {
      user = "";
      store = "";
      subscription_checksum = "";
      user_config = "[client]";
      uid = "";
      landscape_checksum = "";
    }))
