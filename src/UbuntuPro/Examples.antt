-- ===== src/UbuntuPro/Examples.antt =====
-- The tokens of Ubuntu Pro at concrete inputs.
use ubuntu_pro_for_wsl.Prelude.{none, some, ok, String}
use ubuntu_pro_for_wsl.Config.{StoredConfig, ConfigCodec, Io, new_config}
use ubuntu_pro_for_wsl.Config.Persistence.{ReadsStored}
use ubuntu_pro_for_wsl.UbuntuPro.{FetchAnswers, fetch_from_microsoft_store}
use ubuntu_pro_for_wsl.UbuntuPro.Fetching.{Fetches, fetch_from_microsoft_store-Fetches}

abbrev stored_token : StoredConfig
stored_token = record {
  user = "";
  store = "old";
  subscription_checksum = "";
  user_config = "";
  uid = "";
  landscape_checksum = "";
}

abbrev codec : ConfigCodec String StoredConfig
codec = record { marshal = λ s. ok s; unmarshal = λ b. ok b; no_bytes = stored_token }

codec-ReadsStored : ReadsStored codec
codec-ReadsStored s b h = cc h

abbrev no_faults : Io String StoredConfig
no_faults = record { read_error = none; write_error = none }

-- The subscription has expired.
abbrev answers : FetchAnswers String StoredConfig
answers = record {
  subscription_io = no_faults;
  get_io = no_faults;
  set_io = no_faults;
  now = 100;
  expiration = ok 99;
  tokens = record {
    url_error = none;
    access_token = ok "access";
    user_jwt = λ _. ok "jwt";
    pro_token = λ _. ok "new";
  };
}

fetch_from_microsoft_store-Fetches_example :
    Fetches codec answers
      (new_config (some stored_token))
      (fetch_from_microsoft_store codec answers (new_config (some stored_token)))
fetch_from_microsoft_store-Fetches_example =
    fetch_from_microsoft_store-Fetches codec codec-ReadsStored answers
      (new_config (some stored_token))
