-- ===== src/CloudInit/Examples.antt =====
-- The theorems about the cloud-init files at concrete inputs: a token is there, and agent.yaml is not.
use ubuntu_pro_for_wsl.Prelude.{[], ◌∷◌, none, some, ok, String, codes}
use ubuntu_pro_for_wsl.Config.{StoredConfig, ConfigCodec, new_config}
use ubuntu_pro_for_wsl.CloudInit.{Directory, WriteFaults, CloudCodec, AgentIo, CloudInit}

abbrev plain : ConfigCodec String StoredConfig
plain = record {
  marshal = λ s. ok s;
  unmarshal = λ b. ok b;
  no_bytes = record {
    user = "";
    store = "";
    subscription_checksum = "";
    user_config = "";
    uid = "";
    landscape_checksum = "";
  };
}

abbrev cloud : CloudCodec String String
cloud = record {
  parse = λ s. ok s;
  client = λ _. some (("account_name", "standalone") ∷ []);
  marshal = λ _. ok (codes "modules");
}

abbrev no_faults : WriteFaults String
no_faults = record {
  mkdir_error = none;
  write_error = none;
  rename_error = none;
  cleanup_error = none;
}

abbrev io : AgentIo String StoredConfig
io = record {
  pro_io = record { read_error = none; write_error = none };
  landscape_io = record { read_error = none; write_error = none };
  write_faults = no_faults;
  remove_error = none;
}

abbrev empty_dir : Directory
empty_dir name = none

abbrev with_token : CloudInit StoredConfig
with_token = record {
  data_dir = empty_dir;
  conf = new_config (
      some (record {
        user = "C123";
        store = "";
        subscription_checksum = "";
        user_config = "";
        uid = "";
        landscape_checksum = "";
      }));
}
