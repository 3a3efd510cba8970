-- ===== src/Landscape/ServiceExamples.antt =====
-- The theorems about the Landscape service at concrete inputs. A document of the ini package is the list
-- of its keys, each with its section; the configuration is written as it is.
use ubuntu_pro_for_wsl.Prelude.{
  ◌≡◌, true, false, List, [], ◌∷◌, map, Option, none, some, ok, err, String, str_eq, any, reject,
  if◌then◌else◌,
}
use ubuntu_pro_for_wsl.Task.{Task}
use ubuntu_pro_for_wsl.StateManager.{running, new_state_manager}
use ubuntu_pro_for_wsl.ClientConfig.{Ini}
use ubuntu_pro_for_wsl.Config.{StoredConfig, ConfigCodec, Config, Io, new_config}
use ubuntu_pro_for_wsl.Distro.{Distro}
use ubuntu_pro_for_wsl.Database.{SerializableDistro}
use ubuntu_pro_for_wsl.Landscape.Retry.{new_retry_connection}
use ubuntu_pro_for_wsl.Landscape.Retry.Flag.{new-Stands}
use ubuntu_pro_for_wsl.Landscape.HostConf.{HostIni, new_landscape_host_conf}
use ubuntu_pro_for_wsl.Landscape.HostInfo.{StateAnswers, InfoAnswers, instances_of}
use ubuntu_pro_for_wsl.Landscape.HostInfo.Instances.{
  described, state_of, answered_first, listed, instances_of-listed,
}
use ubuntu_pro_for_wsl.Landscape.Client.{Service, reconnect_if_new_settings}
use ubuntu_pro_for_wsl.Landscape.Client.Settings.{asked, Asks, reconnect_if_new_settings-Asks}
use ubuntu_pro_for_wsl.Landscape.Connection.{HandshakeAnswers}
use ubuntu_pro_for_wsl.Landscape.Controller.{Reconnection}

abbrev conf_codec : ConfigCodec String StoredConfig
conf_codec = record {
  marshal = λ s. ok s;
  unmarshal = λ b. ok b;
  no_bytes = record {
    user = "";
    store = "";
    subscription_checksum = "";
    user_config = "";
    uid = "";
    landscape_checksum = "";
  };
}

abbrev conf_ini : Ini String String
conf_ini = record {
  parse = λ s. ok s;
  get_section = λ _ _. ok tt;
  has_key = λ _ _ _. true;
  new_key = λ _ _ _ doc. ok doc;
  set_value = λ _ _ _ doc. doc;
  write = λ doc. ok doc;
}

-- A key: its section, its name and its value.
abbrev Doc : Type 0
Doc = List (String × String × String)

abbrev get_from : String → String → Doc → Option String
get_from section key [] = none
get_from section key ((s, k, v) ∷ doc) =
    let rest = get_from section key doc in
    if str_eq s section then (if str_eq k key then some v else rest) else rest

abbrev host_ini : HostIni String Doc
host_ini = record {
  parse = λ s. ok (("client", "account_name", s) ∷ ("host", "url", "landscape:6554") ∷ []);
  has_section = λ section doc. any (λ k. str_eq k.0 section) doc;
  sections = λ doc. map (λ k. k.0) doc;
  get_key = get_from;
  delete_section = λ section doc. reject (λ k. str_eq k.0 section) doc;
  write = λ doc. ok "[client]";
}

abbrev no_faults : Io String StoredConfig
no_faults = record { read_error = none; write_error = none }

abbrev config : Config StoredConfig
config = new_config (
    some (record {
      user = "token";
      store = "";
      subscription_checksum = "";
      user_config = "standalone";
      uid = "";
      landscape_checksum = "";
    }))

abbrev distro : Distro (List Task)
distro = record {
  identity = record { name = "ubuntu"; guid = 7 };
  properties = record {
    distro_id = "ubuntu";
    version_id = "24.04";
    pretty_name = "Ubuntu";
    hostname = "host";
    pro_attached = false;
  };
  invalidated = false;
  worker = record {
    manager = record {
      tasks = record { channel = 0; notified = 0; items = [] };
      deferred_tasks = record { channel = 0; notified = 0; items = [] };
      disk = record { file = none; file_new = none };
    };
    conn = none;
    closed = [];
  };
  state_manager = new_state_manager;
}

abbrev service : Service StoredConfig (List Task) (List SerializableDistro)
service = record {
  config = config;
  database = record {
    distros = ("ubuntu", distro) ∷ [];
    disk = record { file = none; file_new = none };
    stopped = false;
    discarded = [];
  };
  conn = none;
  disabled = false;
  retrier = new_retry_connection;
}

reconnect_if_new_settings-Asks_example :
    let (c, r) = new_landscape_host_conf host_ini conf_codec no_faults no_faults config in
    Asks false
      (asked r)
      c
      service
      (reconnect_if_new_settings host_ini conf_codec no_faults no_faults service)
reconnect_if_new_settings-Asks_example =
    reconnect_if_new_settings-Asks host_ini conf_codec no_faults no_faults false service new-Stands

abbrev states : String → StateAnswers String
states name = record { first = err "busy"; retries = ok running ∷ [] }

instances_of-listed_example :
    instances_of states service.database.distros
    ≡ map
        (λ e. described e.1 (state_of (answered_first (states e.0))))
        (listed states service.database.distros)
instances_of-listed_example = instances_of-listed states (("ubuntu", distro) ∷ [])

abbrev info_answers : InfoAnswers String StoredConfig
info_answers = record {
  subscription_io = no_faults;
  landscape_io = no_faults;
  uid_io = no_faults;
  states = states;
  default_distro = ok (some "ubuntu");
}

-- The server assigns a UID before the second tick.
abbrev shake : HandshakeAnswers String StoredConfig
shake = record {
  info = info_answers;
  is_open = true;
  send_error = none;
  uid_io = no_faults;
  ticks =
      record { arrival = none; io = no_faults }
      ∷ record { arrival = some (record { uid = "id-1"; io = no_faults }); io = no_faults }
      ∷ [];
  late = none;
  timeout_io = no_faults;
}

abbrev reconnection : Reconnection StoredConfig (List Task) (List SerializableDistro)
reconnection = record {
  disconnects = true;
  ticks =
      record service { conn = none }
      ∷ record service {
        conn = some (record {
          settings = record { url = "landscape:6554"; certificate_path = "" };
          is_open = true;
        });
      }
      ∷ [];
}
