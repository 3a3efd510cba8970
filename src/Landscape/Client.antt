-- ===== src/Landscape/Client.antt =====
-- The listeners of windows-agent/internal/proservices/landscape/service.go, and what they use of
-- connection.go and utils.go. What the registry answers about a distro is an argument.
pub mod Settings
use ubuntu_pro_for_wsl.Prelude.{
  ℕ, Bool, true, false, ◌&&◌, List, [], ◌∷◌, Option, none, some, Result, ok, err, String, str_eq,
  is_empty, if◌then◌else◌,
}
use ubuntu_pro_for_wsl.Storage.{Faults}
use ubuntu_pro_for_wsl.Task.{Task, landscape_configure}
use ubuntu_pro_for_wsl.TaskManager.{Codec}
use ubuntu_pro_for_wsl.Config.{ConfigCodec, Config, Io}
use ubuntu_pro_for_wsl.Distro.{RegistryAnswer}
use ubuntu_pro_for_wsl.Database.{DistroDb}
use ubuntu_pro_for_wsl.Distribution.{distribute_task}
use ubuntu_pro_for_wsl.Landscape.Retry.{RetryConnection, request}
use ubuntu_pro_for_wsl.Landscape.HostConf.{
  HostIni, HostConfError, is_no_config, LandscapeHostConf, new_landscape_host_conf,
  filter_client_section,
}

pub record ConnectionSettings : Type 0 where
  pub url : String
  pub certificate_path : String

-- connection, with whether its gRPC channel is there and not shut down.
pub record ServerConnection : Type 0 where
  pub settings : ConnectionSettings
  pub is_open : Bool

-- Service, without its goroutine.
pub record Service (ConfBytes Bytes DbBytes : Type 0) : Type 0 where
  pub config : Config ConfBytes
  pub database : DistroDb Bytes DbBytes
  pub conn : Option ServerConnection
  pub disabled : Bool
  pub retrier : RetryConnection

-- conn.connected: `none` is a nil connection.
unfoldable pub is_connected : Option ServerConnection → Bool
is_connected none = false
is_connected (some conn) = conn.is_open

unfoldable pub empty_settings : ConnectionSettings
empty_settings = record { url = ""; certificate_path = "" }

unfoldable pub new_connection_settings : LandscapeHostConf → ConnectionSettings
new_connection_settings conf = record {
  url = conf.hostagent_url;
  certificate_path = conf.ssl_public_key;
}

-- newSett == oldSettings
unfoldable pub settings_eq : ConnectionSettings → ConnectionSettings → Bool
settings_eq s t = str_eq s.url t.url && str_eq s.certificate_path t.certificate_path

unfoldable pub old_settings : Option ServerConnection → ConnectionSettings
unfolding empty_settings
old_settings none = empty_settings
old_settings (some conn) = conn.settings

-- The settings that the configuration asks for: with a noConfigError those of an empty one. `none`
-- is an error that ends the listener.
unfoldable pub new_settings :
    {E : Type 0} → Result (HostConfError E) LandscapeHostConf → Option ConnectionSettings
unfolding empty_settings new_connection_settings is_no_config
new_settings (ok conf) = some (new_connection_settings conf)
new_settings (err e) = if is_no_config e then some empty_settings else none

module _ {ConfBytes Bytes DbBytes : Type 0} where
  unfoldable pub reconnect :
      Service ConfBytes Bytes DbBytes → Option (Service ConfBytes Bytes DbBytes)
  reconnect s = elim (request s.retrier) [ none ↦ none | some r ↦ some (record s { retrier = r }) ]

  unfoldable pub reconnect_if_differ :
      Option ConnectionSettings
      → Service ConfBytes Bytes DbBytes
      → Option (Service ConfBytes Bytes DbBytes)
  unfolding old_settings
  reconnect_if_differ none s = some s
  reconnect_if_differ (some new) s =
      if settings_eq new (old_settings s.conn) then some s else reconnect s

  unfoldable pub reconnect_if_new_settings :
      {E Doc : Type 0}
      → HostIni E Doc
      → ConfigCodec E ConfBytes
      → Io E ConfBytes
      → Io E ConfBytes
      → Service ConfBytes Bytes DbBytes
      → Option (Service ConfBytes Bytes DbBytes)
  reconnect_if_new_settings ini conf_codec io io' s =
      let (c, r) = new_landscape_host_conf ini conf_codec io io' s.config in
      reconnect_if_differ (new_settings r) (record s { config = c })

-- distributeConfig
unfoldable pub distribute_config :
    {E Bytes DbBytes : Type 0}
    → Codec E Task Bytes
    → Faults E Bytes
    → (String → RegistryAnswer)
    → String
    → DistroDb Bytes DbBytes
    → Option (DistroDb Bytes DbBytes)
distribute_config codec io answers conf db =
    distribute_task codec io answers (landscape_configure conf) db

module _ {E Doc : Type 0} (ini : HostIni E Doc) where
  -- The client configuration that the distros are to have: `none` if it cannot be filtered.
  unfoldable pub distributed_conf : String → String → Option String
  distributed_conf conf uid =
      if is_empty uid
      then some ""
      else (if is_empty conf
          then some ""
          else elim (filter_client_section ini conf) [ err e ↦ none | ok s ↦ some s ])

  -- NotifyConfigUpdate. An error of filterClientSection ends it.
  unfoldable pub notify_config_update :
      {ConfBytes Bytes DbBytes : Type 0}
      → ConfigCodec E ConfBytes
      → Codec E Task Bytes
      → Faults E Bytes
      → (String → RegistryAnswer)
      → Io E ConfBytes
      → Io E ConfBytes
      → String
      → String
      → Service ConfBytes Bytes DbBytes
      → Option (Service ConfBytes Bytes DbBytes)
  unfolding distributed_conf
  notify_config_update conf_codec codec task_io answers io io' conf uid s =
      elim (distributed_conf conf uid) [
        | none ↦ some s
        | some filtered ↦ elim (distribute_config codec task_io answers filtered s.database) [
          | none ↦ none
          | some db ↦ reconnect_if_new_settings ini conf_codec io io' (record s { database = db })
        ]
      ]
