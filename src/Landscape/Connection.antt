-- ===== src/Landscape/Connection.antt =====
-- connection.go of windows-agent/internal/proservices/landscape, and transportCredentials of utils.go.
-- What gRPC, crypto/x509 and the file system answer is an argument. A UID that receiveCommands takes
-- in during the handshake is an arrival before one of its ticks.
pub mod Uid
use ubuntu_pro_for_wsl.Prelude.{
  ℕ, Bool, true, false, List, [], ◌∷◌, ◌++◌, Option, none, some, Result, ok, err, map_err, String,
  is_empty, if◌then◌else◌,
}
use ubuntu_pro_for_wsl.ClientConfig.{Ini}
use ubuntu_pro_for_wsl.Config.{
  ConfigCodec, Config, Io, ConfigError, Notification, Answer, landscape_agent_uid,
}
use ubuntu_pro_for_wsl.Config.Registry.{set_landscape_agent_uid}
use ubuntu_pro_for_wsl.Database.{DistroMap}
use ubuntu_pro_for_wsl.Landscape.HostConf.{
  HostIni, HostConfError, LandscapeHostConf, new_landscape_host_conf,
}
use ubuntu_pro_for_wsl.Landscape.HostInfo.{HostAgentInfo, InfoAnswers, new_host_agent_info}
use ubuntu_pro_for_wsl.Landscape.Client.{
  ConnectionSettings, ServerConnection, new_connection_settings,
}

pub data Credentials : Type 0 where
  insecure system_pool : Credentials
  server_key : List ℕ → Credentials

-- What transportCredentials meets.
pub record Certificates (E : Type 0) : Type 0 where
  pub is_insecure : Bool
  pub system_error : Option E
  pub read_file : String → Result E (List ℕ)
  pub append_certs : List ℕ → Bool

-- Why there is no connection. `no_uid` is the timeout of the handshake, with what SetLandscapeAgentUID
-- returned then.
pub data ConnectionError (E : Type 0) : Type 0 where
  from_conf no_info : HostConfError E → ConnectionError E
  no_certificates no_key_file no_channel no_stream not_sent unreadable_uid : E → ConnectionError E
  not_trusted disconnected : ConnectionError E
  no_uid : Result (ConfigError E) (Unit {0}) → ConnectionError E

unfoldable pub transport_credentials :
    {E : Type 0} → Certificates E → String → Result (ConnectionError E) Credentials
transport_credentials a path =
    if a.is_insecure
    then ok insecure
    else (if is_empty path
        then elim a.system_error [ some e ↦ err (no_certificates e) | none ↦ ok system_pool ]
        else elim (a.read_file path) [
          | err e ↦ err (no_key_file e)
          | ok cert ↦ if a.append_certs cert then ok (server_key cert) else err not_trusted
        ])

-- sendInfo: the messages that the server was sent, and the result. A message that is nil is copied
-- for the log, which panics.
unfoldable pub send_info :
    {E : Type 0}
    → Bool
    → Option E
    → Option HostAgentInfo
    → Option (List HostAgentInfo × Result (ConnectionError E) (Unit {0}))
send_info false answer info = some ([], err disconnected)
send_info true answer none = none
send_info true none (some info) = some (info ∷ [], ok tt)
send_info true (some e) (some info) = some ([], err (not_sent e))

-- A UID that arrives from the server.
pub record Arrival (E ConfBytes : Type 0) : Type 0 where
  pub uid : String
  pub io : Io E ConfBytes

-- A tick of the handshake reads the UID, after what has arrived.
pub record Tick (E ConfBytes : Type 0) : Type 0 where
  pub arrival : Option (Arrival E ConfBytes)
  pub io : Io E ConfBytes

-- What a handshake meets. It times out after its ticks, if none finds a UID.
pub record HandshakeAnswers (E ConfBytes : Type 0) : Type 0 where
  pub info : InfoAnswers E ConfBytes
  pub is_open : Bool
  pub send_error : Option E
  pub uid_io : Io E ConfBytes
  pub ticks : List (Tick E ConfBytes)
  pub late : Option (Arrival E ConfBytes)
  pub timeout_io : Io E ConfBytes

-- The configuration, what it has notified, and the result.
abbrev pub Shaken : Type 0 → Type 0 → Type 0
Shaken E ConfBytes = Config ConfBytes × List Notification × Result (ConnectionError E) (Unit {0})

module _ {E ConfBytes Doc : Type 0} (conf_codec : ConfigCodec E ConfBytes) (ini : Ini E Doc) where
  unfoldable pub arrive :
      Option (Arrival E ConfBytes) → Config ConfBytes → Config ConfBytes × List Notification
  arrive none c = (c, [])
  arrive (some a) c =
      let (c', r, notes) = set_landscape_agent_uid conf_codec ini a.io a.uid c in (c', notes)

  -- After the timeout the UID is reset.
  unfoldable pub time_out :
      Option (Arrival E ConfBytes) → Io E ConfBytes → Config ConfBytes → Shaken E ConfBytes
  unfolding arrive
  time_out late io c =
      let (c', notes) = arrive late c in
      let (c'', r, notes') = set_landscape_agent_uid conf_codec ini io "" c' in
      (c'', notes ++ notes', err (no_uid r))

  -- The loop of handshake.
  unfoldable pub wait_for_uid :
      Option (Arrival E ConfBytes)
      → Io E ConfBytes
      → List (Tick E ConfBytes)
      → Config ConfBytes
      → Shaken E ConfBytes
  unfolding arrive time_out
  wait_for_uid late io [] c = time_out late io c
  wait_for_uid late io (tick ∷ ticks) c =
      let (c1, notes) = arrive tick.arrival c in
      let (c2, r) = landscape_agent_uid conf_codec tick.io c1 in
      let (c3, notes', r') = wait_for_uid late io ticks c2 in
      elim r [
        | err e ↦ (c2, notes, err (unreadable_uid e))
        | ok uid ↦ if is_empty uid then (c3, notes ++ notes', r') else (c2, notes, ok tt)
      ]

  -- What follows the first message.
  unfoldable pub settle_handshake :
      HandshakeAnswers E ConfBytes → Config ConfBytes → Shaken E ConfBytes
  unfolding wait_for_uid
  settle_handshake a c =
      let (c', r) = landscape_agent_uid conf_codec a.uid_io c in
      elim r [
        | err e ↦ (c', [], err (unreadable_uid e))
        | ok uid ↦
            if is_empty uid then wait_for_uid a.late a.timeout_io a.ticks c' else (c', [], ok tt)
      ]

  -- handshake, with the distros that GetAll returns.
  unfoldable pub handshake :
      {HostDoc Bytes : Type 0}
      → HostIni E HostDoc
      → String
      → HandshakeAnswers E ConfBytes
      → DistroMap Bytes
      → Config ConfBytes
      → Option (Shaken E ConfBytes)
  handshake host_ini hostname a ds c =
      let (c', r) = new_host_agent_info host_ini conf_codec hostname a.info ds c in
      elim r [
        | err e ↦ some (c', [], err (no_info e))
        | ok info ↦ elim (send_info a.is_open a.send_error (some info)) [
          | none ↦ none
          | some (_, err e) ↦ some (c', [], err e)
          | some (_, ok _) ↦ some (settle_handshake a c')
        ]
      ]

-- What newConnection meets: grpc.NewClient and Connect of the client may fail. `is_open` is whether the
-- goroutine that receives commands has not disconnected by the time that the handshake is over.
pub record ConnectAnswers (E ConfBytes : Type 0) : Type 0 where
  pub subscription_io : Io E ConfBytes
  pub landscape_io : Io E ConfBytes
  pub certificates : Certificates E
  pub channel_error : Option E
  pub stream_error : Option E
  pub shake : HandshakeAnswers E ConfBytes
  pub is_open : Bool

-- The configuration, what it has notified, and the connection.
abbrev pub Connected : Type 0 → Type 0 → Type 0
Connected E ConfBytes =
    Config ConfBytes × List Notification × Result (ConnectionError E) ServerConnection

unfoldable pub settle_connection :
    {E ConfBytes : Type 0} → ConnectionSettings → Bool → Shaken E ConfBytes → Connected E ConfBytes
settle_connection settings is_open (c, notes, err e) = (c, notes, err e)
settle_connection settings is_open (c, notes, ok _) =
    (c, notes, ok (record { settings = settings; is_open = is_open }))

-- The errors of newConnection before the handshake.
unfoldable pub open_stream :
    {E ConfBytes : Type 0}
    → ConnectAnswers E ConfBytes
    → ConnectionSettings
    → Result (ConnectionError E) (Unit {0})
open_stream a settings = elim (transport_credentials a.certificates settings.certificate_path) [
  | err e ↦ err e
  | ok _ ↦ elim a.channel_error [
    | some e ↦ err (no_channel e)
    | none ↦ elim a.stream_error [ some e ↦ err (no_stream e) | none ↦ ok tt ]
  ]
]

module _ {E ConfBytes Doc HostDoc Bytes : Type 0} (conf_codec : ConfigCodec E ConfBytes)
    (ini : Ini E Doc) (host_ini : HostIni E HostDoc) where
  unfoldable pub new_connection :
      String
      → ConnectAnswers E ConfBytes
      → DistroMap Bytes
      → Config ConfBytes
      → Option (Connected E ConfBytes)
  new_connection hostname a ds c =
      let (c', r) =
        new_landscape_host_conf host_ini conf_codec a.subscription_io a.landscape_io c in
      elim r [
        | err e ↦ some (c', [], err (from_conf e))
        | ok conf ↦
            let settings = new_connection_settings conf in
            elim (open_stream a settings) [
              | err e ↦ some (c', [], err e)
              | ok _ ↦ elim (handshake conf_codec ini host_ini hostname a.shake ds c') [
                | none ↦ none
                | some shaken ↦ some (settle_connection settings a.is_open shaken)
              ]
            ]
      ]
