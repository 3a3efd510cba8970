-- ===== src/Config/AgentUid.antt =====
-- What SetLandscapeAgentUID of windows-agent/internal/config/config.go leaves and notifies.
use ubuntu_pro_for_wsl.Prelude.{◌≡◌, ◌⊎◌, [], ◌∷◌, Result, ok, err, String, is_empty, if◌then◌else◌}
use ubuntu_pro_for_wsl.ConfigSource.{
  Source, source_none, source_user, source_registry, LandscapeConf, resolve_landscape,
}
use ubuntu_pro_for_wsl.ClientConfig.{Ini, complete_landscape_config}
use ubuntu_pro_for_wsl.Config.{
  ConfigState, ConfigCodec, Config, ConfigError, landscape_client, Answer,
}
use ubuntu_pro_for_wsl.Config.Persistence.{InSync}

-- The value of the field of a source.
abbrev pub client_conf : Source → LandscapeConf → String
client_conf source_user p = p.user_config
client_conf source_registry p = p.org_config
client_conf _ p = ""

-- There is nothing to set: the UID is there already, or there is no configuration of the client.
abbrev pub IsIdle : String → ConfigState → Type 0
IsIdle uid s = (s.landscape.uid ≡ uid) ⊎ ((resolve_landscape s.landscape).1 ≡ source_none)

-- The UID, and the configuration of the client that is in use, completed with it, are in memory and in
-- the file.
abbrev pub Stores :
    {E Bytes Doc : Type 0}
    → ConfigCodec E Bytes
    → Ini E Doc
    → String
    → ConfigState
    → Config Bytes
    → String
    → Type 0
Stores codec ini uid s c conf =
    (complete_landscape_config ini (resolve_landscape s.landscape).0 uid ≡ ok conf)
    × (client_conf (resolve_landscape s.landscape).1 c.state.landscape ≡ conf)
    × (c.state.landscape.uid ≡ uid)
    × InSync codec c

-- Memory is as it was in `s`, or the UID and the client configuration are stored.
abbrev Assigns :
    {E Bytes Doc : Type 0}
    → ConfigCodec E Bytes
    → Ini E Doc
    → String
    → ConfigState
    → Config Bytes × Result (ConfigError E) String
    → Type 0
Assigns {E} codec ini uid s (c, r) =
    ((c.state ≡ s) × (((r ≡ ok "") × IsIdle uid s) ⊎ ((e : ConfigError E) × (r ≡ err e))))
    ⊎ ((conf : String) × (r ≡ ok conf) × Stores codec ini uid s c conf)

-- After an error nothing is changed and nobody is notified. Without one that is so if there is nothing
-- to set; else the UID is stored, and notified with the configuration that is stored with it, unless
-- that is empty.
abbrev pub Announces :
    {E Bytes Doc : Type 0}
    → ConfigCodec E Bytes
    → Ini E Doc
    → String
    → ConfigState
    → Answer E Bytes (Unit {0})
    → Type 0
Announces codec ini uid s (c, err e, notes) = (c.state ≡ s) × (notes ≡ [])
Announces codec ini uid s (c, ok _, notes) =
    ((c.state ≡ s) × (notes ≡ []) × IsIdle uid s)
    ⊎ ((conf : String) × Stores codec ini uid s c conf
        × (notes ≡ (if is_empty conf then [] else landscape_client conf uid ∷ [])))
