-- ===== src/Landscape/Connection/Uid.antt =====
-- The UID after a handshake of windows-agent/internal/proservices/landscape/connection.go.
use ubuntu_pro_for_wsl.Prelude.{◌≡◌, false, List, [], ◌∷◌, ◌++◌, Option, ok, err, is_empty}
use ubuntu_pro_for_wsl.ClientConfig.{Ini}
use ubuntu_pro_for_wsl.Config.{ConfigCodec, Config, Io, Notification, load, landscape_agent_uid}
use ubuntu_pro_for_wsl.Config.AgentUid.{Announces}
use ubuntu_pro_for_wsl.Landscape.Connection.{no_uid, Arrival, Tick, Shaken, arrive}

-- The configuration when a handshake times out, after all that arrives, and what it has notified.
abbrev pub before_timeout :
    {E ConfBytes Doc : Type 0}
    → ConfigCodec E ConfBytes
    → Ini E Doc
    → Option (Arrival E ConfBytes)
    → List (Tick E ConfBytes)
    → Config ConfBytes
    → Config ConfBytes × List Notification
before_timeout codec ini late [] c = arrive codec ini late c
before_timeout codec ini late (tick ∷ ticks) c =
    let (c1, notes) = arrive codec ini tick.arrival c in
    let (c2, _) = landscape_agent_uid codec tick.io c1 in
    let (c3, notes') = before_timeout codec ini late ticks c2 in (c3, notes ++ notes')

-- How a handshake ends: with a UID in the configuration, or with its timeout, which calls
-- SetLandscapeAgentUID with the empty UID on the configuration of that time, or with another error.
abbrev pub Settles :
    {E ConfBytes Doc : Type 0}
    → ConfigCodec E ConfBytes
    → Ini E Doc
    → Option (Arrival E ConfBytes)
    → Io E ConfBytes
    → List (Tick E ConfBytes)
    → Config ConfBytes
    → Shaken E ConfBytes
    → Type 0
Settles codec ini late io ticks c0 (c, notes, ok _) = is_empty c.state.landscape.uid ≡ false
Settles codec ini late io ticks c0 (c, notes, err (no_uid r)) =
    let (found, before) = before_timeout codec ini late ticks c0 in
    (after : List Notification) × (notes ≡ before ++ after)
    × Announces codec ini "" (load codec io found).0.state (c, r, after)
Settles codec ini late io ticks c0 (c, notes, err _) = Unit {0}
