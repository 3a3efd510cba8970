-- ===== src/Landscape/Controller.antt =====
-- windows-agent/internal/proservices/landscape/controller.go. What the ticks of a reconnection find is
-- an argument; they end when the context is done or the service stops. `none` is a panic.
pub mod Sending
use ubuntu_pro_for_wsl.Prelude.{
  Bool, true, false, List, [], ◌∷◌, Option, none, some, Result, ok, err, String, if◌then◌else◌,
}
use ubuntu_pro_for_wsl.Config.{ConfigCodec}
use ubuntu_pro_for_wsl.Landscape.HostConf.{HostIni, HostConfError}
use ubuntu_pro_for_wsl.Landscape.HostInfo.{HostAgentInfo, InfoAnswers, new_host_agent_info}
use ubuntu_pro_for_wsl.Landscape.Client.{ServerConnection, Service, is_connected, reconnect}
use ubuntu_pro_for_wsl.Landscape.Connection.{ConnectionError, no_info, send_info}

-- A reconnection: whether the connection ends before the context and the service do, and the service
-- at each tick from then on, as the goroutine of keepConnected and the others have left it: it resets
-- the retrier before it connects.
pub record Reconnection (ConfBytes Bytes DbBytes : Type 0) : Type 0 where
  pub disconnects : Bool
  pub ticks : List (Service ConfBytes Bytes DbBytes)

pub data ControllerError (E : Type 0) : Type 0 where
  could_not_connect : ControllerError E
  from_connection : ConnectionError E → ControllerError E

-- The service, the messages that were sent, and the result.
abbrev pub Controlled : Type 0 → Type 0 → Type 0 → Type 0 → Type 0
Controlled E ConfBytes Bytes DbBytes =
    Service ConfBytes Bytes DbBytes × List HostAgentInfo × Result (ControllerError E) (Unit {0})

module _ {ConfBytes Bytes DbBytes : Type 0} where
  -- The loop of forceReconnect.
  unfoldable pub wait_connected :
      List (Service ConfBytes Bytes DbBytes)
      → Service ConfBytes Bytes DbBytes
      → Service ConfBytes Bytes DbBytes × Bool
  wait_connected [] s = (s, false)
  wait_connected (seen ∷ ticks) s =
      let rest = wait_connected ticks seen in if is_connected seen.conn then (seen, true) else rest

  unfoldable pub force_reconnect :
      Reconnection ConfBytes Bytes DbBytes
      → Service ConfBytes Bytes DbBytes
      → Option (Service ConfBytes Bytes DbBytes × Bool)
  unfolding wait_connected
  force_reconnect a s = elim (reconnect s) [
    | none ↦ none
    | some s' ↦ some (if a.disconnects then wait_connected a.ticks s' else (s', false))
  ]

  unfoldable pub try_reconnect :
      Reconnection ConfBytes Bytes DbBytes
      → Service ConfBytes Bytes DbBytes
      → Option (Service ConfBytes Bytes DbBytes × Bool)
  unfolding force_reconnect
  try_reconnect a s = if is_connected s.conn then some (s, true) else force_reconnect a s

  -- Reconnect
  unfoldable pub controller_reconnect :
      Reconnection ConfBytes Bytes DbBytes
      → Service ConfBytes Bytes DbBytes
      → Option (Service ConfBytes Bytes DbBytes × Bool)
  controller_reconnect a s = if s.disabled then some (s, false) else force_reconnect a s

  -- An answer of sendInfo.
  unfoldable pub settle_sent :
      {E : Type 0}
      → Service ConfBytes Bytes DbBytes
      → List HostAgentInfo × Result (ConnectionError E) (Unit {0})
      → Controlled E ConfBytes Bytes DbBytes
  settle_sent s (sent, ok _) = (s, sent, ok tt)
  settle_sent s (sent, err e) = (s, sent, err (from_connection e))

  module _ {E Doc : Type 0} (ini : HostIni E Doc) (conf_codec : ConfigCodec E ConfBytes) where
    -- SendUpdatedInfo on a service that is connected.
    unfoldable pub send_host_info :
        String
        → InfoAnswers E ConfBytes
        → Option E
        → Service ConfBytes Bytes DbBytes
        → Option (Controlled E ConfBytes Bytes DbBytes)
    unfolding settle_sent
    send_host_info hostname a answer s =
        let (c, r) = new_host_agent_info ini conf_codec hostname a s.database.distros s.config in
        let s' = record s { config = c } in
        elim r [
          | err e ↦ some (s', [], err (from_connection (no_info e)))
          | ok info ↦ elim (send_info (is_connected s.conn) answer (some info)) [
            | none ↦ none
            | some sent ↦ some (settle_sent s' sent)
          ]
        ]

    unfoldable pub send_updated_info :
        String
        → Reconnection ConfBytes Bytes DbBytes
        → InfoAnswers E ConfBytes
        → Option E
        → Service ConfBytes Bytes DbBytes
        → Option (Controlled E ConfBytes Bytes DbBytes)
    unfolding try_reconnect send_host_info
    send_updated_info hostname reconnection a answer s =
        if s.disabled then some (s, [], ok tt) else elim (try_reconnect reconnection s) [
          | none ↦ none
          | some (s', connects) ↦
              if connects
              then send_host_info hostname a answer s'
              else some (s', [], err could_not_connect)
        ]
