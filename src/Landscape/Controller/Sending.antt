-- ===== src/Landscape/Controller/Sending.antt =====
-- What SendUpdatedInfo of windows-agent/internal/proservices/landscape/controller.go sends.
use ubuntu_pro_for_wsl.Prelude.{
  ◌≡◌, Bool, true, false, List, [], ◌∷◌, Option, none, some, ok, err, String, ◌⊎◌,
}
use ubuntu_pro_for_wsl.Config.{ConfigCodec}
use ubuntu_pro_for_wsl.Landscape.Retry.Flag.{Stands}
use ubuntu_pro_for_wsl.Landscape.HostConf.{HostIni, HostConfError}
use ubuntu_pro_for_wsl.Landscape.HostInfo.{HostAgentInfo, InfoAnswers, new_host_agent_info}
use ubuntu_pro_for_wsl.Landscape.Client.{Service, is_connected}
use ubuntu_pro_for_wsl.Landscape.Connection.{no_info, not_sent}
use ubuntu_pro_for_wsl.Landscape.Controller.{
  Reconnection, from_connection, could_not_connect, Controlled,
}

abbrev pub IsOneOf : {A : Type 0} → A → List A → Type 0
IsOneOf a [] = ⊥
IsOneOf a (x ∷ xs) = (a ≡ x) ⊎ IsOneOf a xs

module _ {ConfBytes Bytes DbBytes : Type 0} where
  -- The service that the message is about: it is connected, and is the one of the call, or, if that is
  -- not connected, one of those that are seen after it has asked for a connection.
  abbrev pub IsSeen :
      Reconnection ConfBytes Bytes DbBytes
      → Service ConfBytes Bytes DbBytes
      → Service ConfBytes Bytes DbBytes
      → Type 0
  IsSeen a s seen =
      (is_connected seen.conn ≡ true)
      × (((is_connected s.conn ≡ true) × (seen ≡ s))
          ⊎ ((is_connected s.conn ≡ false) × (a.disconnects ≡ true) × IsOneOf seen a.ticks))

  -- What tryReconnect returns, and leaves if it asks for a connection without waiting for it.
  abbrev Tries :
      Reconnection ConfBytes Bytes DbBytes
      → Service ConfBytes Bytes DbBytes
      → Service ConfBytes Bytes DbBytes
      → Bool
      → Type 0
  Tries a s s' true = IsSeen a s s'
  Tries a s s' false =
      (is_connected s.conn ≡ false) × (a.disconnects ≡ false → Stands true s'.retrier)

module _ {E ConfBytes Bytes DbBytes Doc : Type 0} (ini : HostIni E Doc)
    (codec : ConfigCodec E ConfBytes) where
  -- A service that is connected has sent just the message about its host, or an error has kept it from
  -- that.
  abbrev pub SendsHostInfo :
      String
      → InfoAnswers E ConfBytes
      → Option E
      → Service ConfBytes Bytes DbBytes
      → Controlled E ConfBytes Bytes DbBytes
      → Type 0
  SendsHostInfo hostname a answer s (s', sent, ok _) =
      let (c, r) = new_host_agent_info ini codec hostname a s.database.distros s.config in
      (info : HostAgentInfo) × (r ≡ ok info)
      × (answer ≡ none)
      × (sent ≡ info ∷ [])
      × (s' ≡ record s { config = c })
  SendsHostInfo hostname a answer s (s', sent, err e) =
      (sent ≡ [])
      × (((x : HostConfError E) × (e ≡ from_connection (no_info x)))
          ⊎ ((x : E) × (answer ≡ some x) × (e ≡ from_connection (not_sent x))))

  -- What SendUpdatedInfo has done.
  abbrev pub Sends :
      String
      → Reconnection ConfBytes Bytes DbBytes
      → InfoAnswers E ConfBytes
      → Option E
      → Service ConfBytes Bytes DbBytes
      → Controlled E ConfBytes Bytes DbBytes
      → Type 0
  Sends hostname rec a answer s x =
      ((s.disabled ≡ true) × (x ≡ (s, [], ok tt)))
      ⊎ ((s.disabled ≡ false)
          × (((seen : Service ConfBytes Bytes DbBytes) × IsSeen rec s seen
                × SendsHostInfo hostname a answer seen x)
              ⊎ ((is_connected s.conn ≡ false)
                  × (x.1 ≡ [])
                  × (x.2 ≡ err could_not_connect)
                  × (rec.disconnects ≡ false → Stands true x.0.retrier))))
