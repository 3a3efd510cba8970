-- ===== src/Landscape/Receiving/Rounds.antt =====
-- When receiveCommands of windows-agent/internal/proservices/landscape/connection.go panics.
use ubuntu_pro_for_wsl.Prelude.{
  ℕ, ◌≡◌, refl, ◌↔◌, Bool, true, false, List, [], ◌∷◌, ◌++◌, Option, none, some, Result, ok, err,
  String, if◌then◌else◌,
}
use ubuntu_pro_for_wsl.Task.{Task}
use ubuntu_pro_for_wsl.TaskManager.{Codec}
use ubuntu_pro_for_wsl.ClientConfig.{Ini}
use ubuntu_pro_for_wsl.Config.{ConfigCodec}
use ubuntu_pro_for_wsl.Database.{DbCodec}
use ubuntu_pro_for_wsl.Landscape.HostConf.{HostIni, HostConfError}
use ubuntu_pro_for_wsl.Landscape.HostInfo.{HostAgentInfo, new_host_agent_info}
use ubuntu_pro_for_wsl.Landscape.Connection.{send_info}
use ubuntu_pro_for_wsl.Landscape.Executor.Host.{Host, CommandError}
use ubuntu_pro_for_wsl.Landscape.Executor.Commands.{Request, exec}
use ubuntu_pro_for_wsl.Landscape.Receiving.{Link, Received, message, ping, execute_command}

-- What the server is sent after a command.
abbrev pub pinged : {E : Type 0} → Option E → HostAgentInfo → List HostAgentInfo
pinged none info = info ∷ []
pinged (some e) info = []

-- The fate of a ping by whether the connection is open and by what newHostAgentInfo returns.
abbrev pub Pings :
    {E ConfBytes Bytes DbBytes : Type 0}
    → Bool
    → Option E
    → List HostAgentInfo
    → Result (HostConfError E) HostAgentInfo
    → Option (Link ConfBytes Bytes DbBytes)
    → Type 0
Pings {E} {ConfBytes} {Bytes} {DbBytes} is_open answer sent r o =
    ((o ≡ none) ↔ ((is_open ≡ true) × ((e : HostConfError E) × (r ≡ err e))))
    × ((link : Link ConfBytes Bytes DbBytes)
        → o ≡ some link
        → (info : HostAgentInfo) → r ≡ ok info
        → link.sent ≡ sent ++ (if is_open then pinged answer info else []))

module _ {E ConfBytes Bytes DbBytes : Type 0} where
  sent_or_not :
      (is_open : Bool) (answer : Option E) (r : Result (HostConfError E) HostAgentInfo)
      (h : Host ConfBytes Bytes DbBytes) (sent : List HostAgentInfo)
      → Pings is_open answer sent r (elim (send_info is_open answer (message r)) [
        | none ↦ none
        | some (more, _) ↦ some (record { host = h; sent = sent ++ more })
      ])
  unfolding send_info message
  sent_or_not false answer r h sent =
      ((λ e. absurd (cc e), λ (o, _). absurd (cc o)), λ link e info k. cc e)
  sent_or_not true answer (err x) h sent =
      ((λ e. (refl, (x, refl)), λ _. refl), λ link e info k. absurd (cc e))
  sent_or_not true none (ok info) h sent =
      ((λ e. absurd (cc e), λ (_, (e, k)). absurd (cc k)), λ link e info' k. cc (e, k))
  sent_or_not true (some x) (ok info) h sent =
      ((λ e. absurd (cc e), λ (_, (e, k)). absurd (cc k)), λ link e info' k. cc (e, k))

module _ {E ConfBytes Bytes DbBytes Doc HostDoc : Type 0} (conf_codec : ConfigCodec E ConfBytes)
    (ini : Ini E Doc) (host_ini : HostIni E HostDoc) (db_codec : DbCodec E DbBytes)
    (codec : Codec E Task Bytes) (sha256 : List ℕ → List ℕ) where
  -- Once the command of a request is executed, the round panics if and only if the connection is open and
  -- newHostAgentInfo returns an error. If it returns a message and the round does not panic, the server
  -- has been sent that message, unless the connection is closed or sending fails.
  pub execute_command-Pings :
      (show : CommandError E → String) (hostname : String) (request : Request)
      (round : Received E ConfBytes Bytes DbBytes) (link : Link ConfBytes Bytes DbBytes)
      (h : Host ConfBytes Bytes DbBytes)
      → exec conf_codec ini db_codec codec sha256 show request round.answers link.host ≡ some h
      → Pings round.is_open round.send_error link.sent
          (new_host_agent_info host_ini conf_codec hostname round.info h.database.distros
            h.config).1
          (execute_command conf_codec ini host_ini db_codec codec sha256 show hostname request round
            link)
  unfolding execute_command ping
  execute_command-Pings show hostname request round link h x =
      let (c, r) =
        new_host_agent_info host_ini conf_codec hostname round.info h.database.distros h.config in
      rw (x, execute_command)
        (sent_or_not round.is_open round.send_error r (record h { config = c }) link.sent)
