-- ===== src/Landscape/Receiving.antt =====
-- receiveCommands of windows-agent/internal/proservices/landscape/connection.go, round by round. What a
-- round receives and what its command is answered are arguments; `none` is a panic.
pub mod Rounds
use ubuntu_pro_for_wsl.Prelude.{
  ℕ, Bool, true, false, List, [], ◌∷◌, ◌++◌, Option, none, some, Result, ok, err, String,
  if◌then◌else◌,
}
use ubuntu_pro_for_wsl.Task.{Task}
use ubuntu_pro_for_wsl.TaskManager.{Codec}
use ubuntu_pro_for_wsl.ClientConfig.{Ini}
use ubuntu_pro_for_wsl.Config.{ConfigCodec}
use ubuntu_pro_for_wsl.Database.{DbCodec}
use ubuntu_pro_for_wsl.Landscape.HostConf.{HostIni, HostConfError}
use ubuntu_pro_for_wsl.Landscape.HostInfo.{HostAgentInfo, InfoAnswers, new_host_agent_info}
use ubuntu_pro_for_wsl.Landscape.Connection.{ConnectionError, send_info}
use ubuntu_pro_for_wsl.Landscape.Executor.Host.{Host, CommandError}
use ubuntu_pro_for_wsl.Landscape.Executor.Commands.{Request, CommandAnswers, exec}

-- What Recv returns besides a command: io.EOF, or another error.
pub data ReceiveError (E : Type 0) : Type 0 where
  end_of_stream : ReceiveError E
  from_stream : E → ReceiveError E

-- The agent, and the messages that the server was sent.
pub record Link (ConfBytes Bytes DbBytes : Type 0) : Type 0 where
  pub host : Host ConfBytes Bytes DbBytes
  pub sent : List HostAgentInfo

-- One round: whether the context is done, what is received, and what the command and the message
-- that follows it meet. `is_open` is whether the connection is there once the command is executed.
pub record Received (E ConfBytes Bytes DbBytes : Type 0) : Type 0 where
  pub context_done : Bool
  pub received : Result (ReceiveError E) Request
  pub answers : CommandAnswers E ConfBytes Bytes DbBytes
  pub info : InfoAnswers E ConfBytes
  pub is_open : Bool
  pub send_error : Option E

-- How receiveCommands ends: with nil, or with an error. `listening` is that it goes on after the
-- rounds that are given.
pub data Finished (E : Type 0) : Type 0 where
  listening finished closed_by_server : Finished E
  not_received : E → Finished E

-- The message for sendInfo: nil after an error of newHostAgentInfo, which is logged.
unfoldable pub message :
    {E : Type 0} → Result (HostConfError E) HostAgentInfo → Option HostAgentInfo
message (err e) = none
message (ok info) = some info

module _ {E ConfBytes Bytes DbBytes Doc HostDoc : Type 0} (conf_codec : ConfigCodec E ConfBytes)
    (ini : Ini E Doc) (host_ini : HostIni E HostDoc) (db_codec : DbCodec E DbBytes)
    (codec : Codec E Task Bytes) (sha256 : List ℕ → List ℕ) where
  -- The ping after a command. An error of sendInfo is logged.
  unfoldable pub ping :
      String
      → Received E ConfBytes Bytes DbBytes
      → Link ConfBytes Bytes DbBytes
      → Option (Link ConfBytes Bytes DbBytes)
  unfolding message
  ping hostname round link =
      let (c, r) =
        new_host_agent_info host_ini conf_codec hostname round.info link.host.database.distros
          link.host.config in
      elim (send_info round.is_open round.send_error (message r)) [
        | none ↦ none
        | some (sent, _) ↦
            some (record { host = record (link.host) { config = c }; sent = link.sent ++ sent })
      ]

  unfoldable pub execute_command :
      (CommandError E → String)
      → String
      → Request
      → Received E ConfBytes Bytes DbBytes
      → Link ConfBytes Bytes DbBytes
      → Option (Link ConfBytes Bytes DbBytes)
  execute_command show hostname request round link =
      elim (exec conf_codec ini db_codec codec sha256 show request round.answers link.host) [
        | none ↦ none
        | some h ↦ ping hostname round (record link { host = h })
      ]

  unfoldable pub receive_commands :
      (CommandError E → String)
      → String
      → List (Received E ConfBytes Bytes DbBytes)
      → Link ConfBytes Bytes DbBytes
      → Option (Link ConfBytes Bytes DbBytes × Finished E)
  receive_commands show hostname [] link = some (link, listening)
  receive_commands show hostname (round ∷ rounds) link =
      if round.context_done then some (link, finished) else elim round.received [
        | err end_of_stream ↦ some (link, closed_by_server)
        | err (from_stream e) ↦ some (link, not_received e)
        | ok request ↦ elim (execute_command show hostname request round link) [
          | none ↦ none
          | some link' ↦ receive_commands show hostname rounds link'
        ]
      ]
