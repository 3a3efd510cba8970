-- ===== src/Landscape/Executor/Host.antt =====
-- What the commands of windows-agent/internal/proservices/landscape/executor.go work on, and the
-- messages that they send.
use ubuntu_pro_for_wsl.Prelude.{
  List, [], ◌∷◌, ◌++◌, Option, none, some, String, is_empty, if◌then◌else◌, Action, yields, fails,
}
use ubuntu_pro_for_wsl.Config.{Config, ConfigError, Notification}
use ubuntu_pro_for_wsl.Distro.{DistroError}
use ubuntu_pro_for_wsl.Database.{DistroDb, DbError}
use ubuntu_pro_for_wsl.CloudInit.{Directory}
use ubuntu_pro_for_wsl.Landscape.Download.{DownloadError}
use ubuntu_pro_for_wsl.Landscape.DefaultUser.{UserError}

pub data CommandState : Type 0 where
  queued in_progress completed : CommandState

-- landscapeapi.CommandStatus
pub record Status : Type 0 where
  pub command_state : CommandState
  pub request_id : String
  pub error : String

-- The calls that the commands make outside of the agent, with the name of the distro.
pub data Call : Type 0 where
  sends : Status → Call
  downloads imports installs launches unregisters sets_default : String → Call
  shuts_down : Call

-- The agent, as far as the executor changes it. `notified` is what the configuration notifies of.
pub record Host (ConfBytes Bytes DbBytes : Type 0) : Type 0 where
  pub config : Config ConfBytes
  pub database : DistroDb Bytes DbBytes
  pub cloud_init : Directory
  pub notified : List Notification
  pub calls : List Call

pub data CommandError (E : Type 0) : Type 0 where
  from_host : E → CommandError E
  from_config : ConfigError E → CommandError E
  of_distro : DistroError E → CommandError E
  from_database : DbError E → CommandError E
  from_download : DownloadError E → CommandError E
  from_user : UserError E → CommandError E
  empty_uid not_in_database empty_name already_installed reserved unknown_command : CommandError E

-- The request of a context, if it has one.
abbrev pub Context : Type 0
Context = Option String

-- A command, or a step of one.
abbrev pub Run : Type 0 → Type 0 → Type 0 → Type 0 → Type 0
Run ConfBytes Bytes DbBytes E = Action (Host ConfBytes Bytes DbBytes) (CommandError E) (Unit {0})

module _ {ConfBytes Bytes DbBytes E : Type 0} where
  unfoldable pub call : Call → Run ConfBytes Bytes DbBytes E
  call c h = yields tt (record h { calls = h.calls ++ c ∷ [] })

  -- sendProgressStatusMsg. An error of sendCommandStatus is logged.
  unfoldable pub send_progress_status_msg : Context → CommandState → Run ConfBytes Bytes DbBytes E
  unfolding call
  send_progress_status_msg none state = yields tt
  send_progress_status_msg (some id) state =
      if is_empty id
      then yields tt
      else call (sends (record { command_state = state; request_id = id; error = "" }))

  -- An answer of the host to a call.
  unfoldable pub answered :
      {F : Type 0} → (F → CommandError E) → Option F → Run ConfBytes Bytes DbBytes E
  answered wrap none = yields tt
  answered wrap (some e) = fails (wrap e)
