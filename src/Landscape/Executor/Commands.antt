-- ===== src/Landscape/Executor/Commands.antt =====
-- The commands of windows-agent/internal/proservices/landscape/executor.go, and exec. What the calls of a
-- command are answered is an argument; `none` is a panic.
use ubuntu_pro_for_wsl.Prelude.{
  ℕ, List, [], ◌∷◌, ◌++◌, Option, none, some, Result, ok, err, map_err, String, is_empty,
  if◌then◌else◌, ◌>>>◌, fails,
}
use ubuntu_pro_for_wsl.Task.{Task}
use ubuntu_pro_for_wsl.TaskManager.{Codec}
use ubuntu_pro_for_wsl.ClientConfig.{Ini}
use ubuntu_pro_for_wsl.Config.{ConfigCodec, Io, landscape_agent_uid, Answer}
use ubuntu_pro_for_wsl.Config.Registry.{set_landscape_agent_uid}
use ubuntu_pro_for_wsl.Distro.{
  Distro, Answers, DistroError, RegistryAnswer, M, lock_awake, release_awake, distro_uninstall,
}
use ubuntu_pro_for_wsl.Database.{DbCodec, get_distro, assign}
use ubuntu_pro_for_wsl.CloudInit.{remove_distro_data}
use ubuntu_pro_for_wsl.Landscape.Executor.Host.{
  Run, Host, Call, sends, sets_default, shuts_down, Status, queued, in_progress, completed,
  CommandError, from_host, from_config, of_distro, empty_uid, not_in_database, unknown_command,
  Context, call, send_progress_status_msg, answered,
}
use ubuntu_pro_for_wsl.Landscape.Executor.Install.{InstallCommand, InstallAnswers, install}

-- landscapeapi.Command, without its request.
pub data Command : Type 0 where
  assign_host : String → Command
  start stop uninstall set_default : String → Command
  installs_distro : InstallCommand → Command
  shutdown_host unknown : Command

pub record Request : Type 0 where
  pub request_id : String
  pub command : Command

-- What the calls of the commands are answered, each for the commands that make it.
pub record CommandAnswers (E ConfBytes Bytes DbBytes : Type 0) : Type 0 where
  pub uid_io : Io E ConfBytes
  pub set_uid_io : Io E ConfBytes
  pub lock : Answers E
  pub registry : RegistryAnswer
  pub wsl_error : Option E
  pub remove_error : Option E
  pub installation : InstallAnswers E Bytes DbBytes

unfoldable pub context_of : Request → Context
context_of request = if is_empty request.request_id then none else some request.request_id

-- The text of an error, if there is one.
unfoldable pub text_of :
    {E : Type 0} → (CommandError E → String) → Result (CommandError E) (Unit {0}) → String
text_of show (ok _) = ""
text_of show (err e) = show e

module _ {ConfBytes Bytes DbBytes E : Type 0} where
  unfoldable pub settle_uid : Answer E ConfBytes (Unit {0}) → Run ConfBytes Bytes DbBytes E
  settle_uid (conf, r, notes) h =
      some (record h { config = conf; notified = h.notified ++ notes }, map_err from_config r)

  -- The end of uninstall: an error of RemoveDistroData is logged.
  unfoldable pub forget : String → Option E → Run ConfBytes Bytes DbBytes E
  forget id remove_error h =
      some (record h { cloud_init = (remove_distro_data remove_error id h.cloud_init).0 }, ok tt)

  -- setDefault and shutdownHost
  unfoldable pub run_call : Context → Call → Option E → Run ConfBytes Bytes DbBytes E
  run_call ctx c e =
      send_progress_status_msg ctx in_progress >>> λ _. call c >>> λ _. answered from_host e

  unfoldable pub report :
      (CommandError E → String)
      → String
      → Option (Host ConfBytes Bytes DbBytes × Result (CommandError E) (Unit {0}))
      → Option (Host ConfBytes Bytes DbBytes)
  report show id none = none
  report show id (some (h, r)) =
      let status : Status = record {
        command_state = completed;
        request_id = id;
        error = text_of show r;
      } in
      if is_empty id then some h else some (record h { calls = h.calls ++ sends status ∷ [] })

module _ {ConfBytes Bytes DbBytes Doc E : Type 0} (conf_codec : ConfigCodec E ConfBytes)
    (ini : Ini E Doc) where
  -- assignHost: the UID that is there is read first, and only logged.
  unfoldable pub run_assign_host :
      String → CommandAnswers E ConfBytes Bytes DbBytes → Run ConfBytes Bytes DbBytes E
  unfolding settle_uid
  run_assign_host uid a h =
      let (conf, _) = landscape_agent_uid conf_codec a.uid_io h.config in
      if is_empty uid
      then fails empty_uid (record h { config = conf })
      else settle_uid (set_landscape_agent_uid conf_codec ini a.set_uid_io uid conf)
          (record h { config = conf })

module _ {ConfBytes Bytes DbBytes E : Type 0} (db_codec : DbCodec E DbBytes) where
  -- The method of a distro that was found, which changes the distro in the database.
  unfoldable pub settle_distro :
      String
      → Option (Result (DistroError E) (Unit {0}) × Distro Bytes)
      → Run ConfBytes Bytes DbBytes E
  settle_distro id none h = none
  settle_distro id (some (r, d)) h =
      let database = record (h.database) {
        distros = assign (db_codec.to_lower id) d h.database.distros;
      } in
      some (record h { database = database }, map_err of_distro r)

  unfoldable pub on_found :
      Context
      → String
      → M Bytes (Result (DistroError E) (Unit {0}))
      → Option (Distro Bytes)
      → Run ConfBytes Bytes DbBytes E
  unfolding settle_distro
  on_found ctx id m none = fails not_in_database
  on_found ctx id m (some d) =
      send_progress_status_msg ctx in_progress >>> λ _. settle_distro id (m d)

  -- start, stop and uninstall look the distro up, and report that they are in progress.
  unfoldable pub with_distro :
      Context → String → M Bytes (Result (DistroError E) (Unit {0})) → Run ConfBytes Bytes DbBytes E
  unfolding on_found
  with_distro ctx id m h = elim (get_distro db_codec id h.database) [
    | none ↦ none
    | some found ↦ on_found ctx id m found h
  ]

  unfoldable pub run_uninstall :
      Context → String → CommandAnswers E ConfBytes Bytes DbBytes → Run ConfBytes Bytes DbBytes E
  unfolding forget
  run_uninstall ctx id a =
      with_distro ctx id (distro_uninstall a.registry a.wsl_error) >>> λ _. forget id a.remove_error

module _ {ConfBytes Bytes DbBytes Doc E : Type 0} (conf_codec : ConfigCodec E ConfBytes)
    (ini : Ini E Doc) (db_codec : DbCodec E DbBytes) (codec : Codec E Task Bytes)
    (sha256 : List ℕ → List ℕ) where
  -- The command of a request.
  unfoldable pub perform :
      Context → Command → CommandAnswers E ConfBytes Bytes DbBytes → Run ConfBytes Bytes DbBytes E
  perform ctx (assign_host uid) a = run_assign_host conf_codec ini uid a
  perform ctx (start id) a = with_distro db_codec ctx id (lock_awake a.lock)
  perform ctx (stop id) a = with_distro db_codec ctx id (release_awake a.registry)
  perform ctx (installs_distro cmd) a = install db_codec codec sha256 ctx cmd a.installation
  perform ctx (uninstall id) a = run_uninstall db_codec ctx id a
  perform ctx (set_default id) a = run_call ctx (sets_default id) a.wsl_error
  perform ctx shutdown_host a = run_call ctx shuts_down a.wsl_error
  perform ctx unknown a = fails unknown_command

  -- The command of exec, after the acknowledgement of a request.
  unfoldable pub acknowledged :
      Request → CommandAnswers E ConfBytes Bytes DbBytes → Run ConfBytes Bytes DbBytes E
  acknowledged request a = send_progress_status_msg (context_of request) queued >>> λ _.
      perform (context_of request) request.command a

  unfoldable pub exec :
      (CommandError E → String)
      → Request
      → CommandAnswers E ConfBytes Bytes DbBytes
      → Host ConfBytes Bytes DbBytes
      → Option (Host ConfBytes Bytes DbBytes)
  unfolding report
  exec show request a h = report show request.request_id (acknowledged request a h)
