-- ===== src/Landscape/Executor/Install.antt =====
-- The Install command of windows-agent/internal/proservices/landscape/executor.go. What the calls of the
-- command are answered is an argument; `none` is a panic.
use ubuntu_pro_for_wsl.Prelude.{
  ℕ, Bool, true, false, List, [], ◌∷◌, ◌++◌, Option, none, some, Result, ok, err, String, is_empty,
  if◌then◌else◌, ◌==◌, ◌>>>◌, yields, fails, codes,
}
use ubuntu_pro_for_wsl.Storage.{Disk, Faults}
use ubuntu_pro_for_wsl.Task.{Task}
use ubuntu_pro_for_wsl.TaskManager.{Codec}
use ubuntu_pro_for_wsl.Distro.{Properties, RegistryAnswer}
use ubuntu_pro_for_wsl.Database.{DbCodec, get_distro_and_update_properties, Found}
use ubuntu_pro_for_wsl.CloudInit.{WriteFaults, Directory, write_distro_data, remove_distro_data}
use ubuntu_pro_for_wsl.Landscape.Download.{SumsResponse, ImageResponse, DownloadError, download}
use ubuntu_pro_for_wsl.Landscape.DefaultUser.{
  WindowsUser, DistroAnswers, UserError, create_default_user,
}
use ubuntu_pro_for_wsl.Landscape.Executor.Reserved.{is_reserved}
use ubuntu_pro_for_wsl.Landscape.Executor.Host.{
  Run, Host, Call, downloads, imports, installs, launches, unregisters, CommandError, from_host,
  from_database, from_user, from_download, empty_name, already_installed, reserved, in_progress,
  Context, from_user, call, send_progress_status_msg, answered,
}

-- landscapeapi.Command_Install
pub record InstallCommand : Type 0 where
  pub id : String
  pub cloud_init : String
  pub rootfs_url : String

-- What the launcher of the distro answers: it is not found, or it fails.
pub data LauncherError (E : Type 0) : Type 0 where
  command_not_found : LauncherError E
  launcher_failed : E → LauncherError E

-- What installFromURL is answered. The error of cloud-init is logged, as is that of a clean-up.
pub record UrlAnswers (E : Type 0) : Type 0 where
  pub mkdir_error : Option E
  pub sums : Result E (SumsResponse E)
  pub image : Result E (ImageResponse E)
  pub create_error : Option E
  pub vhdx_error : Option E
  pub import_error : Option E

-- What installFromWSLOnlineDistros is answered.
pub record OnlineAnswers (E : Type 0) : Type 0 where
  pub install_error : Option E
  pub launcher : Option (LauncherError E)
  pub cloud_init_error : Option E

pub record InstallAnswers (E Bytes DbBytes : Type 0) : Type 0 where
  pub is_registered : Result E Bool
  pub write_faults : WriteFaults E
  pub parse_error : Option E
  pub image_name : List ℕ
  pub from_url : UrlAnswers E
  pub from_online : OnlineAnswers E
  pub db_faults : Faults E DbBytes
  pub task_faults : Faults E Bytes
  pub registry : RegistryAnswer
  pub registry' : RegistryAnswer
  pub tasks : Disk Bytes
  pub sleep_error : Option E
  pub default_uid : Result E ℕ
  pub windows_user : Result E WindowsUser
  pub user_answers : DistroAnswers E
  pub set_default_error : ℕ → Option E
  pub remove_error : Option E

unfoldable pub no_properties : Properties
no_properties = record {
  distro_id = "";
  version_id = "";
  pretty_name = "";
  hostname = "";
  pro_attached = false;
}

module _ {ConfBytes Bytes DbBytes E : Type 0} where
  -- A call whose only error is that of the host.
  unfoldable pub try : Call → Option E → Run ConfBytes Bytes DbBytes E
  unfolding call answered
  try c e = call c >>> λ _. answered from_host e

  unfoldable pub fetched : Result (DownloadError E) (Unit {0}) → Run ConfBytes Bytes DbBytes E
  fetched (ok _) = yields tt
  fetched (err e) = fails (from_download e)

  -- installFromURL
  unfoldable pub install_from_url :
      (List ℕ → List ℕ) → String → List ℕ → UrlAnswers E → Run ConfBytes Bytes DbBytes E
  unfolding try call answered fetched
  install_from_url sha256 id image a = answered from_host a.mkdir_error >>> λ _.
      call (downloads id) >>> λ _.
      fetched (download sha256 image a.sums a.image a.create_error).1 >>> λ _.
      answered from_host a.vhdx_error >>> λ _. try (imports id) a.import_error

  -- What follows the launcher: a modern distro has none, and cloud-init is waited for.
  unfoldable pub launched : Option (LauncherError E) → Option E → Run ConfBytes Bytes DbBytes E
  unfolding answered
  launched none cloud_init_error = yields tt
  launched (some (launcher_failed e)) cloud_init_error = fails (from_host e)
  launched (some command_not_found) cloud_init_error = answered from_host cloud_init_error

  -- installFromWSLOnlineDistros
  unfoldable pub install_from_wsl_online_distros :
      String → OnlineAnswers E → Run ConfBytes Bytes DbBytes E
  unfolding try call launched
  install_from_wsl_online_distros id a = try (installs id) a.install_error >>> λ _.
      call (launches id) >>> λ _. launched a.launcher a.cloud_init_error

  -- os errors of the cloud-init files.
  unfoldable pub on_cloud_init :
      (Directory → Directory × Result E (Unit {0})) → Run ConfBytes Bytes DbBytes E
  on_cloud_init f h =
      let (dir, r) = f h.cloud_init in
      some (record h { cloud_init = dir }, elim r [ ok _ ↦ ok tt | err e ↦ err (from_host e) ])

  -- The deferred clean-up: the errors of Uninstall and of the removal are logged, and `unregisters` is
  -- the call of Uninstall, whether or not it succeeds.
  unfoldable pub clean_up_install :
      Option E
      → String
      → Option (Host ConfBytes Bytes DbBytes × Result (CommandError E) (Unit {0}))
      → Option (Host ConfBytes Bytes DbBytes × Result (CommandError E) (Unit {0}))
  clean_up_install remove_error id none = none
  clean_up_install remove_error id (some (h, ok _)) = some (h, ok tt)
  clean_up_install remove_error id (some (h, err e)) = some (
    record h {
      cloud_init = (remove_distro_data remove_error id h.cloud_init).0;
      calls = h.calls ++ unregisters id ∷ [];
    },
    err e,
  )

  -- The rootfs of the command, or the distro of that name of the online distros.
  unfoldable pub fetch_distro :
      (List ℕ → List ℕ)
      → Context
      → InstallCommand
      → InstallAnswers E Bytes DbBytes
      → Run ConfBytes Bytes DbBytes E
  unfolding send_progress_status_msg answered
  fetch_distro sha256 ctx cmd a =
      if is_empty cmd.rootfs_url
      then (send_progress_status_msg ctx in_progress >>> λ _.
          install_from_wsl_online_distros cmd.id a.from_online)
      else (answered from_host a.parse_error >>> λ _.
          if is_reserved (codes cmd.id)
          then fails reserved
          else (send_progress_status_msg ctx in_progress >>> λ _.
              install_from_url sha256 cmd.id a.image_name a.from_url))

  unfoldable pub settle_user : Result (UserError E) ℕ → Run ConfBytes Bytes DbBytes E
  settle_user (ok uid) = yields tt
  settle_user (err e) = fails (from_user e)

  unfoldable pub settle_default_uid :
      InstallAnswers E Bytes DbBytes → Result E ℕ → Run ConfBytes Bytes DbBytes E
  unfolding settle_user
  settle_default_uid a (err e) = fails (from_host e)
  settle_default_uid a (ok uid) =
      if uid == 0
      then settle_user (create_default_user a.windows_user a.user_answers a.set_default_error)
      else yields tt

  -- After a distro without cloud-init data has started: its default user.
  unfoldable pub finish_install :
      InstallCommand → InstallAnswers E Bytes DbBytes → Run ConfBytes Bytes DbBytes E
  unfolding settle_default_uid
  finish_install cmd a =
      if is_empty cmd.cloud_init then settle_default_uid a a.default_uid else yields tt

  unfoldable pub settle_found :
      Host ConfBytes Bytes DbBytes
      → Option (Found E Bytes DbBytes)
      → Option (Host ConfBytes Bytes DbBytes × Result (CommandError E) (Unit {0}))
  settle_found h none = none
  settle_found h (some (db, found, e)) =
      some (record h { database = db }, elim e [ none ↦ ok tt | some e ↦ err (from_database e) ])

  unfoldable pub settle_registered : Result E Bool → Run ConfBytes Bytes DbBytes E
  settle_registered (err e) = fails (from_host e)
  settle_registered (ok true) = fails already_installed
  settle_registered (ok false) = yields tt

  unfoldable pub check_install :
      InstallCommand → InstallAnswers E Bytes DbBytes → Run ConfBytes Bytes DbBytes E
  unfolding settle_registered on_cloud_init
  check_install cmd a =
      (if is_empty cmd.id then fails empty_name else settle_registered a.is_registered) >>> λ _.
      on_cloud_init (write_distro_data a.write_faults cmd.id cmd.cloud_init)

  module _ (db_codec : DbCodec E DbBytes) (codec : Codec E Task Bytes) where
    unfoldable pub register_distro :
        String → InstallAnswers E Bytes DbBytes → Run ConfBytes Bytes DbBytes E
    unfolding settle_found
    register_distro id a h = settle_found h (
        get_distro_and_update_properties db_codec codec a.db_faults a.task_faults a.registry
          a.registry' a.tasks id no_properties h.database)

  module _ (db_codec : DbCodec E DbBytes) (codec : Codec E Task Bytes)
      (sha256 : List ℕ → List ℕ) where
    -- What install does once the cloud-init data are written.
    unfoldable pub install_written :
        Context → InstallCommand → InstallAnswers E Bytes DbBytes → Run ConfBytes Bytes DbBytes E
    unfolding answered
    install_written ctx cmd a = fetch_distro sha256 ctx cmd a >>> λ _.
        register_distro db_codec codec cmd.id a >>> λ _.
        answered from_host a.sleep_error >>> λ _. finish_install cmd a

    unfoldable pub install :
        Context → InstallCommand → InstallAnswers E Bytes DbBytes → Run ConfBytes Bytes DbBytes E
    unfolding check_install
    install ctx cmd a = check_install cmd a >>> λ _ h.
        clean_up_install a.remove_error cmd.id (install_written ctx cmd a h)
