-- ===== src/Landscape/Executor/CommandReports.antt =====
-- What the commands of windows-agent/internal/proservices/landscape/executor.go report to the server.
use ubuntu_pro_for_wsl.Prelude.{
  ℕ, refl, inl, inr, Bool, true, false, List, Option, none, some, Result, String, is_empty,
  Bool-cases, Option-cases,
}
use ubuntu_pro_for_wsl.Task.{Task}
use ubuntu_pro_for_wsl.TaskManager.{Codec}
use ubuntu_pro_for_wsl.ClientConfig.{Ini}
use ubuntu_pro_for_wsl.Config.{ConfigCodec}
use ubuntu_pro_for_wsl.Distro.{Distro, DistroError, M, distro_uninstall, lock_awake, release_awake}
use ubuntu_pro_for_wsl.Database.{DbCodec, get_distro}
use ubuntu_pro_for_wsl.Landscape.Executor.Host.{
  not_in_database, unknown_command, Call, sets_default, shuts_down, from_host, Context, call,
  in_progress, send_progress_status_msg,
}
use ubuntu_pro_for_wsl.Landscape.Executor.Commands.{
  Command, assign_host, start, stop, uninstall, set_default, installs_distro, shutdown_host,
  unknown, CommandAnswers, settle_uid, forget, run_call, run_assign_host, settle_distro, on_found,
  with_distro, run_uninstall, perform,
}
use ubuntu_pro_for_wsl.Landscape.Executor.Frame.{
  IsSilent, Frames, then-Frames, answered-Frames, call-Frames,
}
use ubuntu_pro_for_wsl.Landscape.Executor.Reports.{
  statuses, sent, Reports, silent-Reports, fails-Reports, after-Reports, send-Reports,
}
use ubuntu_pro_for_wsl.Landscape.Executor.InstallReports.{install-Reports}

-- Whether a command that succeeds has told the server that it was in progress.
abbrev pub announces : Command → Bool
announces (assign_host uid) = false
announces _ = true

module _ {ConfBytes Bytes DbBytes E : Type 0} where
  settle_distro-Frames :
      (db_codec : DbCodec E DbBytes) (id : String) (m : M Bytes (Result (DistroError E) (Unit {0})))
      (d : Distro Bytes)
      → Frames (λ h. statuses h.calls) (settle_distro {ConfBytes = ConfBytes} db_codec id (m d))
  unfolding settle_distro
  settle_distro-Frames db_codec id m d h = elim (Option-cases (m d)) [
    | inl n ↦ rw (n, settle_distro) tt
    | inr ((r, d'), n) ↦ rw (n, settle_distro) refl
  ]

  on_found-Reports :
      (db_codec : DbCodec E DbBytes) (ctx : Context) (id : String)
      (m : M Bytes (Result (DistroError E) (Unit {0}))) (found : Option (Distro Bytes))
      → Reports true ctx (on_found {ConfBytes = ConfBytes} db_codec ctx id m found)
  unfolding on_found
  on_found-Reports db_codec ctx id m none = fails-Reports true ctx not_in_database
  on_found-Reports db_codec ctx id m (some d) =
      after-Reports true ctx (send_progress_status_msg ctx in_progress) _ (send-Reports E ctx)
        (settle_distro-Frames db_codec id m d)

  with_distro-Reports :
      (db_codec : DbCodec E DbBytes) (ctx : Context) (id : String)
      (m : M Bytes (Result (DistroError E) (Unit {0})))
      → Reports true ctx (with_distro {ConfBytes = ConfBytes} db_codec ctx id m)
  unfolding with_distro
  with_distro-Reports db_codec ctx id m h =
      elim (Option-cases (get_distro db_codec id h.database)) [
        | inl n ↦ rw (n, with_distro) tt
        | inr (found, n) ↦ rw (n, with_distro) (on_found-Reports db_codec ctx id m found h)
      ]

  run_uninstall-Reports :
      (db_codec : DbCodec E DbBytes) (ctx : Context) (id : String)
      (a : CommandAnswers E ConfBytes Bytes DbBytes)
      → Reports true ctx (run_uninstall db_codec ctx id a)
  unfolding run_uninstall forget
  run_uninstall-Reports db_codec ctx id a =
      after-Reports true ctx (with_distro db_codec ctx id (distro_uninstall a.registry a.wsl_error))
        _ (with_distro-Reports db_codec ctx id (distro_uninstall a.registry a.wsl_error))
        (λ h. refl)

  run_call-Reports :
      (ctx : Context) (c : Call) (e : Option E)
      → IsSilent c
      → Reports true ctx
          (run_call {ConfBytes = ConfBytes} {Bytes = Bytes} {DbBytes = DbBytes} ctx c e)
  unfolding run_call
  run_call-Reports ctx c e s =
      after-Reports true ctx (send_progress_status_msg ctx in_progress) _ (send-Reports E ctx) (
        then-Frames (λ h. statuses h.calls) (call c) _ (call-Frames sent E c s)
          (answered-Frames (λ h. statuses h.calls) from_host e))

module _ {ConfBytes Bytes DbBytes Doc E : Type 0} (conf_codec : ConfigCodec E ConfBytes)
    (ini : Ini E Doc) (db_codec : DbCodec E DbBytes) (codec : Codec E Task Bytes)
    (sha256 : List ℕ → List ℕ) where
  run_assign_host-Frames :
      (uid : String) (a : CommandAnswers E ConfBytes Bytes DbBytes)
      → Frames
          (λ h. statuses h.calls)
          (run_assign_host {Bytes = Bytes} {DbBytes = DbBytes} conf_codec ini uid a)
  unfolding run_assign_host settle_uid
  run_assign_host-Frames uid a h = elim (Bool-cases (is_empty uid)) [
    | inl z ↦ rw (z, run_assign_host) refl
    | inr z ↦ rw (z, run_assign_host) refl
  ]

  pub perform-Reports :
      (ctx : Context) (command : Command) (a : CommandAnswers E ConfBytes Bytes DbBytes)
      → Reports (announces command) ctx (perform conf_codec ini db_codec codec sha256 ctx command a)
  unfolding perform
  perform-Reports ctx (assign_host uid) a =
      silent-Reports ctx (run_assign_host conf_codec ini uid a) (run_assign_host-Frames uid a)
  perform-Reports ctx (start id) a = with_distro-Reports db_codec ctx id (lock_awake a.lock)
  perform-Reports ctx (stop id) a = with_distro-Reports db_codec ctx id (release_awake a.registry)
  perform-Reports ctx (installs_distro cmd) a =
      install-Reports db_codec codec sha256 ctx cmd a.installation
  perform-Reports ctx (uninstall id) a = run_uninstall-Reports db_codec ctx id a
  perform-Reports ctx (set_default id) a = run_call-Reports ctx (sets_default id) a.wsl_error tt
  perform-Reports ctx shutdown_host a = run_call-Reports ctx shuts_down a.wsl_error tt
  perform-Reports ctx unknown a = fails-Reports true ctx unknown_command
