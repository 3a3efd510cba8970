-- ===== src/Landscape/Executor/InstallReports.antt =====
-- What the Install command of windows-agent/internal/proservices/landscape/executor.go reports.
use ubuntu_pro_for_wsl.Prelude.{
  ℕ, refl, ◌∙◌, inl, inr, Bool, true, false, List, Option, none, some, Result, ok, err, String,
  is_empty, if◌then◌else◌, ◌>>>◌, fails, Ensures, Bool-cases, codes,
}
use ubuntu_pro_for_wsl.Task.{Task}
use ubuntu_pro_for_wsl.TaskManager.{Codec}
use ubuntu_pro_for_wsl.Database.{DbCodec, get_distro_and_update_properties}
use ubuntu_pro_for_wsl.CloudInit.{Directory, write_distro_data}
use ubuntu_pro_for_wsl.Landscape.Executor.Host.{
  Host, reserved, unregisters, CommandError, from_host, Context, answered, in_progress,
  send_progress_status_msg,
}
use ubuntu_pro_for_wsl.Landscape.Executor.Reserved.{is_reserved}
use ubuntu_pro_for_wsl.Landscape.Executor.Install.{
  InstallCommand, InstallAnswers, install, check_install, settle_registered, on_cloud_init,
  clean_up_install, install_written, fetch_distro, register_distro, install_from_url, no_properties,
}
use ubuntu_pro_for_wsl.Landscape.Executor.Frame.{
  Frames, then-Frames, answered-Frames, install_from_url-Frames,
  install_from_wsl_online_distros-Frames, finish_install-Frames, settle_found-Frames,
}
use ubuntu_pro_for_wsl.Landscape.Executor.Reports.{
  statuses, statuses-silent, sent, Sent, Reports, fails-Reports, before-Reports, after-Reports,
  send-Reports,
}

module _ {ConfBytes Bytes DbBytes E : Type 0} where
  on_cloud_init-Frames :
      (f : Directory → Directory × Result E (Unit {0}))
      → Frames
          (λ h. statuses h.calls)
          (on_cloud_init {ConfBytes = ConfBytes} {Bytes = Bytes} {DbBytes = DbBytes} f)
  unfolding on_cloud_init
  on_cloud_init-Frames f h = refl

  settle_registered-Frames :
      (r : Result E Bool)
      → Frames
          (λ h. statuses h.calls)
          (settle_registered {ConfBytes = ConfBytes} {Bytes = Bytes} {DbBytes = DbBytes} r)
  unfolding settle_registered
  settle_registered-Frames (err e) h = refl
  settle_registered-Frames (ok true) h = refl
  settle_registered-Frames (ok false) h = refl

  -- A step that writes the cloud-init data, once it is known that the distro is not there.
  check_install-Frames :
      (cmd : InstallCommand) (a : InstallAnswers E Bytes DbBytes)
      → Frames (λ h. statuses h.calls) (check_install {ConfBytes = ConfBytes} cmd a)
  unfolding check_install
  check_install-Frames cmd a h = elim (Bool-cases (is_empty cmd.id)) [
    | inl z ↦ rw (z, check_install) refl
    | inr z ↦
        rw (z, check_install)
          (then-Frames (λ h. statuses h.calls) (settle_registered a.is_registered) _
            (settle_registered-Frames a.is_registered)
            (on_cloud_init-Frames (write_distro_data a.write_faults cmd.id cmd.cloud_init)) h)
  ]

  fetch_distro-Reports :
      (sha256 : List ℕ → List ℕ) (ctx : Context) (cmd : InstallCommand)
      (a : InstallAnswers E Bytes DbBytes)
      → Reports true ctx (fetch_distro {ConfBytes = ConfBytes} sha256 ctx cmd a)
  unfolding fetch_distro
  fetch_distro-Reports sha256 ctx cmd a h = elim (Bool-cases (is_empty cmd.rootfs_url)) [
    | inl z ↦
        rw (z, fetch_distro)
          (after-Reports true ctx (send_progress_status_msg ctx in_progress) _ (send-Reports E ctx)
            (install_from_wsl_online_distros-Frames sent cmd.id a.from_online) h)
    | inr z ↦
        rw (z, fetch_distro)
          (before-Reports true ctx (answered from_host a.parse_error) _
            (answered-Frames (λ h. statuses h.calls) from_host a.parse_error) (chosen) h)
  ]
    where
      chosen :
          Reports {ConfBytes = ConfBytes} {Bytes = Bytes} {DbBytes = DbBytes} {E = E} true ctx (
            if is_reserved (codes cmd.id)
            then fails reserved
            else (send_progress_status_msg ctx in_progress >>> λ _.
                install_from_url sha256 cmd.id a.image_name a.from_url))
      chosen h = elim (Bool-cases (is_reserved (codes cmd.id))) [
        | inl z ↦ rw z (fails-Reports true ctx reserved h)
        | inr z ↦ rw z (
            after-Reports true ctx (send_progress_status_msg ctx in_progress) _ (send-Reports E ctx)
              (install_from_url-Frames sent sha256 cmd.id a.image_name a.from_url) h)
      ]

  clean_up_install-Reports :
      (ctx : Context) (remove_error : Option E) (id : String) (h : Host ConfBytes Bytes DbBytes)
      (o : Option (Host ConfBytes Bytes DbBytes × Result (CommandError E) (Unit {0})))
      → Ensures (Sent true ctx h) o
      → Ensures (Sent true ctx h) (clean_up_install remove_error id o)
  unfolding clean_up_install
  clean_up_install-Reports ctx remove_error id h none p = tt
  clean_up_install-Reports ctx remove_error id h (some (h', ok _)) p = p
  clean_up_install-Reports ctx remove_error id h (some (h', err e)) (b, q, w) =
      (b, statuses-silent (unregisters id) h'.calls tt ∙ q, w)

  module _ (db_codec : DbCodec E DbBytes) (codec : Codec E Task Bytes)
      (sha256 : List ℕ → List ℕ) where
    pub install-Reports :
        (ctx : Context) (cmd : InstallCommand) (a : InstallAnswers E Bytes DbBytes)
        → Reports true ctx (install {ConfBytes = ConfBytes} db_codec codec sha256 ctx cmd a)
    unfolding install install_written register_distro
    install-Reports ctx cmd a =
        before-Reports true ctx (check_install cmd a) _ (check_install-Frames cmd a) (λ h.
          clean_up_install-Reports ctx a.remove_error cmd.id h
            (install_written db_codec codec sha256 ctx cmd a h)
            (after-Reports true ctx (fetch_distro sha256 ctx cmd a) _
              (fetch_distro-Reports sha256 ctx cmd a)
              (then-Frames (λ h. statuses h.calls) (register_distro db_codec codec cmd.id a) _
                (λ h. settle_found-Frames sent h (
                  get_distro_and_update_properties db_codec codec a.db_faults a.task_faults
                    a.registry a.registry' a.tasks cmd.id no_properties h.database))
                (then-Frames (λ h. statuses h.calls) (answered from_host a.sleep_error) _
                  (answered-Frames (λ h. statuses h.calls) from_host a.sleep_error)
                  (finish_install-Frames sent cmd a)))
              h))
