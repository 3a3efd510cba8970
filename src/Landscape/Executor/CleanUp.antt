-- ===== src/Landscape/Executor/CleanUp.antt =====
-- What the Install command of windows-agent/internal/proservices/landscape/executor.go leaves behind.
use ubuntu_pro_for_wsl.Prelude.{
  ℕ, ◌≡◌, refl, ap, ◌∙◌, ◌⊎◌, inl, inr, Bool, true, false, List, [], ◌∷◌, ◌++◌, Option, none, some,
  Result, ok, err, String, is_empty, if◌then◌else◌, ◌>>>◌, fails, Ensures, bind-Ensures, Bool-cases,
  Option-cases, codes, same_codes, same_codes_self,
}
use ubuntu_pro_for_wsl.Task.{Task}
use ubuntu_pro_for_wsl.TaskManager.{Codec}
use ubuntu_pro_for_wsl.Database.{DbCodec, get_distro_and_update_properties}
use ubuntu_pro_for_wsl.CloudInit.{Directory, user_data, tmp, write_distro_data, remove_distro_data}
use ubuntu_pro_for_wsl.CloudInit.Atomic.{Replaces, write_file_in_dir-Replaces, put_self}
use ubuntu_pro_for_wsl.Landscape.Executor.Host.{
  Host, Call, unregisters, CommandError, from_host, reserved, Context, call, answered, in_progress,
  send_progress_status_msg,
}
use ubuntu_pro_for_wsl.Landscape.Executor.Reserved.{is_reserved}
use ubuntu_pro_for_wsl.Landscape.Executor.Install.{
  InstallCommand, InstallAnswers, install, check_install, settle_registered, on_cloud_init,
  clean_up_install, install_written, fetch_distro, register_distro, install_from_url, no_properties,
}
use ubuntu_pro_for_wsl.Landscape.Executor.Frame.{
  Frames, View, then-Frames, answered-Frames, install_from_url-Frames,
  install_from_wsl_online_distros-Frames, finish_install-Frames, settle_found-Frames,
}

module _ {E : Type 0} where
  remove_distro_data_lem :
      (remove_error : Option E) (id : String) (dir : Directory)
      → ((remove_distro_data remove_error id dir).0 (user_data id) ≡ none)
        ⊎ ((e : E) × (remove_error ≡ some e))
  unfolding remove_distro_data
  remove_distro_data_lem remove_error id dir = elim (Option-cases (dir (user_data id))) [
    | inl n ↦ inl (rw (n, remove_distro_data) n)
    | inr (b, n) ↦ elim (Option-cases remove_error) [
      | inl r ↦ inl (
          rw (n, remove_distro_data)
            (rw (r, remove_distro_data) (put_self (user_data id) none dir)))
      | inr (e, r) ↦ inr (e, r)
    ]
  ]

module _ {ConfBytes Bytes DbBytes : Type 0} where
  files : View ConfBytes Bytes DbBytes Directory
  files = record { see = λ h. h.cloud_init; on_call = λ c h s. refl; on_database = λ db h. refl }

module _ {ConfBytes Bytes DbBytes : Type 0} (E : Type 0) where
  send-Frames :
      (ctx : Context)
      → Frames {ConfBytes = ConfBytes} {Bytes = Bytes} {DbBytes = DbBytes} {E = E}
          (λ h. h.cloud_init)
          (send_progress_status_msg ctx in_progress)
  unfolding send_progress_status_msg call
  send-Frames none h = refl
  send-Frames (some id) h = elim (Bool-cases (is_empty id)) [
    | inl z ↦ rw (z, send_progress_status_msg) refl
    | inr z ↦ rw (z, send_progress_status_msg) refl
  ]

module _ {ConfBytes Bytes DbBytes E : Type 0} where
  fetch_distro-Frames :
      (sha256 : List ℕ → List ℕ) (ctx : Context) (cmd : InstallCommand)
      (a : InstallAnswers E Bytes DbBytes)
      → Frames (λ h. h.cloud_init) (fetch_distro {ConfBytes = ConfBytes} sha256 ctx cmd a)
  unfolding fetch_distro files
  fetch_distro-Frames sha256 ctx cmd a h = elim (Bool-cases (is_empty cmd.rootfs_url)) [
    | inl z ↦
        rw (z, fetch_distro)
          (then-Frames (λ h. h.cloud_init) (send_progress_status_msg ctx in_progress) _
            (send-Frames E ctx) (install_from_wsl_online_distros-Frames files cmd.id a.from_online)
            h)
    | inr z ↦
        rw (z, fetch_distro)
          (then-Frames (λ h. h.cloud_init) (answered from_host a.parse_error) _
            (answered-Frames (λ h. h.cloud_init) from_host a.parse_error) chosen h)
  ]
    where
      chosen :
          Frames {ConfBytes = ConfBytes} {Bytes = Bytes} {DbBytes = DbBytes} {E = E}
            (λ h. h.cloud_init)
            (if is_reserved (codes cmd.id)
              then fails reserved
              else (send_progress_status_msg ctx in_progress >>> λ _.
                  install_from_url sha256 cmd.id a.image_name a.from_url))
      chosen h = elim (Bool-cases (is_reserved (codes cmd.id))) [
        | inl z ↦ rw z refl
        | inr z ↦ rw z (
            then-Frames (λ h. h.cloud_init) (send_progress_status_msg ctx in_progress) _
              (send-Frames E ctx)
              (install_from_url-Frames files sha256 cmd.id a.image_name a.from_url) h)
      ]

  -- The data of the distro are in their file, or nothing but a temporary file has changed.
  Written :
      InstallCommand
      → InstallAnswers E Bytes DbBytes
      → Host ConfBytes Bytes DbBytes
      → Host ConfBytes Bytes DbBytes
      → Result (CommandError E) (Unit {0})
      → Type 0
  Written cmd a h h' (ok _) =
      (h'.cloud_init (user_data cmd.id) ≡ some (codes cmd.cloud_init))
      × (a.is_registered ≡ ok false)
      × (is_empty cmd.id ≡ false)
  Written cmd a h h' (err e) =
      (h'.calls ≡ h.calls)
      × ((name : List ℕ)
          → same_codes name (tmp (user_data cmd.id)) ≡ false
          → h'.cloud_init name ≡ h.cloud_init name)

  on_cloud_init-Written :
      (cmd : InstallCommand) (a : InstallAnswers E Bytes DbBytes) (h : Host ConfBytes Bytes DbBytes)
      (r : Directory × Result E (Unit {0}))
      → a.is_registered ≡ ok false
      → is_empty cmd.id ≡ false
      → Replaces (user_data cmd.id) (codes cmd.cloud_init) h.cloud_init r
      → Written cmd a h
          (record h { cloud_init = r.0 })
          (elim (r.1) [ ok _ ↦ ok tt | err e ↦ err (from_host e) ])
  unfolding Written
  on_cloud_init-Written cmd a h (dir, ok _) q z p =
      (p (user_data cmd.id) ∙ rw (same_codes_self (user_data cmd.id)) refl, q, z)
  on_cloud_init-Written cmd a h (dir, err e) q z p = (refl, p)

  check_install-Written :
      (cmd : InstallCommand) (a : InstallAnswers E Bytes DbBytes) (h : Host ConfBytes Bytes DbBytes)
      → Ensures (Written cmd a h) (check_install cmd a h)
  unfolding check_install settle_registered on_cloud_init write_distro_data Written
  check_install-Written cmd a h = elim (Bool-cases (is_empty cmd.id)) [
    | inl z ↦ rw (z, check_install) (refl, λ name n. refl)
    | inr z ↦ rw (z, check_install) (registered z a.is_registered refl)
  ]
    where
      registered :
          is_empty cmd.id ≡ false
          → (r : Result E Bool) → a.is_registered ≡ r
          → Ensures (Written cmd a h) (
              (settle_registered r >>> λ _.
              on_cloud_init (write_distro_data a.write_faults cmd.id cmd.cloud_init))
                h)
      registered z (err e) q = (refl, λ name n. refl)
      registered z (ok true) q = (refl, λ name n. refl)
      registered z (ok false) q =
          on_cloud_init-Written cmd a h
            (write_distro_data a.write_faults cmd.id cmd.cloud_init h.cloud_init) q z
            (write_file_in_dir-Replaces a.write_faults (user_data cmd.id) (codes cmd.cloud_init)
              h.cloud_init)

  -- What Install leaves behind: on success the data of the distro for cloud-init; on an error nothing
  -- but a temporary file, and no call was made; or, if the distro was not registered, the last call is
  -- to unregister it, and its data are removed, unless the removal fails.
  abbrev pub CleansUp :
      InstallCommand
      → InstallAnswers E Bytes DbBytes
      → Host ConfBytes Bytes DbBytes
      → Host ConfBytes Bytes DbBytes
      → Result (CommandError E) (Unit {0})
      → Type 0
  CleansUp cmd a h h' (ok _) = h'.cloud_init (user_data cmd.id) ≡ some (codes cmd.cloud_init)
  CleansUp cmd a h h' (err e) =
      ((h'.calls ≡ h.calls)
        × ((name : List ℕ)
            → same_codes name (tmp (user_data cmd.id)) ≡ false
            → h'.cloud_init name ≡ h.cloud_init name))
      ⊎ ((a.is_registered ≡ ok false)
          × (is_empty cmd.id ≡ false)
          × (cs : List Call) × (h'.calls ≡ cs ++ unregisters cmd.id ∷ [])
          × ((h'.cloud_init (user_data cmd.id) ≡ none) ⊎ ((e : E) × (a.remove_error ≡ some e))))

  clean_up_install-CleansUp :
      (cmd : InstallCommand) (a : InstallAnswers E Bytes DbBytes)
      (h h0 : Host ConfBytes Bytes DbBytes)
      → Written cmd a h h0 (ok tt)
      → (o : Option (Host ConfBytes Bytes DbBytes × Result (CommandError E) (Unit {0})))
      → Ensures (λ h' r. h'.cloud_init ≡ h0.cloud_init) o
      → Ensures (CleansUp cmd a h) (clean_up_install a.remove_error cmd.id o)
  unfolding clean_up_install Written
  clean_up_install-CleansUp cmd a h h0 w none p = tt
  clean_up_install-CleansUp cmd a h h0 w (some (h', ok _)) p =
      ap (λ dir. dir (user_data cmd.id)) p ∙ w.0
  clean_up_install-CleansUp cmd a h h0 w (some (h', err e)) p =
      inr (w.1, w.2, h'.calls, refl, remove_distro_data_lem a.remove_error cmd.id h'.cloud_init)

  module _ (db_codec : DbCodec E DbBytes) (codec : Codec E Task Bytes)
      (sha256 : List ℕ → List ℕ) where
    install_written-Frames :
        (ctx : Context) (cmd : InstallCommand) (a : InstallAnswers E Bytes DbBytes)
        → Frames
            (λ h. h.cloud_init)
            (install_written {ConfBytes = ConfBytes} db_codec codec sha256 ctx cmd a)
    unfolding install_written register_distro files
    install_written-Frames ctx cmd a =
        then-Frames (λ h. h.cloud_init) (fetch_distro sha256 ctx cmd a) _
          (fetch_distro-Frames sha256 ctx cmd a)
          (then-Frames (λ h. h.cloud_init) (register_distro db_codec codec cmd.id a) _
            (λ h. settle_found-Frames files h (
              get_distro_and_update_properties db_codec codec a.db_faults a.task_faults a.registry
                a.registry' a.tasks cmd.id no_properties h.database))
            (then-Frames (λ h. h.cloud_init) (answered from_host a.sleep_error) _
              (answered-Frames (λ h. h.cloud_init) from_host a.sleep_error)
              (finish_install-Frames files cmd a)))

    -- If Install returns no error, the cloud-init data of the command are in the file of the distro. If it
    -- returns an error, then it has made no call to WSL, and has changed no cloud-init file but a temporary
    -- one; or the distro, which has a name, was not registered before, the last call is that of Uninstall,
    -- whose own error is only logged, and the cloud-init data of the distro are gone, unless their removal
    -- fails.
    pub install-CleansUp :
        (ctx : Context) (cmd : InstallCommand) (a : InstallAnswers E Bytes DbBytes)
        (h : Host ConfBytes Bytes DbBytes)
        → Ensures (CleansUp cmd a h) (install db_codec codec sha256 ctx cmd a h)
    unfolding install Written
    install-CleansUp ctx cmd a h =
        bind-Ensures (Written cmd a h) (CleansUp cmd a h) (check_install cmd a) _ h
          (check_install-Written cmd a h) (λ h' e p. inl p)
          (λ h' x p.
            clean_up_install-CleansUp cmd a h h' p
              (install_written db_codec codec sha256 ctx cmd a h')
              (install_written-Frames ctx cmd a h'))
