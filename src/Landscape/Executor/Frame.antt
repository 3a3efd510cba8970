-- ===== src/Landscape/Executor/Frame.antt =====
-- What the commands of windows-agent/internal/proservices/landscape/executor.go leave as it is.
use ubuntu_pro_for_wsl.Prelude.{
  ℕ, ◌≡◌, refl, ◌∙◌, inl, inr, List, [], ◌∷◌, ◌++◌, Option, none, some, Result, ok, err, String,
  is_empty, ◌==◌, ◌>>>◌, Ensures, bind-Ensures, Bool-cases,
}
use ubuntu_pro_for_wsl.Database.{DistroDb, Found}
use ubuntu_pro_for_wsl.Landscape.Download.{DownloadError, download}
use ubuntu_pro_for_wsl.Landscape.DefaultUser.{UserError, create_default_user}
use ubuntu_pro_for_wsl.Landscape.Executor.Host.{
  Run, Host, Call, sends, downloads, imports, installs, launches, CommandError, from_host, call,
  answered,
}
use ubuntu_pro_for_wsl.Landscape.Executor.Install.{
  InstallCommand, InstallAnswers, UrlAnswers, OnlineAnswers, LauncherError, command_not_found,
  launcher_failed, try, fetched, install_from_url, launched, install_from_wsl_online_distros,
  settle_user, settle_default_uid, finish_install, settle_found,
}

-- A call that is no message to the server.
abbrev pub IsSilent : Call → Type 0
IsSilent (sends status) = ⊥
IsSilent _ = Unit {0}

module _ {ConfBytes Bytes DbBytes E V : Type 0} where
  -- Whatever the step returns, the view of the host is as it was.
  abbrev pub Frames : (Host ConfBytes Bytes DbBytes → V) → Run ConfBytes Bytes DbBytes E → Type 0
  Frames view m = (h : Host ConfBytes Bytes DbBytes) → Ensures (λ h' r. view h' ≡ view h) (m h)

  pub then-Frames :
      (view : Host ConfBytes Bytes DbBytes → V) (m f : Run ConfBytes Bytes DbBytes E)
      → Frames view m
      → Frames view f
      → Frames view (m >>> λ _. f)
  then-Frames view m f hm hf h =
      bind-Ensures (λ h' r. view h' ≡ view h) (λ h' r. view h' ≡ view h) m (λ _. f) h (hm h)
        (λ h' e q. q) (λ h' a q. widen h' q (f h') (hf h'))
    where
      widen :
          (h' : Host ConfBytes Bytes DbBytes)
          → view h' ≡ view h
          → (o : Option (Host ConfBytes Bytes DbBytes × Result (CommandError E) (Unit {0})))
          → Ensures (λ h'' r. view h'' ≡ view h') o
          → Ensures (λ h'' r. view h'' ≡ view h) o
      widen h' q none _ = tt
      widen h' q (some (h'', r)) p = p ∙ q

  pub answered-Frames :
      {F : Type 0} (view : Host ConfBytes Bytes DbBytes → V) (wrap : F → CommandError E)
      (o : Option F)
      → Frames view (answered wrap o)
  unfolding answered
  answered-Frames view wrap none h = refl
  answered-Frames view wrap (some e) h = refl

-- A view of the host that the silent calls and the database do not change.
pub record View (ConfBytes Bytes DbBytes V : Type 0) : Type 1 where
  pub see : Host ConfBytes Bytes DbBytes → V
  pub on_call :
      (c : Call) (h : Host ConfBytes Bytes DbBytes)
      → IsSilent c
      → see (record h { calls = h.calls ++ c ∷ [] }) ≡ see h
  pub on_database :
      (db : DistroDb Bytes DbBytes) (h : Host ConfBytes Bytes DbBytes)
      → see (record h { database = db }) ≡ see h

module _ {ConfBytes Bytes DbBytes V : Type 0} (view : View ConfBytes Bytes DbBytes V)
    (E : Type 0) where
  pub call-Frames : (c : Call) → IsSilent c → Frames {E = E} view.see (call c)
  unfolding call
  call-Frames c s h = view.on_call c h s

module _ {ConfBytes Bytes DbBytes V E : Type 0} (view : View ConfBytes Bytes DbBytes V) where
  pub try-Frames : (c : Call) (e : Option E) → IsSilent c → Frames view.see (try c e)
  unfolding try
  try-Frames c e s =
      then-Frames view.see (call c) (answered from_host e) (call-Frames view E c s)
        (answered-Frames view.see from_host e)

  fetched-Frames : (r : Result (DownloadError E) (Unit {0})) → Frames view.see (fetched r)
  unfolding fetched
  fetched-Frames (ok _) h = refl
  fetched-Frames (err e) h = refl

  pub install_from_url-Frames :
      (sha256 : List ℕ → List ℕ) (id : String) (image : List ℕ) (a : UrlAnswers E)
      → Frames view.see (install_from_url sha256 id image a)
  unfolding install_from_url
  install_from_url-Frames sha256 id image a =
      then-Frames view.see (answered from_host a.mkdir_error) _
        (answered-Frames view.see from_host a.mkdir_error)
        (then-Frames view.see (call (downloads id)) _ (call-Frames view E (downloads id) tt) (
          then-Frames view.see (fetched (download sha256 image a.sums a.image a.create_error).1) _
            (fetched-Frames (download sha256 image a.sums a.image a.create_error).1)
            (then-Frames view.see (answered from_host a.vhdx_error) _
              (answered-Frames view.see from_host a.vhdx_error)
              (try-Frames (imports id) a.import_error tt))))

  launched-Frames :
      (launcher : Option (LauncherError E)) (e : Option E) → Frames view.see (launched launcher e)
  unfolding launched
  launched-Frames none e h = refl
  launched-Frames (some (launcher_failed x)) e h = refl
  launched-Frames (some command_not_found) e h = answered-Frames view.see from_host e h

  pub install_from_wsl_online_distros-Frames :
      (id : String) (a : OnlineAnswers E) → Frames view.see (install_from_wsl_online_distros id a)
  unfolding install_from_wsl_online_distros
  install_from_wsl_online_distros-Frames id a =
      then-Frames view.see (try (installs id) a.install_error) _
        (try-Frames (installs id) a.install_error tt)
        (then-Frames view.see (call (launches id)) _ (call-Frames view E (launches id) tt)
          (launched-Frames a.launcher a.cloud_init_error))

  settle_user-Frames : (r : Result (UserError E) ℕ) → Frames view.see (settle_user r)
  unfolding settle_user
  settle_user-Frames (ok uid) h = refl
  settle_user-Frames (err e) h = refl

  settle_default_uid-Frames :
      (a : InstallAnswers E Bytes DbBytes) (r : Result E ℕ)
      → Frames view.see (settle_default_uid a r)
  unfolding settle_default_uid
  settle_default_uid-Frames a (err e) h = refl
  settle_default_uid-Frames a (ok uid) h = elim (Bool-cases (uid == 0)) [
    | inl z ↦
        rw (z, settle_default_uid)
          (settle_user-Frames
            (create_default_user a.windows_user a.user_answers a.set_default_error) h)
    | inr z ↦ rw (z, settle_default_uid) refl
  ]

  pub finish_install-Frames :
      (cmd : InstallCommand) (a : InstallAnswers E Bytes DbBytes)
      → Frames view.see (finish_install cmd a)
  unfolding finish_install
  finish_install-Frames cmd a h = elim (Bool-cases (is_empty cmd.cloud_init)) [
    | inl z ↦ rw (z, finish_install) (settle_default_uid-Frames a a.default_uid h)
    | inr z ↦ rw (z, finish_install) refl
  ]

  pub settle_found-Frames :
      (h : Host ConfBytes Bytes DbBytes) (o : Option (Found E Bytes DbBytes))
      → Ensures (λ h' r. view.see h' ≡ view.see h) (settle_found h o)
  unfolding settle_found
  settle_found-Frames h none = tt
  settle_found-Frames h (some (db, found, e)) = view.on_database db h
