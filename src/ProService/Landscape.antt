-- ===== src/ProService/Landscape.antt =====
-- wsl-pro-service/internal/system/landscape.go: the Landscape configuration of a distro. The ini package
-- is an argument, as is what the commands and the file system answer.
pub mod Normal
pub mod Idempotence
pub mod Atomic
use ubuntu_pro_for_wsl.Prelude.{
  Bool, true, false, ◌&&◌, ◌||◌, not, Option, none, some, Result, ok, err, map_err, ◌>>=◌, String,
  str_eq, is_empty, if◌then◌else◌,
}

-- ini.File, with the keys of its section [client], and the texts that it reads and writes.
pub record ClientIni (E Doc Text : Type 0) : Type 0 where
  pub parse : Text → Result E Doc
  pub get_client : Doc → Result E (Unit {0})
  pub get_key : String → Doc → Option String
  pub new_key : String → String → Doc → Result E Doc
  pub set_value : String → String → Doc → Doc
  pub write : Doc → Result E Text

module _ {E Doc Text : Type 0} (ini : ClientIni E Doc Text) where
  -- The title of the computer: the document, and whether it has changed.
  unfoldable pub refresh_title : String → Doc → Result E (Doc × Bool)
  refresh_title name doc = elim (ini.get_key "computer_title" doc) [
    | none ↦ elim (ini.new_key "computer_title" name doc) [
      | err e ↦ err e
      | ok doc' ↦ ok (doc', true)
    ]
    | some old ↦
        if str_eq old name
        then ok (doc, false)
        else ok (ini.set_value "computer_title" name doc, true)
  ]

  -- overrideSSLCertificate: `translate` is wslpath and System.Path.
  unfoldable pub override_ssl_certificate : (String → Result E String) → Doc → Result E (Doc × Bool)
  override_ssl_certificate translate doc = elim (ini.get_key "ssl_public_key" doc) [
    | none ↦ ok (doc, false)
    | some windows ↦
        if is_empty windows
        then ok (doc, false)
        else (translate windows >>= λ linux.
            ok (ini.set_value "ssl_public_key" linux doc, not (str_eq windows linux)))
  ]

  -- normalizeLandscapeConfig, before the document is written: `name` is what WslDistroName returns.
  unfoldable pub normalize_doc :
      Result E String → (String → Result E String) → Doc → Result E (Doc × Bool)
  unfolding refresh_title override_ssl_certificate
  normalize_doc name translate doc = ini.get_client doc >>= λ _. name >>= λ n.
      refresh_title n doc >>= λ titled.
      override_ssl_certificate translate titled.0 >>= λ overridden.
      ok (overridden.0, titled.1 || overridden.1)

  unfoldable pub normalize_landscape_config :
      Result E String → (String → Result E String) → Doc → Result E (Text × Bool)
  unfolding normalize_doc
  normalize_landscape_config name translate doc =
      normalize_doc name translate doc >>= λ d. ini.write d.0 >>= λ s. ok (s, d.1)

-- The files of the configuration.
pub record ConfigFiles (Text : Type 0) : Type 0 where
  pub final : Option Text
  pub tmp : Option Text

-- What writing meets: before the file, os.WriteFile with what it leaves, os.Chown and os.Rename. A
-- failed os.RemoveAll is ignored.
pub record WriteAnswers (E Text : Type 0) : Type 0 where
  pub setup : Option E
  pub write_error : Option (E × Option Text)
  pub chown_error : Option E
  pub rename_error : Option E
  pub remove_error : Option E

abbrev pub Written : Type 0 → Type 0 → Type 0
Written E Text = ConfigFiles Text × Result E (Unit {0})

module _ {E Text : Type 0} where
  -- os.RemoveAll of the temporary file, and the error that led to it.
  unfoldable pub remove_tmp : Option E → E → ConfigFiles Text → Written E Text
  remove_tmp none e fs = (record fs { tmp = none }, err e)
  remove_tmp (some _) e fs = (fs, err e)

  unfoldable pub settle_tmp : WriteAnswers E Text → Text → ConfigFiles Text → Written E Text
  unfolding remove_tmp
  settle_tmp a conf fs = elim a.chown_error [
    | some e ↦ remove_tmp a.remove_error e fs
    | none ↦ elim a.rename_error [
      | some e ↦ remove_tmp a.remove_error e fs
      | none ↦ (record { final = some conf; tmp = none }, ok tt)
    ]
  ]

  unfoldable pub write_config : WriteAnswers E Text → Text → ConfigFiles Text → Written E Text
  unfolding settle_tmp
  write_config a conf fs = elim a.setup [
    | some e ↦ (fs, err e)
    | none ↦ elim a.write_error [
      | some (e, left) ↦ (record fs { tmp = left }, err e)
      | none ↦ settle_tmp a conf (record fs { tmp = some conf })
    ]
  ]

-- What landscape-config is run for: to register the distro, or to disable it.
pub data LandscapeCall : Type 0 where
  registers disables : LandscapeCall

-- What the methods meet.
pub record EnableAnswers (E Text : Type 0) : Type 0 where
  pub name : Result E String
  pub translate : String → Result E String
  pub writing : WriteAnswers E Text
  pub command_error : Option E

-- The files, the commands that were run, and the result.
abbrev pub Enabled : Type 0 → Type 0 → Type 0
Enabled E Text = ConfigFiles Text × Option LandscapeCall × Result E (Unit {0})

unfoldable pub ran : {E : Type 0} → Option E → Result E (Unit {0})
ran none = ok tt
ran (some e) = err e

unfoldable pub landscape_disable : {E Text : Type 0} → Option E → ConfigFiles Text → Enabled E Text
unfolding ran
landscape_disable e fs = (fs, some disables, ran e)

module _ {E Doc Text : Type 0} (ini : ClientIni E Doc Text) where
  -- The end of fixAndEnableLandscapeFromConfig: the configuration is written and registered.
  unfoldable pub register : EnableAnswers E Text → Text → ConfigFiles Text → Enabled E Text
  unfolding write_config ran
  register a conf fs =
      let (fs', r) = write_config a.writing conf fs in
      elim r [ err e ↦ (fs', none, err e) | ok _ ↦ (fs', some registers, ran a.command_error) ]

  unfoldable pub fix_and_enable :
      EnableAnswers E Text → Text → Bool → ConfigFiles Text → Enabled E Text
  unfolding normalize_landscape_config register
  fix_and_enable a conf unconditionally fs =
      elim (ini.parse conf >>= normalize_landscape_config ini a.name a.translate) [
        | err e ↦ (fs, none, err e)
        | ok (modified, changed) ↦
            if not unconditionally && not changed then (fs, none, ok tt) else register a modified fs
      ]

  unfoldable pub landscape_enable : EnableAnswers E Text → Text → ConfigFiles Text → Enabled E Text
  unfolding fix_and_enable
  landscape_enable a conf fs = fix_and_enable a conf true fs

  -- EnsureValidLandscapeConfig: an error of os.ReadFile on a file that is there.
  unfoldable pub ensure_valid : Option E → EnableAnswers E Text → ConfigFiles Text → Enabled E Text
  unfolding fix_and_enable
  ensure_valid read_error a fs = elim fs.final [
    | none ↦ (fs, none, ok tt)
    | some conf ↦ elim read_error [
      | some e ↦ (fs, none, err e)
      | none ↦ fix_and_enable a conf false fs
    ]
  ]

-- ApplyLandscapeConfig of wsl-pro-service/internal/commandservice/commandservice.go
unfoldable pub apply_landscape_config :
    {E Doc : Type 0}
    → ClientIni E Doc String
    → EnableAnswers E String
    → String
    → ConfigFiles String
    → Enabled E String
unfolding landscape_enable landscape_disable
apply_landscape_config ini a conf fs =
    if is_empty conf then landscape_disable a.command_error fs else landscape_enable ini a conf fs
