-- ===== src/ProService/System.antt =====
-- wsl-pro-service/internal/system: system.go and pro.go. What the commands, the environment and the
-- file system answer is an argument. A text is the list of its code points.
pub mod DistroName
pub mod Drives
use ubuntu_pro_for_wsl.Prelude.{
  ℕ, Bool, true, false, ◌&&◌, List, [], ◌∷◌, ◌++◌, Option, none, some, Result, ok, err, map_err,
  ◌>>=◌, if◌then◌else◌, ◌==◌, codes, fields, same_codes, is_nil, get_elem?,
}
use ubuntu_pro_for_wsl.Landscape.DefaultUser.{trim_space}

pub data SystemError (E : Type 0) : Type 0 where
  failed : E → SystemError E
  no_name_in_path empty_profile not_directory no_drive : SystemError E
  refused : List ℕ → List ℕ → SystemError E

-- A command, once it has ended: its standard output, and whether it failed.
pub record Ran (E : Type 0) : Type 0 where
  pub stdout : List ℕ
  pub failure : Option E

-- runCommand, when it returns no error, and what it returns with an error.
unfoldable pub run_command : {E : Type 0} → Ran E → Result (SystemError E) (List ℕ)
run_command ran = elim ran.failure [ some e ↦ err (failed e) | none ↦ ok (trim_space ran.stdout) ]

-- strings.Split by one character, with the part that is being read.
unfoldable pub split_from : ℕ → List ℕ → List ℕ → List (List ℕ)
split_from sep part [] = part ∷ []
split_from sep part (c ∷ s) =
    let next = split_from sep (part ++ c ∷ []) s in
    let rest = split_from sep [] s in if c == sep then part ∷ rest else next

-- The cache, and the name of the distro.
abbrev pub Named : Type 0 → Type 0
Named E = List ℕ × Result (SystemError E) (List ℕ)

unfoldable pub name_in_path : {E : Type 0} → List ℕ → List ℕ → Named E
unfolding split_from
name_in_path cache out = elim (get_elem? (split_from b'\\' [] out) 3) [
  | none ↦ (cache, err no_name_in_path)
  | some name ↦ (name, ok name)
]

-- WslDistroName: the environment, and the command `wslpath -w /`.
unfoldable pub wsl_distro_name : {E : Type 0} → List ℕ → Ran E → List ℕ → Named E
unfolding run_command name_in_path
wsl_distro_name env ran cache =
    if is_nil cache
    then (if is_nil env
        then elim (run_command ran) [ err e ↦ (cache, err e) | ok out ↦ name_in_path cache out ]
        else (cache, ok env))
    else (cache, ok cache)

-- The mount point in a line of /proc/mounts, if it is that of a Windows drive.
unfoldable pub drive_of : List (List ℕ) → Option (List ℕ)
drive_of (device ∷ point ∷ kind ∷ more) = if same_codes kind (codes "9p") then some point else none
drive_of _ = none

-- The scan of findCmdExe: `path` joins a mount point with the path of cmd.exe, and `exists` is
-- whether os.Stat finds it.
unfoldable pub scan_mounts : (List ℕ → List ℕ) → (List ℕ → Bool) → List (List ℕ) → Option (List ℕ)
unfolding drive_of
scan_mounts path exists [] = none
scan_mounts path exists (line ∷ lines) =
    let rest = scan_mounts path exists lines in
    elim (drive_of (fields line)) [
      | none ↦ rest
      | some point ↦ if exists (path point) then some (path point) else rest
    ]

-- What findCmdExe reads of /proc/mounts: an error of os.Open, or lines, and the error of the scanner
-- after them.
pub record Mounts (E : Type 0) : Type 0 where
  pub lines : Result E (List (List ℕ))
  pub scan_error : Option E

unfoldable pub search_mounts :
    {E : Type 0} → (List ℕ → List ℕ) → (List ℕ → Bool) → Mounts E → Result (SystemError E) (List ℕ)
unfolding scan_mounts
search_mounts path exists mounts = elim mounts.lines [
  | err e ↦ err (failed e)
  | ok lines ↦ elim (scan_mounts path exists lines) [
    | some p ↦ ok p
    | none ↦ elim mounts.scan_error [ some e ↦ err (failed e) | none ↦ err no_drive ]
  ]
]

-- findCmdExe, with its cache, which takes its result, empty after an error.
unfoldable pub find_cmd_exe :
    {E : Type 0}
    → (List ℕ → List ℕ)
    → (List ℕ → Bool)
    → Mounts E
    → List ℕ
    → List ℕ × Result (SystemError E) (List ℕ)
unfolding search_mounts
find_cmd_exe path exists mounts cache =
    let r = search_mounts path exists mounts in
    if is_nil cache then (elim r [ ok p ↦ p | err e ↦ [] ], r) else (cache, ok cache)

-- os.Stat of a path: an error, or whether it is a directory.
unfoldable pub check_directory :
    {E : Type 0} → Result E Bool → List ℕ → Result (SystemError E) (List ℕ)
check_directory (err e) path = err (failed e)
check_directory (ok true) path = ok path
check_directory (ok false) path = err not_directory

-- UserProfileDir, once cmd.exe is found: `echo` is what it prints, `translate` what wslpath makes of
-- a path, and `stat` what os.Stat finds.
unfoldable pub user_profile_dir :
    {E : Type 0}
    → Ran E
    → (List ℕ → Ran E)
    → (List ℕ → Result E Bool)
    → (List ℕ → List ℕ)
    → Result (SystemError E) (List ℕ)
    → Result (SystemError E) (List ℕ)
unfolding run_command check_directory
user_profile_dir echo translate stat path cmd_exe = cmd_exe >>= λ _. run_command echo >>= λ home.
    if is_nil (trim_space home)
    then err empty_profile
    else (run_command (translate (trim_space home)) >>= λ linux.
        check_directory (stat (path linux)) (path linux))

-- DistroInfo
pub record DistroInfo : Type 0 where
  pub wsl_name : List ℕ
  pub id : List ℕ
  pub version_id : List ℕ
  pub pretty_name : List ℕ
  pub pro_attached : Bool
  pub hostname : List ℕ

-- /etc/os-release, as the ini package maps it: the ID, the version and the name.
pub record OsRelease : Type 0 where
  pub id : List ℕ
  pub version_id : List ℕ
  pub pretty_name : List ℕ

-- ProStatus: `parse` reads `attached` off the JSON.
unfoldable pub pro_status :
    {E : Type 0} → (List ℕ → Result E Bool) → Ran E → Result (SystemError E) Bool
unfolding run_command
pro_status parse ran = run_command ran >>= λ out. map_err failed (parse out)

-- Info, on a copy of the System: what WslDistroName caches is not kept.
unfoldable pub info :
    {E : Type 0}
    → Named E
    → Result (SystemError E) Bool
    → Result E (List ℕ)
    → Result E OsRelease
    → Result (SystemError E) DistroInfo
info (cache, name) pro hostname os_release = name >>= λ n. pro >>= λ attached.
    map_err failed hostname >>= λ h. map_err failed os_release >>= λ os. ok (record {
      wsl_name = n;
      id = os.id;
      version_id = os.version_id;
      pretty_name = os.pretty_name;
      pro_attached = attached;
      hostname = h;
    })

-- ProAttach
unfoldable pub pro_attach : {E : Type 0} → Ran E → Result (SystemError E) (Unit {0})
unfolding run_command
pro_attach ran = run_command ran >>= λ _. ok tt

-- The errors of `pro detach`: codes and messages.
unfoldable pub settle_detach :
    {E : Type 0} → E → List (List ℕ × List ℕ) → Result (SystemError E) (Unit {0})
settle_detach e [] = err (failed e)
settle_detach e ((message_code, message) ∷ more) =
    if same_codes message_code (codes "unattached")
    then ok tt
    else err (refused message_code message)

-- ProDetach: `parse` reads the errors off the JSON.
unfoldable pub pro_detach :
    {E : Type 0}
    → (List ℕ → Result E (List (List ℕ × List ℕ)))
    → Ran E
    → Result (SystemError E) (Unit {0})
unfolding settle_detach
pro_detach parse ran = elim ran.failure [
  | none ↦ ok tt
  | some e ↦ map_err failed (parse (trim_space ran.stdout)) >>= settle_detach e
]
