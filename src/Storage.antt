-- ===== src/Storage.antt =====
-- How the agent replaces a file: os.WriteFile of a ".new" sibling, then os.Rename. This is the end
-- of taskManager.save in windows-agent/internal/distros/worker/task_management.go and of
-- DistroDB.dump in windows-agent/internal/distros/database/database.go.
use ubuntu_pro_for_wsl.Prelude.{◌≡◌, Option, none, some, Result, ok, err, arith}

-- The storage file and its ".new" sibling; `none` is a file that does not exist.
pub record Disk (Bytes : Type 0) : Type 0 where
  pub file : Option Bytes
  pub file_new : Option Bytes

-- What goes wrong in one call: an error of os.WriteFile with what it leaves in the ".new" file, of
-- os.Rename, and of os.ReadFile on a file that is there.
pub record Faults (E Bytes : Type 0) : Type 0 where
  pub write_error : Option (E × Option Bytes)
  pub rename_error : Option E
  pub read_error : Option E

module _ {E Bytes : Type 0} where
  rename_new : Option E → Disk Bytes → Disk Bytes × Result E (Unit {0})
  rename_new (some e) d = (d, err e)
  rename_new none d = (record { file = d.file_new; file_new = none }, ok tt)

  unfoldable pub replace_file :
      Faults E Bytes → Bytes → Disk Bytes → Disk Bytes × Result E (Unit {0})
  unfolding rename_new
  replace_file io out d = elim io.write_error [
    | some (e, left) ↦ (record d { file_new = left }, err e)
    | none ↦ rename_new io.rename_error (record d { file_new = some out })
  ]

  -- If replacing a file returns no error, the file has the new contents and no ".new" file is
  -- left; if it returns an error, the file is as it was.
  pub replace_file_atomic :
      (io : Faults E Bytes) (out : Bytes) (d : Disk Bytes)
      → ((replace_file io out d).1 ≡ ok tt
          → ((replace_file io out d).0.file ≡ some out)
            × ((replace_file io out d).0.file_new ≡ none))
        × ((e : E) → (replace_file io out d).1 ≡ err e → (replace_file io out d).0.file ≡ d.file)
  unfolding replace_file
  replace_file_atomic io out d = ground arith
