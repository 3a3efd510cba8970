-- ===== src/Database/Startup.antt =====
-- load and Close of windows-agent/internal/distros/database/database.go.
use ubuntu_pro_for_wsl.Prelude.{
  true, false, List, [], ◌∷◌, ◌++◌, Option, none, some, Result, ok, err, String,
}
use ubuntu_pro_for_wsl.Storage.{Disk, Faults}
use ubuntu_pro_for_wsl.Task.{Task}
use ubuntu_pro_for_wsl.TaskManager.{Codec}
use ubuntu_pro_for_wsl.Distro.{Distro, RegistryAnswer, new_distro, cleanup}
use ubuntu_pro_for_wsl.Database.{
  DistroMap, DistroDb, SerializableDistro, DbCodec, DbError, assign, dump, clean_up,
}

module _ {E DbBytes : Type 0} (db_codec : DbCodec E DbBytes) where
  read_db : Option E → Option DbBytes → Result E (List SerializableDistro)
  read_db _ none = ok []
  read_db (some e) (some b) = err e
  read_db none (some b) = db_codec.unmarshal b

module _ {E Bytes DbBytes : Type 0} (db_codec : DbCodec E DbBytes) where
  module _ (codec : Codec E Task Bytes) (io : Faults E Bytes) where
    -- serializableDistro.newDistro; `none` inside is an error of uuid.Parse.
    thaw : RegistryAnswer → Disk Bytes → SerializableDistro → Option (Option (Distro Bytes))
    thaw answer tasks inert = elim (db_codec.parse_guid inert.guid) [
      | none ↦ some none
      | some guid ↦ elim (new_distro codec io inert.name guid inert.properties answer tasks) [
        | none ↦ none
        | some (err e) ↦ some none
        | some (ok d) ↦ some (some d)
      ]
    ]

    -- The loop of load over the file: a distro that cannot be made is dropped.
    thaw_all :
        (String → RegistryAnswer)
        → (String → Disk Bytes)
        → List SerializableDistro
        → DistroMap Bytes
        → Option (DistroMap Bytes)
    unfolding thaw
    thaw_all answers tasks [] ds = some ds
    thaw_all answers tasks (inert ∷ inerts) ds =
        elim (thaw (answers inert.name) (tasks inert.name) inert) [
          | none ↦ none
          | some none ↦ thaw_all answers tasks inerts ds
          | some (some d) ↦
              thaw_all answers tasks inerts (assign (db_codec.to_lower d.identity.name) d ds)
        ]

    -- load; New adds the goroutine that cleans up.
    unfoldable pub load_db :
        Option E
        → (String → RegistryAnswer)
        → (String → Disk Bytes)
        → Disk DbBytes
        → Option (Result (DbError E) (DistroDb Bytes DbBytes))
    unfolding read_db thaw_all
    load_db read_error answers tasks disk = elim (read_db db_codec read_error disk.file) [
      | err e ↦ some (err (DbError.from_disk e))
      | ok inerts ↦ elim (thaw_all answers tasks inerts []) [
        | none ↦ none
        | some ds ↦
            some (ok (record { distros = ds; disk = disk; stopped = false; discarded = [] }))
      ]
    ]

  -- cleanupAllDistros: every worker is stopped before it returns.
  cleanup_all : DistroMap Bytes → Option (List (Distro Bytes))
  cleanup_all [] = some []
  cleanup_all ((n, d) ∷ ds) =
      let rest = cleanup_all ds in
      elim (cleanup d) [
        | none ↦ none
        | some d' ↦ elim rest [ none ↦ none | some stopped ↦ some (d' ∷ stopped) ]
      ]

  -- What Close does once its clean up has returned, whatever its error.
  close_down : Faults E DbBytes → DistroDb Bytes DbBytes → Option (DistroDb Bytes DbBytes)
  unfolding cleanup_all
  close_down io db =
      let (db', _) = dump db_codec io db in
      elim (cleanup_all db'.distros) [
        | none ↦ none
        | some ended ↦ some (record db' { distros = []; discarded = ended ++ db'.discarded })
      ]

  -- The first call of Close.
  unfoldable pub close :
      Faults E DbBytes
      → Faults E DbBytes
      → (String → RegistryAnswer)
      → DistroDb Bytes DbBytes
      → Option (DistroDb Bytes DbBytes)
  unfolding close_down
  close io io' answers db = elim (clean_up db_codec io answers (record db { stopped = true })) [
    | none ↦ none
    | some (db', names, e) ↦ close_down io' db'
  ]
