-- ===== src/Distribution.antt =====
-- Distribute of windows-agent/internal/ubuntupro/ubuntupro.go and distributeConfig of
-- windows-agent/internal/proservices/landscape/utils.go hand one task to every distro. What the
-- registry answers about a distro is an argument; `none` is a panic.
pub mod Reach
pub mod Examples
use ubuntu_pro_for_wsl.Prelude.{
  Bool, true, false, List, [], ◌∷◌, Option, none, some, Result, ok, err, String, if◌then◌else◌,
}
use ubuntu_pro_for_wsl.Storage.{Faults}
use ubuntu_pro_for_wsl.Task.{Task}
use ubuntu_pro_for_wsl.TaskManager.{Codec}
use ubuntu_pro_for_wsl.Distro.{RegistryAnswer, DistroError, distro_submit_tasks}
use ubuntu_pro_for_wsl.Database.{DistroMap, DistroDb}

-- The loop over the distros: the distros, and the errors of those that could not take the task.
unfoldable pub distribute :
    {E Bytes : Type 0}
    → Codec E Task Bytes
    → Faults E Bytes
    → (String → RegistryAnswer)
    → Task
    → DistroMap Bytes
    → Option (DistroMap Bytes × List (DistroError E))
distribute codec io answers t [] = some ([], [])
distribute codec io answers t ((n, d) ∷ ds) =
    let rest = distribute codec io answers t ds in
    elim (distro_submit_tasks codec io (answers n) (t ∷ []) d) [
      | none ↦ none
      | some (r, d') ↦ elim rest [
        | none ↦ none
        | some (ds', es) ↦ some ((n, d') ∷ ds', elim r [ ok _ ↦ es | err e ↦ e ∷ es ])
      ]
    ]

-- The errors of the distros are logged. GetAll panics on a database that is stopped.
unfoldable pub distribute_task :
    {E Bytes DbBytes : Type 0}
    → Codec E Task Bytes
    → Faults E Bytes
    → (String → RegistryAnswer)
    → Task
    → DistroDb Bytes DbBytes
    → Option (DistroDb Bytes DbBytes)
unfolding distribute
distribute_task codec io answers t db =
    if db.stopped then none else elim (distribute codec io answers t db.distros) [
      | none ↦ none
      | some (ds, es) ↦ some (record db { distros = ds })
    ]
