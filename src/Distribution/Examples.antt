-- ===== src/Distribution/Examples.antt =====
-- The distribution of a task at concrete inputs.
use ubuntu_pro_for_wsl.Prelude.{◌≡◌, ◌≢◌, refl, false, List, [], ◌∷◌, none, some, ok, String}
use ubuntu_pro_for_wsl.Storage.{Faults}
use ubuntu_pro_for_wsl.Task.{Task, pro_attachment}
use ubuntu_pro_for_wsl.TaskManager.{Codec}
use ubuntu_pro_for_wsl.StateManager.{new_state_manager}
use ubuntu_pro_for_wsl.Distro.{Distro, RegistryAnswer, registered, inaccessible}
use ubuntu_pro_for_wsl.Database.{DistroMap, DistroDb, SerializableDistro}
use ubuntu_pro_for_wsl.Distribution.{distribute_task}
use ubuntu_pro_for_wsl.Distribution.Reach.{AllTake, distribute_task-AllTake}

abbrev task_codec : Codec String Task (List Task)
task_codec = record { marshal = λ ts. ok ts; unmarshal = λ b. ok b }

abbrev disk_full : Faults String (List Task)
disk_full = record {
  write_error = some ("disk full", none);
  rename_error = none;
  read_error = none;
}

-- An older token waits in the queue.
abbrev distro : Distro (List Task)
distro = record {
  identity = record { name = "ubuntu"; guid = 7 };
  properties = record {
    distro_id = "ubuntu";
    version_id = "24.04";
    pretty_name = "Ubuntu";
    hostname = "host";
    pro_attached = false;
  };
  invalidated = false;
  worker = record {
    manager = record {
      tasks = record { channel = 0; notified = 0; items = pro_attachment "old" ∷ [] };
      deferred_tasks = record { channel = 0; notified = 0; items = [] };
      disk = record { file = none; file_new = none };
    };
    conn = none;
    closed = [];
  };
  state_manager = new_state_manager;
}

abbrev db : DistroDb (List Task) (List SerializableDistro)
db = record {
  distros = ("ubuntu", distro) ∷ [];
  disk = record { file = none; file_new = none };
  stopped = false;
  discarded = [];
}

abbrev answers : String → RegistryAnswer
answers name = registered 7

answers-readable : (n : String) → answers n ≢ inaccessible
answers-readable n h = cc h

distribute_task-AllTake_example :
    (ds : DistroMap (List Task)) × (distribute_task task_codec disk_full answers
        (pro_attachment "new")
        db
      ≡ some (record db { distros = ds }))
    × AllTake answers (pro_attachment "new") (("ubuntu", distro) ∷ []) ds
distribute_task-AllTake_example =
    distribute_task-AllTake task_codec disk_full answers (pro_attachment "new") answers-readable db
      refl
