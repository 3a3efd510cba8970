-- ===== src/Database/Examples.antt =====
-- The theorems about the database at concrete inputs: "ubuntu" is there, and its GUID has changed.
use ubuntu_pro_for_wsl.Prelude.{◌≡◌, ◌⊎◌, true, false, List, [], ◌∷◌, none, some, ok, String}
use ubuntu_pro_for_wsl.Storage.{Faults}
use ubuntu_pro_for_wsl.Task.{Task}
use ubuntu_pro_for_wsl.TaskManager.{Codec}
use ubuntu_pro_for_wsl.Distro.{Properties, Distro, registered, inaccessible}
use ubuntu_pro_for_wsl.StateManager.{new_state_manager}
use ubuntu_pro_for_wsl.Database.{
  SerializableDistro, DistroDb, DbCodec, get_distro_and_update_properties,
}
use ubuntu_pro_for_wsl.Database.Validity.{Fetches, get_distro_and_update_properties-Fetches}

abbrev db_codec : DbCodec String (List SerializableDistro)
db_codec = record {
  marshal = λ ds. ok ds;
  unmarshal = λ b. ok b;
  show_guid = λ _. "guid";
  parse_guid = λ _. some 7;
  to_lower = λ s. s;
}

abbrev task_codec : Codec String Task (List Task)
task_codec = record { marshal = λ ts. ok ts; unmarshal = λ b. ok b }

abbrev no_faults : Faults String (List Task)
no_faults = record { write_error = none; rename_error = none; read_error = none }

abbrev db_faults : Faults String (List SerializableDistro)
db_faults = record {
  write_error = some ("disk full", none);
  rename_error = none;
  read_error = none;
}

abbrev noble : Properties
noble = record {
  distro_id = "ubuntu";
  version_id = "24.04";
  pretty_name = "Ubuntu";
  hostname = "host";
  pro_attached = false;
}

abbrev distro : Distro (List Task)
distro = record {
  identity = record { name = "ubuntu"; guid = 7 };
  properties = noble;
  invalidated = false;
  worker = record {
    manager = record {
      tasks = record { channel = 0; notified = 0; items = [] };
      deferred_tasks = record { channel = 0; notified = 0; items = [] };
      disk = record { file = none; file_new = none };
    };
    conn = none;
    closed = [];
  };
  state_manager = new_state_manager;
}

abbrev db : DistroDb (List Task) (List SerializableDistro)
db = record {
  distros = ("ubuntu", distro) ∷ [];
  disk = record { file = none; file_new = none };
  stopped = false;
  discarded = [];
}

get_distro_and_update_properties_example :
    Fetches "ubuntu" noble ((false ≡ true) ⊎ (registered 8 ≡ inaccessible)) (
      get_distro_and_update_properties db_codec task_codec db_faults no_faults
        (registered 8)
        (registered 8)
        (record { file = none; file_new = none })
        "ubuntu"
        noble
        db)
get_distro_and_update_properties_example =
    get_distro_and_update_properties-Fetches db_codec db_faults task_codec no_faults (registered 8)
      (registered 8) (record { file = none; file_new = none }) "ubuntu" noble db
