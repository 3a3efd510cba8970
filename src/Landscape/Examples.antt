-- ===== src/Landscape/Examples.antt =====
-- The theorems about the Landscape client at concrete inputs: "ubuntu" is not in the database, and is
-- installed from a URL.
use ubuntu_pro_for_wsl.Prelude.{
  ◌^◌, min, ℕ, ◌≡◌, refl, true, false, List, [], ◌∷◌, none, some, Result, ok, String, codes,
  Ensures, All, is_space,
}
use ubuntu_pro_for_wsl.Task.{Task}
use ubuntu_pro_for_wsl.TaskManager.{Codec}
use ubuntu_pro_for_wsl.StateManager.{running}
use ubuntu_pro_for_wsl.ClientConfig.{Ini}
use ubuntu_pro_for_wsl.Config.{StoredConfig, ConfigCodec, Io, new_config}
use ubuntu_pro_for_wsl.Distro.{registered}
use ubuntu_pro_for_wsl.Database.{SerializableDistro, DbCodec}
use ubuntu_pro_for_wsl.Landscape.Download.{SumsResponse, ImageResponse}
use ubuntu_pro_for_wsl.Landscape.Download.Sums.{IsEntry}
use ubuntu_pro_for_wsl.Landscape.Retry.{
  RetryConnection, new_retry_connection, requests, resets, run,
}
use ubuntu_pro_for_wsl.Landscape.Retry.Flag.{Stands, run-Stands, new-Stands}
use ubuntu_pro_for_wsl.Landscape.KeepConnected.{Round, cooled, drops, Loop, new_loop, run_rounds}
use ubuntu_pro_for_wsl.Landscape.KeepConnected.Pace.{IsPaced, run_rounds-IsPaced}
use ubuntu_pro_for_wsl.Landscape.KeepConnected.Drops.{
  times, dropped, connected_loop, run_rounds-dropped,
}
use ubuntu_pro_for_wsl.Landscape.DefaultUser.{WindowsUser, DistroAnswers}
use ubuntu_pro_for_wsl.Landscape.Executor.Host.{
  Host, CommandError, shuts_down, send_progress_status_msg, call, answered,
}
use ubuntu_pro_for_wsl.Landscape.Executor.Install.{InstallCommand, InstallAnswers, install}
use ubuntu_pro_for_wsl.Landscape.Executor.Commands.{
  Request, CommandAnswers, installs_distro, shutdown_host, acknowledged, exec, perform, run_call,
  context_of, report,
}
use ubuntu_pro_for_wsl.Landscape.HostConf.{HostIni}
use ubuntu_pro_for_wsl.Landscape.HostInfo.{new_host_agent_info}
use ubuntu_pro_for_wsl.Landscape.Receiving.{Received, execute_command}
use ubuntu_pro_for_wsl.Landscape.Receiving.Rounds.{Pings, execute_command-Pings}
use ubuntu_pro_for_wsl.Landscape.Executor.Protocol.{Converses, exec-Converses}
use ubuntu_pro_for_wsl.Landscape.Executor.CleanUp.{CleansUp, install-CleansUp}

abbrev conf_codec : ConfigCodec String StoredConfig
conf_codec = record {
  marshal = λ s. ok s;
  unmarshal = λ b. ok b;
  no_bytes = record {
    user = "";
    store = "";
    subscription_checksum = "";
    user_config = "";
    uid = "";
    landscape_checksum = "";
  };
}

abbrev ini : Ini String String
ini = record {
  parse = λ s. ok s;
  get_section = λ _ _. ok tt;
  has_key = λ _ _ _. true;
  new_key = λ _ _ _ doc. ok doc;
  set_value = λ _ _ _ doc. doc;
  write = λ doc. ok doc;
}

abbrev db_codec : DbCodec String (List SerializableDistro)
db_codec = record {
  marshal = λ ds. ok ds;
  unmarshal = λ b. ok b;
  show_guid = λ _. "guid";
  parse_guid = λ _. some 7;
  to_lower = λ s. s;
}

abbrev task_codec : Codec String Task (List Task)
task_codec = record { marshal = λ ts. ok ts; unmarshal = λ b. ok b }

abbrev sha256 : List ℕ → List ℕ
sha256 body = codes "5ca1ab1e"

abbrev entries : List (List ℕ × List ℕ)
entries = (codes "5ca1ab1e", codes "noble.tar.gz") ∷ []

abbrev sums : Result String (SumsResponse String)
sums =
    ok
      (record { status_code = 200; lines = codes "5ca1ab1e *noble.tar.gz" ∷ []; scan_error = none })

abbrev image : Result String (ImageResponse String)
image = ok (record { status_code = 200; body = codes "rootfs"; copy_error = none })

entries-IsEntry : All IsEntry entries
unfolding is_space
entries-IsEntry = ((refl, refl, refl), tt)

run-Stands_example :
    (r : RetryConnection) × (run (requests ∷ requests ∷ resets ∷ []) new_retry_connection ≡ some r)
    × Stands false r
run-Stands_example = run-Stands (requests ∷ requests ∷ resets ∷ [])

abbrev windows_user : Result String WindowsUser
windows_user = ok (record { username = codes "host\\edu"; name = codes "Edu" })

abbrev user_answers : DistroAnswers String
user_answers = record {
  registered = ok true;
  add_user_error = none;
  groups_error = none;
  password_error = none;
  user_id = ok (codes "1000\n");
}

abbrev from_url : InstallCommand
from_url = record {
  id = "Noble";
  cloud_init = "users: []";
  rootfs_url = "https://example.org/noble.tar.gz";
}

abbrev answers : InstallAnswers String (List Task) (List SerializableDistro)
answers = record {
  is_registered = ok false;
  write_faults = record {
    mkdir_error = none;
    write_error = none;
    rename_error = none;
    cleanup_error = none;
  };
  parse_error = none;
  image_name = codes "noble.tar.gz";
  from_url = record {
    mkdir_error = none;
    sums = sums;
    image = image;
    create_error = none;
    vhdx_error = none;
    import_error = some "no disk space";
  };
  from_online = record { install_error = none; launcher = none; cloud_init_error = none };
  db_faults = record { write_error = none; rename_error = none; read_error = none };
  task_faults = record { write_error = none; rename_error = none; read_error = none };
  registry = registered 7;
  registry' = registered 7;
  tasks = record { file = none; file_new = none };
  sleep_error = none;
  default_uid = ok 0;
  windows_user = windows_user;
  user_answers = user_answers;
  set_default_error = λ _. none;
  remove_error = none;
}

abbrev host : Host StoredConfig (List Task) (List SerializableDistro)
host = record {
  config = new_config none;
  database = record {
    distros = [];
    disk = record { file = none; file_new = none };
    stopped = false;
    discarded = [];
  };
  cloud_init = λ _. none;
  notified = [];
  calls = [];
}

install-CleansUp_example :
    Ensures
      (CleansUp from_url answers host)
      (install db_codec task_codec sha256 (some "r1") from_url answers host)
install-CleansUp_example =
    install-CleansUp db_codec task_codec sha256 (some "r1") from_url answers host

abbrev no_faults : Io String StoredConfig
no_faults = record { read_error = none; write_error = none }

abbrev command_answers : CommandAnswers String StoredConfig (List Task) (List SerializableDistro)
command_answers = record {
  uid_io = no_faults;
  set_uid_io = no_faults;
  lock = record { registry = registered 7; state = ok running; touch = none };
  registry = registered 7;
  wsl_error = none;
  remove_error = none;
  installation = answers;
}

abbrev request : Request
request = record { request_id = "r1"; command = installs_distro from_url }

abbrev show : CommandError String → String
show e = "error"

exec-Converses_example :
    Converses show request host
      (acknowledged conf_codec ini db_codec task_codec sha256 request command_answers host)
      (exec conf_codec ini db_codec task_codec sha256 show request command_answers host)
exec-Converses_example =
    exec-Converses conf_codec ini db_codec task_codec sha256 show request command_answers host

abbrev round : Round String
round = record { wake = cooled; connection = ok tt; end = drops false }

run_rounds-IsPaced_example :
    (l : Loop) × (run_rounds (round ∷ round ∷ []) new_loop ≡ some l) × IsPaced l
run_rounds-IsPaced_example = run_rounds-IsPaced (round ∷ round ∷ [])

run_rounds-dropped_example :
    ((r : RetryConnection) × (run_rounds
          (times 3 (dropped {E = String} true))
          (connected_loop 1 new_retry_connection)
        ≡ some (connected_loop (min (2 ^ 3) 600) r)))
    × ((r : RetryConnection) × (run_rounds
            (times 3 (dropped {E = String} false))
            (connected_loop 1 new_retry_connection)
          ≡ some (connected_loop 1 r)))
run_rounds-dropped_example = run_rounds-dropped String 3 false new_retry_connection new-Stands

abbrev shut_down : Request
shut_down = record { request_id = ""; command = shutdown_host }

abbrev host_ini : HostIni String String
host_ini = record {
  parse = λ s. ok s;
  has_section = λ _ _. true;
  sections = λ _. [];
  get_key = λ _ _ doc. some doc;
  delete_section = λ _ doc. doc;
  write = λ doc. ok doc;
}

-- No token is configured, and the connection is open.
abbrev received : Received String StoredConfig (List Task) (List SerializableDistro)
received = record {
  context_done = false;
  received = ok shut_down;
  answers = command_answers;
  info = record {
    subscription_io = no_faults;
    landscape_io = no_faults;
    uid_io = no_faults;
    states = λ _. record { first = ok running; retries = [] };
    default_distro = ok none;
  };
  is_open = true;
  send_error = none;
}

abbrev shut_down_host : Host StoredConfig (List Task) (List SerializableDistro)
shut_down_host = record host { calls = shuts_down ∷ [] }

shut_down-executed :
    exec conf_codec ini db_codec task_codec sha256 show shut_down command_answers host
    ≡ some shut_down_host
unfolding exec acknowledged perform run_call context_of send_progress_status_msg call answered
    report
shut_down-executed = refl

execute_command-Pings_example :
    Pings true none []
      (new_host_agent_info host_ini conf_codec "host" received.info shut_down_host.database.distros
        shut_down_host.config).1
      (execute_command conf_codec ini host_ini db_codec task_codec sha256 show "host" shut_down
        received
        (record { host = host; sent = [] }))
execute_command-Pings_example =
    execute_command-Pings conf_codec ini host_ini db_codec task_codec sha256 show "host" shut_down
      received (record { host = host; sent = [] }) shut_down_host shut_down-executed
