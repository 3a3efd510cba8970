-- ===== src/TaskManager/Examples.antt =====
-- Tests of the task manager and of the YAML round trip, and their theorems at concrete inputs. The
-- codec of the tests keeps the list as it is.
use ubuntu_pro_for_wsl.Prelude.{
  ◌≡◌, ◌++◌, refl, true, false, List, [], ◌∷◌, map, none, some, ok, String,
}
use ubuntu_pro_for_wsl.Storage.{Disk, Faults, replace_file}
use ubuntu_pro_for_wsl.Task.{Task, pro_attachment, landscape_configure, is, is-IsComparator}
use ubuntu_pro_for_wsl.TaskQueue.{
  new_task_queue, contains, push, remove, notify, remove_if, compact, compact_step, swap,
}
use ubuntu_pro_for_wsl.TaskManager.{
  Codec, TaskManager, needs_retry, store, save, submit, submit_all, submit_one, new_task_manager,
}
use ubuntu_pro_for_wsl.TaskManager.Invariant.{queued}
use ubuntu_pro_for_wsl.TaskManager.Overlap.{
  enqueues, resubmit_overlapped, resubmit_overlapped-duplicates, save_overlapped,
  save_overlapped-loses,
}
use ubuntu_pro_for_wsl.TaskManager.Restart.{pulls, ReadsBack, next_task-restart}
use ubuntu_pro_for_wsl.TaskManager.Calls.{
  Call, submits, takes, reports, restarts, Inv, fresh, run, run-Inv,
}
use ubuntu_pro_for_wsl.TaskYaml.{
  Yaml, YamlTaskHelper, RawHelper, IsFaithful, marshal_yaml, unmarshal_yaml,
  unmarshal_yaml-marshal_yaml,
}

abbrev plain : Codec String Task (List Task)
plain = record { marshal = λ ts. ok ts; unmarshal = λ b. ok b }

plain-ReadsBack : ReadsBack plain
plain-ReadsBack ts b h = cc

abbrev no_faults : Faults String (List Task)
no_faults = record { write_error = none; rename_error = none; read_error = none }

abbrev disk_full : Faults String (List Task)
disk_full = record {
  write_error = some ("disk full", none);
  rename_error = none;
  read_error = none;
}

abbrev no_file : Disk (List Task)
no_file = record { file = none; file_new = none }

abbrev attach : Task
attach = pro_attachment "token"

abbrev configure : Task
configure = landscape_configure "[client]"

abbrev idle : TaskManager Task (List Task)
idle = record {
  tasks = record { channel = 0; notified = 0; items = [] };
  deferred_tasks = record { channel = 0; notified = 0; items = configure ∷ [] };
  disk = no_file;
}

next_task-restart_example :
    let (pulled, tm') = pulls 1 (submit is plain no_faults false (attach ∷ []) idle).0 in
    (new_task_manager plain no_faults tm'.disk).0.tasks.items ≡ pulled ++ queued tm'
unfolding submit submit_all submit_one save store replace_file push remove notify remove_if compact
    compact_step swap is
next_task-restart_example =
    next_task-restart plain plain-ReadsBack is no_faults no_faults false (attach ∷ []) 1 idle refl
      refl

-- An equivalent task is deferred while the task is executed, and fails.
abbrev equivalent_deferred : TaskManager Task (List Task)
equivalent_deferred = record {
  tasks = record { channel = 0; notified = 0; items = [] };
  deferred_tasks = record { channel = 0; notified = 0; items = attach ∷ [] };
  disk = no_file;
}

resubmit_overlapped-duplicates_example :
    let after =
      (resubmit_overlapped is plain (enqueues ∷ []) no_faults attach equivalent_deferred).0 in
    (contains is attach after.tasks ≡ true)
    × (contains is attach after.deferred_tasks ≡ true)
    × (contains is attach
          (resubmit_overlapped is plain [] no_faults attach equivalent_deferred).0.tasks
        ≡ false)
unfolding contains is
resubmit_overlapped-duplicates_example =
    resubmit_overlapped-duplicates is plain is-IsComparator no_faults attach equivalent_deferred
      refl refl

save_overlapped-loses_example :
    let (tm', r) = save_overlapped plain (enqueues ∷ []) no_faults equivalent_deferred in
    (r ≡ ok tt) × (tm'.disk.file ≡ some []) × (tm'.tasks.items ≡ attach ∷ [])
save_overlapped-loses_example =
    save_overlapped-loses plain no_faults equivalent_deferred [] refl refl refl

abbrev a_day : List (Faults String (List Task) × Call String Task)
a_day =
    (no_faults, submits false (attach ∷ []))
    ∷ (disk_full, submits true (attach ∷ configure ∷ []))
    ∷ (no_faults, restarts)
    ∷ (no_faults, takes)
    ∷ (no_faults, reports attach (needs_retry "no connection"))
    ∷ []

run-Inv_example : Inv is plain (run is plain a_day (fresh no_file))
unfolding new_task_queue
run-Inv_example =
    run-Inv is is-IsComparator plain plain-ReadsBack a_day (fresh no_file)
      (record { unique = tt; sound = λ b ts f d. cc })

-- The YAML library of the test keeps helpers as nodes.
abbrev as_nodes : List YamlTaskHelper → List (RawHelper Task)
as_nodes hs = map (λ h. record { type_name = h.type_name; node = some h.task }) hs

abbrev payload : Task → String
payload (pro_attachment token) = token
payload (landscape_configure config) = config

abbrev node_yaml : Yaml String (List (RawHelper Task)) Task
node_yaml = record {
  marshal = λ hs. ok (as_nodes hs);
  unmarshal = λ b. ok b;
  decode_pro_attachment = λ n. ok (payload n);
  decode_landscape_configure = λ n. ok (payload n);
}

node_yaml-IsFaithful : IsFaithful node_yaml (λ t. t)
node_yaml-IsFaithful = record {
  reads_back = λ hs b h. cc;
  decodes_pro_attachment = λ token. refl;
  decodes_landscape_configure = λ config. refl;
}

unmarshal_yaml-marshal_yaml_example :
    unmarshal_yaml node_yaml (
      as_nodes (
        record { task = attach; type_name = "tasks.ProAttachment" }
        ∷ record { task = configure; type_name = "tasks.LandscapeConfigure" }
        ∷ []))
    ≡ ok (attach ∷ configure ∷ [])
unfolding marshal_yaml
unmarshal_yaml-marshal_yaml_example =
    unmarshal_yaml-marshal_yaml node_yaml node_yaml-IsFaithful (attach ∷ configure ∷ []) _ refl
