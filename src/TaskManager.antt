-- ===== src/TaskManager.antt =====
-- windows-agent/internal/distros/worker/task_management.go: the two queues of a worker and their
-- storage. The codec is task.MarshalYAML and task.UnmarshalYAML. What the file system does in a
-- call is an argument of it. Each method is one function from state to state, as it is when it does not
-- overlap with another. The mutex sees to that, but NextTask and EnqueueDeferredTasks do not take it:
-- TaskManager.Overlap has what they may do to resubmit.
pub mod Invariant
pub mod Restart
pub mod Calls
pub mod Overlap
mod Examples
use ubuntu_pro_for_wsl.Prelude.{
  ℕ, ◌+◌, Bool, true, false, List, [], ◌∷◌, ◌++◌, Option, none, some, Result, ok, err, length,
  if◌then◌else◌, map_err,
}
use ubuntu_pro_for_wsl.TaskQueue.{
  TaskQueue, new_task_queue, load, absorb, try_pop_front, push, contains, push_if_new, remove,
}
use ubuntu_pro_for_wsl.Storage.{Disk, Faults, replace_file}

pub record Codec (E A Bytes : Type 0) : Type 0 where
  pub marshal : List A → Result E Bytes
  pub unmarshal : Bytes → Result E (List A)

pub record TaskManager (A Bytes : Type 0) : Type 0 where
  pub tasks : TaskQueue A
  pub deferred_tasks : TaskQueue A
  pub disk : Disk Bytes

-- The outcome of a task: a nil error, a NeedsRetryError, or another error.
pub data TaskResult (E : Type 0) : Type 0 where
  succeeded : TaskResult E
  needs_retry : E → TaskResult E
  failed : E → TaskResult E

module _ {A Bytes : Type 0} where
  unfoldable pub queue_len : TaskManager A Bytes → ℕ
  queue_len tm = length tm.tasks.items

  unfoldable pub task_len : TaskManager A Bytes → ℕ
  task_len tm = length tm.tasks.items + length tm.deferred_tasks.items

  -- A Pull that does not block.
  unfoldable pub next_task : TaskManager A Bytes → Option (A × TaskManager A Bytes)
  next_task tm = elim (try_pop_front tm.tasks) [
    | none ↦ none
    | some (t, q) ↦ some (t, record tm { tasks = q })
  ]

  unfoldable pub enqueue_deferred_tasks : TaskManager A Bytes → TaskManager A Bytes
  enqueue_deferred_tasks tm =
      let (q, other) = absorb tm.tasks tm.deferred_tasks in
      record tm { tasks = q; deferred_tasks = other }

module _ {E A Bytes : Type 0} where
  unfoldable pub store :
      Faults E Bytes
      → Result E Bytes
      → TaskManager A Bytes
      → TaskManager A Bytes × Result E (Unit {0})
  store io (err e) tm = (tm, err e)
  store io (ok out) tm = let (d, r) = replace_file io out tm.disk in (record tm { disk = d }, r)

  unfoldable pub save :
      Codec E A Bytes
      → Faults E Bytes
      → TaskManager A Bytes
      → TaskManager A Bytes × Result E (Unit {0})
  unfolding store
  save codec io tm = store io (codec.marshal (tm.tasks.items ++ tm.deferred_tasks.items)) tm

  unfoldable pub load_bytes :
      Result E (List A) → TaskManager A Bytes → TaskManager A Bytes × Result E (Unit {0})
  load_bytes (err e) tm = (tm, err e)
  load_bytes (ok ts) tm = (record tm { tasks = load ts tm.tasks }, ok tt)

  unfoldable pub load_tasks :
      Codec E A Bytes
      → Faults E Bytes
      → TaskManager A Bytes
      → TaskManager A Bytes × Result E (Unit {0})
  unfolding load_bytes
  load_tasks codec io tm = elim tm.disk.file [
    | none ↦ (tm, ok tt)
    | some out ↦ elim io.read_error [
      | some e ↦ (tm, err e)
      | none ↦ load_bytes (codec.unmarshal out) tm
    ]
  ]

  unfoldable pub new_task_manager :
      Codec E A Bytes → Faults E Bytes → Disk Bytes → TaskManager A Bytes × Result E (Unit {0})
  new_task_manager codec io d =
      load_tasks codec io
        (record { tasks = new_task_queue; deferred_tasks = new_task_queue; disk = d })

  unfoldable pub finish :
      TaskResult E
      → TaskManager A Bytes × Result E (Unit {0})
      → TaskManager A Bytes × Result E (Unit {0})
  finish (failed e) (tm, ok _) = (tm, err e)
  finish result (tm, r) = (tm, r)

module _ {A Bytes : Type 0} (same : A → A → Bool) where
  -- One round of the loop of submitUnsafe, with `deferred` to choose thisQueue and otherQueue.
  unfoldable pub submit_one : Bool → A → TaskManager A Bytes → TaskManager A Bytes
  submit_one false t tm = record tm {
    tasks = push same t tm.tasks;
    deferred_tasks = remove same t tm.deferred_tasks;
  }
  submit_one true t tm = record tm {
    tasks = remove same t tm.tasks;
    deferred_tasks = push same t tm.deferred_tasks;
  }

  unfoldable pub submit_all : Bool → List A → TaskManager A Bytes → TaskManager A Bytes
  submit_all deferred [] tm = tm
  submit_all deferred (t ∷ ts) tm = submit_all deferred ts (submit_one deferred t tm)

module _ {E A Bytes : Type 0} (same : A → A → Bool) where
  unfoldable pub submit :
      Codec E A Bytes
      → Faults E Bytes
      → Bool
      → List A
      → TaskManager A Bytes
      → TaskManager A Bytes × Result E (Unit {0})
  submit codec io deferred ts tm = save codec io (submit_all same deferred ts tm)

  unfoldable pub resubmit :
      Codec E A Bytes
      → Faults E Bytes
      → A
      → TaskManager A Bytes
      → TaskManager A Bytes × Result E (Unit {0})
  resubmit codec io t tm =
      if contains same t tm.tasks
      then (tm, ok tt)
      else save codec io (record tm { deferred_tasks = push_if_new same t tm.deferred_tasks })

  unfoldable pub task_done :
      Codec E A Bytes
      → Faults E Bytes
      → A
      → TaskResult E
      → TaskManager A Bytes
      → TaskManager A Bytes × Result E (Unit {0})
  unfolding finish
  task_done codec io t (needs_retry e) tm = resubmit codec io t tm
  task_done codec io t succeeded tm = finish succeeded (save codec io tm)
  task_done codec io t (failed e) tm = finish (failed e) (save codec io tm)
