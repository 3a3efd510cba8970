-- ===== src/TaskManager/Calls.antt =====
-- Every sequence of calls, no two of which overlap, of windows-agent/internal/distros/worker/task_management.go, restarts of
-- the agent among them, with any faults of the file system.
use ubuntu_pro_for_wsl.Prelude.{
  ◌≡◌, refl, sym, subst, ◌∙◌, inl, inr, Bool, true, false, List, [], ◌∷◌, Option, none, some, arith,
  Result-cases, Option-cases, append-nil, Bool-cases,
}
use ubuntu_pro_for_wsl.Storage.{Disk, Faults}
use ubuntu_pro_for_wsl.Task.{IsComparator}
use ubuntu_pro_for_wsl.TaskQueue.{new_task_queue, load, try_pop_front, contains}
use ubuntu_pro_for_wsl.TaskQueue.Unique.{IsUnique}
use ubuntu_pro_for_wsl.TaskManager.{
  Codec, TaskManager, TaskResult, succeeded, needs_retry, failed, store, save, load_bytes,
  load_tasks, new_task_manager, next_task, submit_one, submit_all, submit, resubmit, task_done,
  enqueue_deferred_tasks,
}
use ubuntu_pro_for_wsl.TaskManager.Invariant.{
  queued, store-queues, submit_all-IsUnique, push_deferred-IsUnique, next_task-IsUnique,
  queued-enqueue_deferred_tasks, finish-state,
}
use ubuntu_pro_for_wsl.TaskManager.Restart.{ReadsBack, IsSound, store-file}

pub data Call (E A : Type 0) : Type 0 where
  submits : Bool → List A → Call E A
  takes : Call E A
  reports : A → TaskResult E → Call E A
  enqueues : Call E A
  restarts : Call E A

module _ {E A Bytes : Type 0} (same : A → A → Bool) (codec : Codec E A Bytes) where
  after_take : TaskManager A Bytes → Option (A × TaskManager A Bytes) → TaskManager A Bytes
  after_take tm none = tm
  after_take tm (some (t, tm')) = tm'

  unfoldable pub step : Faults E Bytes → Call E A → TaskManager A Bytes → TaskManager A Bytes
  unfolding after_take
  step io (submits deferred ts) tm = (submit same codec io deferred ts tm).0
  step io takes tm = after_take tm (next_task tm)
  step io (reports t r) tm = (task_done same codec io t r tm).0
  step io enqueues tm = enqueue_deferred_tasks tm
  step io restarts tm = (new_task_manager codec io tm.disk).0

  unfoldable pub run : List (Faults E Bytes × Call E A) → TaskManager A Bytes → TaskManager A Bytes
  run [] tm = tm
  run ((io, c) ∷ cs) tm = run cs (step io c tm)

abbrev pub fresh : {A Bytes : Type 0} → Disk Bytes → TaskManager A Bytes
fresh d = record { tasks = new_task_queue; deferred_tasks = new_task_queue; disk = d }

module _ {E A Bytes : Type 0} (same : A → A → Bool) (codec : Codec E A Bytes) where
  pub record Inv (tm : TaskManager A Bytes) : Type 0 where
    pub unique : IsUnique same (queued tm)
    pub sound : IsSound codec same tm.disk

module _ {A Bytes : Type 0} where
  submit_all-disk :
      (same : A → A → Bool) (deferred : Bool) (ts : List A) (tm : TaskManager A Bytes)
      → (submit_all same deferred ts tm).disk ≡ tm.disk
  unfolding submit_all submit_one
  submit_all-disk same deferred [] tm = refl
  submit_all-disk same false (t ∷ ts) tm = submit_all-disk same false ts _
  submit_all-disk same true (t ∷ ts) tm = submit_all-disk same true ts _

  enqueue_deferred_tasks-disk :
      (tm : TaskManager A Bytes) → (enqueue_deferred_tasks tm).disk ≡ tm.disk
  unfolding enqueue_deferred_tasks
  enqueue_deferred_tasks-disk tm = refl

  next_task-disk :
      (tm tm' : TaskManager A Bytes) (t : A) → next_task tm ≡ some (t, tm') → tm'.disk ≡ tm.disk
  unfolding next_task try_pop_front
  next_task-disk tm tm' t e = ground arith

module _ {E A Bytes : Type 0} (same : A → A → Bool) (codec : Codec E A Bytes)
    (reads_back : ReadsBack codec) where
  -- A save of queues without duplicates leaves a sound file.
  store-IsSound :
      (io : Faults E Bytes) (tm : TaskManager A Bytes) (ts : List A)
      → IsUnique same ts
      → IsSound codec same tm.disk
      → IsSound codec same (store io (codec.marshal ts) tm).0.disk
  store-IsSound io tm ts u s b us f d = elim (store-file io (codec.marshal ts) tm) [
    | inl e ↦ s b us (sym e ∙ f) d
    | inr (b', m, e) ↦ subst (IsUnique same) (cc (reads_back ts b' m)) u
  ]

  save-Inv :
      (io : Faults E Bytes) (tm : TaskManager A Bytes)
      → Inv same codec tm
      → Inv same codec (save codec io tm).0
  unfolding save
  save-Inv io tm v = record {
    unique = rw ((store-queues io _ tm).0, (store-queues io _ tm).1) v.unique;
    sound = store-IsSound io tm (queued tm) v.unique v.sound;
  }

  new_task_manager-disk :
      (io : Faults E Bytes) (d : Disk Bytes) → (new_task_manager codec io d).0.disk ≡ d
  unfolding new_task_manager load_tasks load_bytes
  new_task_manager-disk io d = ground arith

  restart-IsUnique :
      (io : Faults E Bytes) (d : Disk Bytes)
      → IsSound codec same d
      → IsUnique same (queued (new_task_manager codec io d).0)
  unfolding new_task_manager load_tasks load_bytes load new_task_queue
  restart-IsUnique io d s = elim (Option-cases d.file) [
    | inl absent ↦ ground arith
    | inr (b, f) ↦ elim (Result-cases (codec.unmarshal b)) [
      | inl (ts, u) ↦ ground (arith, s b ts f u, append-nil ts)
      | inr (x, u) ↦ ground arith
    ]
  ]

module _ {E A Bytes : Type 0} (same : A → A → Bool) (laws : IsComparator same)
    (codec : Codec E A Bytes) (reads_back : ReadsBack codec) where
  resubmit-Inv :
      (io : Faults E Bytes) (t : A) (tm : TaskManager A Bytes)
      → Inv same codec tm
      → Inv same codec (resubmit same codec io t tm).0
  unfolding resubmit
  resubmit-Inv io t tm v = elim (Bool-cases (contains same t tm.tasks)) [
    | inl there ↦ rw there v
    | inr absent ↦ rw absent (
        save-Inv same codec reads_back io _ (record {
          unique = push_deferred-IsUnique same laws t tm v.unique absent;
          sound = v.sound;
        }))
  ]

  step-Inv :
      (io : Faults E Bytes) (c : Call E A) (tm : TaskManager A Bytes)
      → Inv same codec tm
      → Inv same codec (step same codec io c tm)
  unfolding step submit task_done
  step-Inv io (submits deferred ts) tm v = save-Inv same codec reads_back io _ (record {
    unique = submit_all-IsUnique same laws deferred ts tm v.unique;
    sound = rw (submit_all-disk same deferred ts tm) v.sound;
  })
  step-Inv io takes tm v = elim (Option-cases (next_task tm)) [
    | inl idle ↦ rw (idle, step) v
    | inr ((t, tm'), e) ↦
        rw (e, step)
          (record {
            unique = next_task-IsUnique same tm t tm' e v.unique;
            sound = rw (next_task-disk tm tm' t e) v.sound;
          })
  ]
  step-Inv io (reports t (needs_retry e)) tm v = resubmit-Inv io t tm v
  step-Inv io (reports t succeeded) tm v = rw finish-state (save-Inv same codec reads_back io tm v)
  step-Inv io (reports t (failed e)) tm v = rw finish-state (save-Inv same codec reads_back io tm v)
  step-Inv io enqueues tm v = record {
    unique = rw (queued-enqueue_deferred_tasks same tm).0 v.unique;
    sound = rw (enqueue_deferred_tasks-disk tm) v.sound;
  }
  step-Inv io restarts tm v = record {
    unique = restart-IsUnique same codec reads_back io tm.disk v.sound;
    sound = rw (new_task_manager-disk same codec reads_back io tm.disk) v.sound;
  }

  -- From a manager that queues no two equivalent tasks, and whose file, if it is read at all, is
  -- read as tasks without duplicates: after every sequence of submissions, pulls, reports of outcomes, promotions and
  -- restarts, which do not overlap, each with any faults of the file system, no two equivalent tasks are queued, and the
  -- same holds of the file. The codec is assumed to read back what it wrote.
  pub run-Inv :
      (cs : List (Faults E Bytes × Call E A)) (tm : TaskManager A Bytes)
      → Inv same codec tm
      → Inv same codec (run same codec cs tm)
  unfolding run
  run-Inv [] tm v = v
  run-Inv ((io, c) ∷ cs) tm v = run-Inv cs _ (step-Inv io c tm v)
