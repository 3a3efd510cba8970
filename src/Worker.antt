-- ===== src/Worker.antt =====
-- windows-agent/internal/distros/worker/worker.go, as far as it is about the worker alone: its
-- connection and the submission of tasks. Connections are numbered; Close is recorded.
use ubuntu_pro_for_wsl.Prelude.{
  ℕ, Bool, true, false, List, [], ◌∷◌, Option, none, some, Result, ok, err,
}
use ubuntu_pro_for_wsl.Storage.{Disk, Faults}
use ubuntu_pro_for_wsl.Task.{Task, is, TaskError}
use ubuntu_pro_for_wsl.TaskManager.{
  Codec, TaskManager, submit, new_task_manager, enqueue_deferred_tasks,
}

pub record Worker (Bytes : Type 0) : Type 0 where
  pub manager : TaskManager Task Bytes
  pub conn : Option ℕ
  pub closed : List ℕ

-- What processSingleTask returns besides nil. The first three are unreachableDistroErrors: the
-- distro is marked as invalid, LockAwake failed, or no client connected in time. The others are the
-- error of a cancelled wait and that of the task's Execute.
pub data WorkError (D E : Type 0) : Type 0 where
  marked_invalid : WorkError D E
  no_lock : D → WorkError D E
  no_client : WorkError D E
  cancelled : WorkError D E
  from_task : TaskError E → WorkError D E

-- errors.As with an unreachableDistroError for its target.
unfoldable pub is_unreachable : {D E : Type 0} → WorkError D E → Bool
is_unreachable marked_invalid = true
is_unreachable (no_lock e) = true
is_unreachable no_client = true
is_unreachable cancelled = false
is_unreachable (from_task e) = false

-- How the select of waitForClient ends if no tick finds a client.
pub data Ending : Type 0 where
  context_done timed_out : Ending

close_conn : Option ℕ → List ℕ → List ℕ
close_conn none closed = closed
close_conn (some c) closed = c ∷ closed

module _ {Bytes : Type 0} where
  unfoldable pub is_active : Worker Bytes → Bool
  is_active w = elim w.conn [ none ↦ false | some _ ↦ true ]

  unfoldable pub set_connection : Option ℕ → Worker Bytes → Worker Bytes
  unfolding close_conn
  set_connection conn w = record w { conn = conn; closed = close_conn w.conn w.closed }

  -- Stop, once the goroutine has ended.
  unfoldable pub stop : Worker Bytes → Worker Bytes
  unfolding set_connection
  stop w = set_connection none w

  unfoldable pub enqueue_deferred : Worker Bytes → Worker Bytes
  enqueue_deferred w = record w { manager = enqueue_deferred_tasks w.manager }

module _ {E Bytes : Type 0} (codec : Codec E Task Bytes) (io : Faults E Bytes) where
  -- New, before the goroutine starts; `err` if the task manager could not be made.
  unfoldable pub new_worker : Disk Bytes → Result E (Worker Bytes)
  new_worker d =
      let (tm, r) = new_task_manager codec io d in
      elim r [ err e ↦ err e | ok _ ↦ ok (record { manager = tm; conn = none; closed = [] }) ]

  unfoldable pub submit_to : Bool → List Task → Worker Bytes → Worker Bytes × Result E (Unit {0})
  submit_to deferred [] w = (w, ok tt)
  submit_to deferred (t ∷ ts) w =
      let (tm, r) = submit is codec io deferred (t ∷ ts) w.manager in (record w { manager = tm }, r)

  unfoldable pub submit_tasks : List Task → Worker Bytes → Worker Bytes × Result E (Unit {0})
  unfolding submit_to
  submit_tasks ts w = submit_to false ts w

  unfoldable pub submit_deferred_tasks :
      List Task → Worker Bytes → Worker Bytes × Result E (Unit {0})
  unfolding submit_to
  submit_deferred_tasks ts w = submit_to true ts w

-- The connection that each tick finds, until one finds a client or the wait ends.
unfoldable pub wait_for_client :
    {D E : Type 0} → List (Option ℕ) → Ending → Result (WorkError D E) ℕ
wait_for_client [] context_done = err cancelled
wait_for_client [] timed_out = err no_client
wait_for_client (none ∷ ticks) end = wait_for_client ticks end
wait_for_client (some conn ∷ ticks) end = ok conn
