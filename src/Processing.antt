-- ===== src/Processing.antt =====
-- The task loop of windows-agent/internal/distros/worker/worker.go, over the distro whose worker it
-- is: processTasks, processSingleTask and waitForActiveConnection. What the environment answers in
-- one round is an argument.
pub mod Triples
pub mod Rounds
pub mod Examples
use ubuntu_pro_for_wsl.Prelude.{
  ℕ, zero, suc, ◌+◌, Bool, true, false, List, [], ◌∷◌, Option, none, some, Result, ok, err,
  if◌then◌else◌,
}
use ubuntu_pro_for_wsl.Storage.{Faults}
use ubuntu_pro_for_wsl.Task.{Task, is, Connection, TaskError, execute, needs_retry}
use ubuntu_pro_for_wsl.TaskManager
use ubuntu_pro_for_wsl.TaskManager.{Codec, TaskManager, TaskResult, next_task, task_done}
use ubuntu_pro_for_wsl.Worker.{
  WorkError, marked_invalid, no_lock, no_client, cancelled, from_task, is_unreachable, Ending,
  wait_for_client,
}
use ubuntu_pro_for_wsl.Distro.{
  Distro, RegistryAnswer, Answers, DistroError, M, ◌>>=◌, return, invalidate, is_valid, lock_awake,
  release_awake,
}

-- One round of waitForActiveConnection.
pub record Attempt (E : Type 0) : Type 0 where
  pub locking : Answers E
  pub ticks : List (Option ℕ)
  pub ending : Ending
  pub releasing : RegistryAnswer

-- What the environment answers while one task is processed.
pub record Surroundings (E : Type 0) : Type 0 where
  pub entry : RegistryAnswer
  pub locking : Answers E
  pub attempts : ℕ → Attempt E
  pub connections : ℕ → Connection E
  pub releasing : RegistryAnswer
  pub stopped : E

abbrev pub Failure : Type 0 → Type 0
Failure E = WorkError (DistroError E) E

executed : {E : Type 0} → Result (TaskError E) (Unit {0}) → Option (Failure E)
executed (ok _) = none
executed (err e) = some (from_task e)

run_task : {E : Type 0} → (ℕ → Connection E) → Task → Result (Failure E) ℕ → Option (Failure E)
unfolding executed
run_task connections t (err e) = some e
run_task connections t (ok conn) = executed (execute t (connections conn))

-- The deferred ReleaseAwake, whose error is dropped.
release_then : {Bytes A : Type 0} (E : Type 0) → RegistryAnswer → A → M Bytes A
release_then E answer a = release_awake {E = E} answer >>= λ _. return a

module _ {E Bytes : Type 0} where
  -- The function that waitForActiveConnection calls: nothing is released if the lock failed.
  after_lock : Attempt E → Result (DistroError E) (Unit {0}) → M Bytes (Result (Failure E) ℕ)
  unfolding release_then
  after_lock a (err e) = return (err (no_lock e))
  after_lock a (ok _) = release_then E a.releasing (wait_for_client a.ticks a.ending)

  attempt : Attempt E → M Bytes (Result (Failure E) ℕ)
  unfolding after_lock
  attempt a = lock_awake a.locking >>= after_lock a

  -- `for range 5`, with the rounds left, the number of the next round and the last result; a client
  -- ends the loop.
  wait_rounds : (ℕ → Attempt E) → ℕ → ℕ → Result (Failure E) ℕ → M Bytes (Result (Failure E) ℕ)
  wait_rounds attempts zero i last = return last
  wait_rounds attempts (suc rounds) i (ok conn) = return (ok conn)
  wait_rounds attempts (suc rounds) i (err e) =
      attempt (attempts i) >>= wait_rounds attempts rounds (i + 1)

  -- There are five rounds, so the result that the loop starts from is never returned.
  unfoldable pub wait_for_active_connection : (ℕ → Attempt E) → M Bytes (Result (Failure E) ℕ)
  unfolding attempt wait_rounds
  wait_for_active_connection attempts = wait_rounds attempts 5 0 (err cancelled)

  locked : Surroundings E → Task → Result (DistroError E) (Unit {0}) → M Bytes (Option (Failure E))
  unfolding release_then run_task
  locked env t (err e) = return (some (no_lock e))
  locked env t (ok _) = wait_for_active_connection env.attempts >>= λ conn.
      release_then E env.releasing (run_task env.connections t conn)

  when_valid : Surroundings E → Task → Bool → M Bytes (Option (Failure E))
  unfolding locked
  when_valid env t false = return (some marked_invalid)
  when_valid env t true = lock_awake env.locking >>= locked env t

  -- processSingleTask: `none` is a nil error. ReleaseAwake runs last, as it is deferred.
  unfoldable pub process_single_task : Surroundings E → Task → M Bytes (Option (Failure E))
  unfolding when_valid
  process_single_task env t = is_valid env.entry >>= when_valid env t

-- What TaskDone finds in the error by errors.As.
task_result : {E : Type 0} → E → Option (Failure E) → TaskResult E
task_result stopped none = TaskManager.succeeded
task_result stopped (some (from_task (needs_retry e))) = TaskManager.needs_retry e
task_result stopped (some _) = TaskManager.failed stopped

module _ {E Bytes : Type 0} (codec : Codec E Task Bytes) (io : Faults E Bytes) where
  set_manager : TaskManager Task Bytes → Distro Bytes → Distro Bytes
  set_manager tm d = record d { worker = record (d.worker) { manager = tm } }

  report : Task → TaskResult E → M Bytes (Unit {0})
  unfolding set_manager
  report t r d = some (tt, set_manager (task_done is codec io t r d.worker.manager).0 d)

  -- The rest of a round of processTasks; an error of TaskDone is only logged.
  conclude : E → Task → Option (Failure E) → M Bytes (Unit {0})
  unfolding report task_result
  conclude stopped t none = report t (task_result stopped none)
  conclude stopped t (some e) =
      if is_unreachable e then invalidate else report t (task_result stopped (some e))

  process_pulled : Surroundings E → Option (Task × TaskManager Task Bytes) → M Bytes (Unit {0})
  unfolding conclude set_manager
  process_pulled env none d = some (tt, d)
  process_pulled env (some (t, tm)) d =
      (process_single_task env t >>= conclude env.stopped t) (set_manager tm d)

  -- One round of processTasks, if a task is queued; with none, NextTask blocks.
  unfoldable pub process_next : Surroundings E → M Bytes (Unit {0})
  unfolding process_pulled
  process_next env d = process_pulled env (next_task d.worker.manager) d
