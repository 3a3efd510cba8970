-- ===== src/TaskManager/Overlap.antt =====
-- NextTask and EnqueueDeferredTasks of windows-agent/internal/distros/worker/task_management.go do not take
-- the mutex of the manager, so they may run between two queue operations of
-- submitUnsafe, resubmit and save.
use ubuntu_pro_for_wsl.Prelude.{
  ◌≡◌, ◌∙◌, refl, ap, Bool, true, false, List, [], ◌∷◌, none, some, Result, ok, if◌then◌else◌,
  any-append, append-nil, ◌++◌, arith,
}
use ubuntu_pro_for_wsl.Storage.{Faults, replace_file}
use ubuntu_pro_for_wsl.Task.{IsComparator}
use ubuntu_pro_for_wsl.TaskQueue.{absorb, contains, push, push_if_new, remove, notify}
use ubuntu_pro_for_wsl.TaskManager.{
  Codec, TaskManager, store, save, submit_one, resubmit, next_task, enqueue_deferred_tasks,
}
use ubuntu_pro_for_wsl.TaskManager.Invariant.{save-queues}

-- A method that does not take the mutex.
pub data Unlocked : Type 0 where
  takes enqueues : Unlocked

module _ {A Bytes : Type 0} where
  unfoldable pub run_unlocked : List Unlocked → TaskManager A Bytes → TaskManager A Bytes
  run_unlocked [] tm = tm
  run_unlocked (enqueues ∷ us) tm = run_unlocked us (enqueue_deferred_tasks tm)
  run_unlocked (takes ∷ us) tm = elim (next_task tm) [
    | none ↦ run_unlocked us tm
    | some (t, tm') ↦ run_unlocked us tm'
  ]

module _ {E A Bytes : Type 0} (same : A → A → Bool) (codec : Codec E A Bytes) where
  -- resubmit, with what runs between Contains and PushIfNew.
  unfoldable pub resubmit_overlapped :
      List Unlocked
      → Faults E Bytes
      → A
      → TaskManager A Bytes
      → TaskManager A Bytes × Result E (Unit {0})
  resubmit_overlapped us io t tm =
      let tm' = run_unlocked us tm in
      if contains same t tm.tasks
      then (tm', ok tt)
      else save codec io (record tm' { deferred_tasks = push_if_new same t tm'.deferred_tasks })

  resubmit_overlapped-none :
      (io : Faults E Bytes) (t : A) (tm : TaskManager A Bytes)
      → resubmit_overlapped [] io t tm ≡ resubmit same codec io t tm
  unfolding resubmit_overlapped resubmit run_unlocked
  resubmit_overlapped-none io t tm = refl

  resubmit_overlapped-saves :
      (us : List Unlocked) (io : Faults E Bytes) (t : A) (tm : TaskManager A Bytes)
      → contains same t tm.tasks ≡ false
      → let after = (resubmit_overlapped us io t tm).0 in
        let tm' = run_unlocked us tm in
        (after.tasks ≡ tm'.tasks) × (after.deferred_tasks ≡ push_if_new same t tm'.deferred_tasks)
  unfolding resubmit_overlapped
  resubmit_overlapped-saves us io t tm absent =
      rw (absent, resubmit_overlapped) (save-queues codec io _)

  -- If an equivalent of the task is deferred, and none is queued, then an EnqueueDeferredTasks between
  -- Contains and PushIfNew of resubmit leaves an equivalent in the queue and the task in the deferred
  -- one, whatever the file system does; without it, resubmit leaves none in the queue.
  pub resubmit_overlapped-duplicates :
      (laws : IsComparator same) (io : Faults E Bytes) (t : A) (tm : TaskManager A Bytes)
      → contains same t tm.tasks ≡ false
      → contains same t tm.deferred_tasks ≡ true
      → let after = (resubmit_overlapped (enqueues ∷ []) io t tm).0 in
        (contains same t after.tasks ≡ true)
        × (contains same t after.deferred_tasks ≡ true)
        × (contains same t (resubmit_overlapped [] io t tm).0.tasks ≡ false)
  unfolding run_unlocked enqueue_deferred_tasks absorb contains push_if_new notify
  resubmit_overlapped-duplicates laws io t tm absent there =
      let (q, d) = resubmit_overlapped-saves (enqueues ∷ []) io t tm absent in
      let (q', _) = resubmit_overlapped-saves [] io t tm absent in
      (
        ap (contains same t) q
            ∙ any-append (λ queued. same queued t) tm.tasks.items tm.deferred_tasks.items
            ∙ ground (arith, there),
        ap (contains same t) d ∙ ground (arith, laws.reflexive t),
        ap (contains same t) q' ∙ absent,
      )

module _ {A Bytes : Type 0} (same : A → A → Bool) where
  -- A round of the loop of submitUnsafe, with what runs between Remove and Push.
  unfoldable pub submit_one_overlapped :
      List Unlocked → Bool → A → TaskManager A Bytes → TaskManager A Bytes
  submit_one_overlapped us false t tm =
      let tm' = run_unlocked us (record tm { deferred_tasks = remove same t tm.deferred_tasks }) in
      record tm' { tasks = push same t tm'.tasks }
  submit_one_overlapped us true t tm =
      let tm' = run_unlocked us (record tm { tasks = remove same t tm.tasks }) in
      record tm' { deferred_tasks = push same t tm'.deferred_tasks }

  submit_one_overlapped-none :
      (deferred : Bool) (t : A) (tm : TaskManager A Bytes)
      → submit_one_overlapped [] deferred t tm ≡ submit_one same deferred t tm
  unfolding submit_one_overlapped submit_one run_unlocked
  submit_one_overlapped-none false t tm = refl
  submit_one_overlapped-none true t tm = refl

module _ {E A Bytes : Type 0} (codec : Codec E A Bytes) where
  -- save, with what runs between the two calls of Data.
  unfoldable pub save_overlapped :
      List Unlocked
      → Faults E Bytes
      → TaskManager A Bytes
      → TaskManager A Bytes × Result E (Unit {0})
  save_overlapped us io tm =
      let tm' = run_unlocked us tm in
      store io (codec.marshal (tm.tasks.items ++ tm'.deferred_tasks.items)) tm'

  save_overlapped-none :
      (io : Faults E Bytes) (tm : TaskManager A Bytes) → save_overlapped [] io tm ≡ save codec io tm
  unfolding save_overlapped save run_unlocked
  save_overlapped-none io tm = refl

  -- If an EnqueueDeferredTasks runs between the two reads of save, and the file can be written, then the
  -- manager queues all its tasks still, but the file holds just those that were not deferred, and save
  -- returns no error.
  pub save_overlapped-loses :
      (io : Faults E Bytes) (tm : TaskManager A Bytes) (b : Bytes)
      → io.write_error ≡ none
      → io.rename_error ≡ none
      → codec.marshal tm.tasks.items ≡ ok b
      → let (tm', r) = save_overlapped (enqueues ∷ []) io tm in
        (r ≡ ok tt)
        × (tm'.disk.file ≡ some b)
        × (tm'.tasks.items ≡ tm.tasks.items ++ tm.deferred_tasks.items)
  unfolding save_overlapped run_unlocked enqueue_deferred_tasks absorb store replace_file
  save_overlapped-loses io tm b w n m = rw (append-nil tm.tasks.items) (rw m (ground (arith, w, n)))
