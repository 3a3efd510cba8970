-- ===== src/TaskManager/Invariant.antt =====
-- The queues of windows-agent/internal/distros/worker/task_management.go never hold two equivalent
-- tasks, neither in one queue nor one in each.
use ubuntu_pro_for_wsl.Prelude.{
  ◌≡◌, refl, Bool, true, false, List, [], ◌∷◌, ◌++◌, some, arith, Result, ok, err, any, any-append,
  any-reject, reject, reject-append, Bool-cases, inl, inr, append_assoc, append-nil,
}
use ubuntu_pro_for_wsl.Storage.{Faults}
use ubuntu_pro_for_wsl.Task.{IsComparator}
use ubuntu_pro_for_wsl.TaskQueue.{contains, push_if_new, absorb, try_pop_front}
use ubuntu_pro_for_wsl.TaskQueue.Unique.{
  IsUnique, snoc-IsUnique, reject-IsUnique, push-items, push_if_new-items, remove_lem, contains_lem,
}
use ubuntu_pro_for_wsl.TaskManager.{
  Codec, store, finish, TaskManager, TaskResult, succeeded, needs_retry, failed, save, next_task,
  enqueue_deferred_tasks, submit_one, submit_all, submit, resubmit, task_done,
}

-- Every task that is queued, in the order in which it is saved.
abbrev pub queued : {A Bytes : Type 0} → TaskManager A Bytes → List A
queued tm = tm.tasks.items ++ tm.deferred_tasks.items

module _ {E A Bytes : Type 0} where
  pub finish-state :
      (r : TaskResult E) (s : TaskManager A Bytes × Result E (Unit {0})) → (finish r s).0 ≡ s.0
  unfolding finish
  finish-state (failed e) (tm, ok _) = refl
  finish-state (failed e) (tm, err _) = refl
  finish-state succeeded s = refl
  finish-state (needs_retry e) s = refl

  pub store-queues :
      (io : Faults E Bytes) (r : Result E Bytes) (tm : TaskManager A Bytes)
      → ((store io r tm).0.tasks ≡ tm.tasks)
        × ((store io r tm).0.deferred_tasks ≡ tm.deferred_tasks)
  unfolding store
  store-queues io (ok out) tm = (refl, refl)
  store-queues io (err e) tm = (refl, refl)

module _ {E A Bytes : Type 0} (codec : Codec E A Bytes) (io : Faults E Bytes) where
  -- Saving leaves both queues as they are.
  pub save-queues :
      (tm : TaskManager A Bytes)
      → ((save codec io tm).0.tasks ≡ tm.tasks)
        × ((save codec io tm).0.deferred_tasks ≡ tm.deferred_tasks)
  unfolding save
  save-queues tm = store-queues io _ tm

module _ {A : Type 0} (same : A → A → Bool) (laws : IsComparator same) where
  -- A new entry may stand anywhere.
  insert-IsUnique :
      (t : A) (xs ys : List A)
      → IsUnique same (xs ++ ys)
      → any (λ y. same t y) (xs ++ ys) ≡ false
      → IsUnique same ((xs ++ t ∷ []) ++ ys)
  insert-IsUnique t [] ys u h = (h, u)
  insert-IsUnique t (x ∷ xs) ys u h = ground (
    arith,
    any-append (λ y. same x y) (xs ++ t ∷ []) ys,
    any-append (λ y. same x y) xs (t ∷ []),
    any-append (λ y. same x y) xs ys,
    laws.symmetric x t,
    insert-IsUnique t xs ys u.1,
  )

module _ {A Bytes : Type 0} (same : A → A → Bool) (laws : IsComparator same) where
  -- What one round of a submission leaves in the two queues.
  submit_one-tasks :
      (t : A) (tm : TaskManager A Bytes)
      → ((submit_one same false t tm).tasks.items ≡ reject (λ y. same t y) tm.tasks.items ++ t ∷ [])
        × ((submit_one same true t tm).tasks.items ≡ reject (λ y. same t y) tm.tasks.items)
  unfolding submit_one
  submit_one-tasks t tm = (push-items same laws t tm.tasks, remove_lem same laws t tm.tasks)

  submit_one-deferred_tasks :
      (t : A) (tm : TaskManager A Bytes)
      → ((submit_one same true t tm).deferred_tasks.items
          ≡ reject (λ y. same t y) tm.deferred_tasks.items ++ t ∷ [])
        × ((submit_one same false t tm).deferred_tasks.items
            ≡ reject (λ y. same t y) tm.deferred_tasks.items)
  unfolding submit_one
  submit_one-deferred_tasks t tm =
      (push-items same laws t tm.deferred_tasks, remove_lem same laws t tm.deferred_tasks)

  pub submit_one-IsUnique :
      (deferred : Bool) (t : A) (tm : TaskManager A Bytes)
      → IsUnique same (queued tm)
      → IsUnique same (queued (submit_one same deferred t tm))
  submit_one-IsUnique deferred t tm u = go deferred
    where
      p : A → Bool
      p y = same t y

      kept : IsUnique same (reject p tm.tasks.items ++ reject p tm.deferred_tasks.items)
      kept = rw (← reject-append) (reject-IsUnique same p (queued tm) u)

      fresh : any p (reject p tm.tasks.items ++ reject p tm.deferred_tasks.items) ≡ false
      fresh = rw (← reject-append) (any-reject p (queued tm))

      go : (deferred : Bool) → IsUnique same (queued (submit_one same deferred t tm))
      go false =
          rw ((submit_one-tasks t tm).0, (submit_one-deferred_tasks t tm).1)
            (insert-IsUnique same laws t _ _ kept fresh)
      go true =
          rw ((submit_one-tasks t tm).1, (submit_one-deferred_tasks t tm).0)
            (rw (← append_assoc) (snoc-IsUnique same laws t _ kept fresh))

  pub submit_all-IsUnique :
      (deferred : Bool) (ts : List A) (tm : TaskManager A Bytes)
      → IsUnique same (queued tm)
      → IsUnique same (queued (submit_all same deferred ts tm))
  unfolding submit_all
  submit_all-IsUnique deferred [] tm u = u
  submit_all-IsUnique deferred (t ∷ ts) tm u =
      submit_all-IsUnique deferred ts _ (submit_one-IsUnique deferred t tm u)

  pub push_deferred-IsUnique :
      (t : A) (tm : TaskManager A Bytes)
      → IsUnique same (queued tm)
      → contains same t tm.tasks ≡ false
      → IsUnique same (tm.tasks.items ++ (push_if_new same t tm.deferred_tasks).items)
  push_deferred-IsUnique t tm u absent =
      elim (Bool-cases (any (λ y. same t y) tm.deferred_tasks.items)) [
        | inl old ↦ rw (push_if_new-items same laws t tm.deferred_tasks, old) u
        | inr new ↦
            rw (push_if_new-items same laws t tm.deferred_tasks, new, ← append_assoc)
              (snoc-IsUnique same laws t (queued tm) u
                (rw any-append (ground (arith, contains_lem same laws t tm.tasks, absent, new))))
      ]

module _ {E A Bytes : Type 0} (same : A → A → Bool) (laws : IsComparator same)
    (codec : Codec E A Bytes) (io : Faults E Bytes) where
  save-IsUnique :
      (tm : TaskManager A Bytes)
      → IsUnique same (queued tm)
      → IsUnique same (queued (save codec io tm).0)
  save-IsUnique tm u = rw ((save-queues codec io tm).0, (save-queues codec io tm).1) u

  -- Submitting tasks, deferred or not, never leaves two equivalent tasks queued, be it in one
  -- queue or one in each, whether or not the save fails.
  pub submit-IsUnique :
      (deferred : Bool) (ts : List A) (tm : TaskManager A Bytes)
      → IsUnique same (queued tm)
      → IsUnique same (queued (submit same codec io deferred ts tm).0)
  unfolding submit
  submit-IsUnique deferred ts tm u =
      save-IsUnique _ (submit_all-IsUnique same laws deferred ts tm u)

  -- A resubmitted task never joins an equivalent one.
  pub resubmit-IsUnique :
      (t : A) (tm : TaskManager A Bytes)
      → IsUnique same (queued tm)
      → IsUnique same (queued (resubmit same codec io t tm).0)
  unfolding resubmit
  resubmit-IsUnique t tm u = elim (Bool-cases (contains same t tm.tasks)) [
    | inl there ↦ rw there u
    | inr absent ↦ rw absent (save-IsUnique _ (push_deferred-IsUnique same laws t tm u absent))
  ]

  -- Whatever the outcome of a task, and whatever goes wrong when the queues are saved, no two
  -- equivalent tasks are queued afterwards.
  pub task_done-IsUnique :
      (t : A) (r : TaskResult E) (tm : TaskManager A Bytes)
      → IsUnique same (queued tm)
      → IsUnique same (queued (task_done same codec io t r tm).0)
  unfolding task_done
  task_done-IsUnique t (needs_retry e) tm u = resubmit-IsUnique t tm u
  task_done-IsUnique t succeeded tm u =
      rw (finish-state succeeded (save codec io tm)) (save-IsUnique tm u)
  task_done-IsUnique t (failed e) tm u =
      rw (finish-state (failed e) (save codec io tm)) (save-IsUnique tm u)

module _ {A Bytes : Type 0} (same : A → A → Bool) where
  -- Promoting the deferred tasks keeps every task, and the order in which they are saved.
  pub queued-enqueue_deferred_tasks :
      (tm : TaskManager A Bytes)
      → (queued (enqueue_deferred_tasks tm) ≡ queued tm)
        × ((enqueue_deferred_tasks tm).deferred_tasks.items ≡ [])
  unfolding enqueue_deferred_tasks absorb
  queued-enqueue_deferred_tasks tm = (append-nil _, refl)

  pub next_task-IsUnique :
      (tm : TaskManager A Bytes) (t : A) (tm' : TaskManager A Bytes)
      → next_task tm ≡ some (t, tm')
      → IsUnique same (queued tm)
      → IsUnique same (queued tm')
  unfolding next_task try_pop_front
  next_task-IsUnique tm t tm' e u = ground arith
