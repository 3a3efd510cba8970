-- ===== src/TaskManager/Restart.antt =====
-- What windows-agent/internal/distros/worker/task_management.go keeps across a restart of the agent,
-- and over every sequence of calls.
use ubuntu_pro_for_wsl.Prelude.{
  ℕ, zero, suc, ◌++◌, ◌∙◌, ap, Option-cases, some, ◌≡◌, refl, ◌⊎◌, inl, inr, Bool, List, [], ◌∷◌,
  none, some, arith, Result, ok, err, Result-cases,
}
use ubuntu_pro_for_wsl.Storage.{Disk, Faults, replace_file, replace_file_atomic}
use ubuntu_pro_for_wsl.TaskQueue.{new_task_queue, load, try_pop_front}
use ubuntu_pro_for_wsl.TaskQueue.Unique.{IsUnique}
use ubuntu_pro_for_wsl.TaskManager.{
  Codec, TaskManager, store, save, load_bytes, load_tasks, new_task_manager, next_task, submit,
}
use ubuntu_pro_for_wsl.TaskManager.Invariant.{queued, save-queues}

-- The codec reads back what it wrote.
abbrev pub ReadsBack : {E A Bytes : Type 0} → Codec E A Bytes → Type 0
ReadsBack {E} {A} {Bytes} codec =
    (ts : List A) (b : Bytes) → codec.marshal ts ≡ ok b → codec.unmarshal b ≡ ok ts

module _ {E A Bytes : Type 0} (codec : Codec E A Bytes) where
  -- A file that is not read as a list with two equivalent tasks.
  abbrev pub IsSound : (A → A → Bool) → Disk Bytes → Type 0
  IsSound same d =
      (b : Bytes) (ts : List A) → d.file ≡ some b → codec.unmarshal b ≡ ok ts → IsUnique same ts

module _ {E A Bytes : Type 0} where
  pub store-file :
      (io : Faults E Bytes) (r : Result E Bytes) (tm : TaskManager A Bytes)
      → ((store io r tm).0.disk.file ≡ tm.disk.file)
        ⊎ ((b : Bytes) × (r ≡ ok b) × ((store io r tm).0.disk.file ≡ some b))
  unfolding store
  store-file io (err e) tm = inl refl
  store-file io (ok b) tm = elim (Result-cases (replace_file io b tm.disk).1) [
    | inl (_, e) ↦ inr (b, refl, ((replace_file_atomic io b tm.disk).0 e).0)
    | inr (x, e) ↦ inl ((replace_file_atomic io b tm.disk).1 x e)
  ]

module _ {A Bytes : Type 0} where
  -- What NextTask returns, called up to n times: nothing is left when it would block.
  abbrev pub pulls : ℕ → TaskManager A Bytes → List A × TaskManager A Bytes
  pulls zero tm = ([], tm)
  pulls (suc n) tm = elim (next_task tm) [
    | none ↦ ([], tm)
    | some (t, tm') ↦ let (ts, tm'') = pulls n tm' in (t ∷ ts, tm'')
  ]

module _ {E A Bytes : Type 0} (codec : Codec E A Bytes) (reads_back : ReadsBack codec) where
  -- A file that holds the tasks of a list.
  abbrev Holds : List A → Disk Bytes → Type 0
  Holds ts d = (b : Bytes) × (d.file ≡ some b) × (codec.unmarshal b ≡ ok ts)

  store-Holds :
      (io : Faults E Bytes) (r : Result E Bytes) (tm : TaskManager A Bytes) (ts : List A)
      → ((b : Bytes) → r ≡ ok b → codec.unmarshal b ≡ ok ts)
      → (store io r tm).1 ≡ ok tt
      → Holds ts (store io r tm).0.disk
  unfolding store
  store-Holds io (ok b) tm ts k h = (b, ((replace_file_atomic io b tm.disk).0 h).0, k b refl)
  store-Holds io (err e) tm ts k h = cc

  new_task_manager-Holds :
      (io : Faults E Bytes) (d : Disk Bytes) (ts : List A)
      → io.read_error ≡ none
      → Holds ts d
      → let (tm, r) = new_task_manager codec io d in
        (r ≡ ok tt) × (tm.tasks.items ≡ ts) × (tm.deferred_tasks.items ≡ [])
  unfolding new_task_manager load_tasks load_bytes load new_task_queue
  new_task_manager-Holds io d ts h (b, f, u) = ground arith

  save-Holds :
      (io : Faults E Bytes) (tm : TaskManager A Bytes)
      → (save codec io tm).1 ≡ ok tt
      → Holds (queued (save codec io tm).0) (save codec io tm).0.disk
  unfolding save
  save-Holds io tm h =
      let (same_tasks, same_deferred) = save-queues codec io tm in
      rw (same_tasks, same_deferred) (store-Holds io _ tm (queued tm) (reads_back (queued tm)) h)

  -- If a submission is saved, then a restart of the agent finds every queued task: the new
  -- manager's tasks are the tasks and then the deferred tasks, in their order, and nothing is
  -- deferred. The codec is assumed to read back what it wrote, and the file to be readable.
  pub new_task_manager-submit :
      (same : A → A → Bool) (io later : Faults E Bytes) (deferred : Bool) (ts : List A)
      (tm : TaskManager A Bytes)
      → later.read_error ≡ none
      → (submit same codec io deferred ts tm).1 ≡ ok tt
      → let saved = (submit same codec io deferred ts tm).0 in
        let (restarted, r) = new_task_manager codec later saved.disk in
        (r ≡ ok tt) × (restarted.tasks.items ≡ queued saved) × (restarted.deferred_tasks.items ≡ [])
  unfolding submit
  new_task_manager-submit same io later deferred ts tm h e =
      new_task_manager-Holds later _ _ h (save-Holds io _ e)

  next_task-queued :
      (tm tm' : TaskManager A Bytes) (t : A)
      → next_task tm ≡ some (t, tm')
      → (queued tm ≡ t ∷ queued tm') × (tm'.disk ≡ tm.disk)
  unfolding next_task try_pop_front
  next_task-queued tm tm' t e = ground arith

  pulls-queued :
      (n : ℕ) (tm : TaskManager A Bytes)
      → let (ts, tm') = pulls n tm in (queued tm ≡ ts ++ queued tm') × (tm'.disk ≡ tm.disk)
  pulls-queued zero tm = (refl, refl)
  pulls-queued (suc n) tm = elim (Option-cases (next_task tm)) [
    | inl e ↦ rw (e, pulls) (refl, refl)
    | inr ((t, tm'), e) ↦
        let (q, d) = next_task-queued tm tm' t e in
        let (q', d') = pulls-queued n tm' in rw (e, pulls) (q ∙ ap (λ x. t ∷ x) q', d' ∙ d)
  ]

  -- After a saved submission, tasks are pulled, as many as there are up to n. If the agent restarts before
  -- anything else is saved, it finds the pulled tasks again, in front of those that are queued still. The
  -- codec is assumed to read back what it wrote, and the file to be readable.
  pub next_task-restart :
      (same : A → A → Bool) (io later : Faults E Bytes) (deferred : Bool) (ts : List A) (n : ℕ)
      (tm : TaskManager A Bytes)
      → later.read_error ≡ none
      → (submit same codec io deferred ts tm).1 ≡ ok tt
      → let (pulled, tm') = pulls n (submit same codec io deferred ts tm).0 in
        (new_task_manager codec later tm'.disk).0.tasks.items ≡ pulled ++ queued tm'
  next_task-restart same io later deferred ts n tm h e =
      let (q, d) = pulls-queued n (submit same codec io deferred ts tm).0 in
      rw (d, ← q) (new_task_manager-submit same io later deferred ts tm h e).1
