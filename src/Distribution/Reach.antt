-- ===== src/Distribution/Reach.antt =====
-- Which distros a task that is handed to all of them reaches.
use ubuntu_pro_for_wsl.Prelude.{
  ◌≡◌, ◌≢◌, refl, ◌∙◌, ap, Bool, true, false, List, [], ◌∷◌, ◌++◌, Option, none, some, Result, ok,
  err, String, arith, if◌then◌else◌, reject, ◌⊎◌, inl, inr, Option-cases, Result-cases,
}
use ubuntu_pro_for_wsl.Storage.{Faults}
use ubuntu_pro_for_wsl.Task.{Task, is, is-IsComparator}
use ubuntu_pro_for_wsl.TaskQueue.Unique.{push-items, remove_lem}
use ubuntu_pro_for_wsl.TaskManager.{Codec, submit, submit_one, submit_all}
use ubuntu_pro_for_wsl.TaskManager.Invariant.{save-queues}
use ubuntu_pro_for_wsl.Worker.{submit_tasks, submit_to}
use ubuntu_pro_for_wsl.Distro.{
  M, return, RegistryAnswer, inaccessible, DistroError, not_valid, from_worker, Distro, is_valid,
  if_valid, distro_submit_tasks, settle_submit,
}
use ubuntu_pro_for_wsl.Database.{DistroMap, DistroDb}
use ubuntu_pro_for_wsl.Database.Lookup.{is_valid-true, is_valid-none}
use ubuntu_pro_for_wsl.Distribution.{distribute, distribute_task}

-- The task is the last of the queue, and no queue has another one like it.
abbrev pub HasTask : {Bytes : Type 0} → Task → Distro Bytes → Distro Bytes → Type 0
HasTask t d d' =
    (d'.worker.manager.tasks.items ≡ reject (λ y. is t y) d.worker.manager.tasks.items ++ t ∷ [])
    × (d'.worker.manager.deferred_tasks.items
        ≡ reject (λ y. is t y) d.worker.manager.deferred_tasks.items)

-- A distro that is valid takes the task; another one is only marked as not valid.
abbrev pub Takes : {Bytes : Type 0} → RegistryAnswer → Task → Distro Bytes → Distro Bytes → Type 0
Takes answer t d d' =
    ((is_valid answer d ≡ some (true, d)) × HasTask t d d') ⊎ (is_valid answer d ≡ some (false, d'))

-- Distro by distro, under the same names.
abbrev pub AllTake :
    {Bytes : Type 0} → (String → RegistryAnswer) → Task → DistroMap Bytes → DistroMap Bytes → Type 0
AllTake answers t [] [] = Unit {0}
AllTake answers t ((n, d) ∷ ds) ((n', d') ∷ ds') =
    (n' ≡ n) × Takes (answers n) t d d' × AllTake answers t ds ds'
AllTake answers t [] (e ∷ es) = ⊥
AllTake answers t (e ∷ es) [] = ⊥

module _ {E Bytes : Type 0} (codec : Codec E Task Bytes) (io : Faults E Bytes) where
  submitted-HasTask :
      (t : Task) (d : Distro Bytes)
      → HasTask t d (record d {
        worker = record (d.worker) {
          manager = (submit is codec io false (t ∷ []) d.worker.manager).0;
        };
      })
  unfolding submit submit_all submit_one
  submitted-HasTask t d =
      let tm = submit_one is false t d.worker.manager in
      let (q, q') = save-queues codec io tm in
      (
        ap (λ x. x.items) q ∙ push-items is is-IsComparator t d.worker.manager.tasks,
        ap (λ x. x.items) q' ∙ remove_lem is is-IsComparator t d.worker.manager.deferred_tasks,
      )

  -- SubmitTasks, by what IsValid answers.
  submit_if :
      Task
      → Option (Bool × Distro Bytes)
      → Option (Result (DistroError E) (Unit {0}) × Distro Bytes)
  submit_if t none = none
  submit_if t (some (v, d)) =
      if◌then◌else◌ {A = M Bytes (Result (DistroError E) (Unit {0}))} v
        (λ d'. settle_submit codec io (submit_tasks codec io (t ∷ []) d'.worker) d')
        (λ d'. some (err not_valid, d')) d

  distro_submit_tasks-is_valid :
      (answer : RegistryAnswer) (t : Task) (d : Distro Bytes)
      → distro_submit_tasks codec io answer (t ∷ []) d ≡ submit_if t (is_valid answer d)
  unfolding distro_submit_tasks if_valid submit_if
  distro_submit_tasks-is_valid answer t d = by_answer (is_valid answer d)
    where
      by_answer :
          (o : Option (Bool × Distro Bytes))
          → elim o [
            | none ↦ none
            | some (v, d1) ↦
                if◌then◌else◌ {A = M Bytes (Result (DistroError E) (Unit {0}))} v
                  (λ d'. settle_submit codec io (submit_tasks codec io (t ∷ []) d'.worker) d')
                  (return (err not_valid))
                  d1
          ]
            ≡ submit_if t o
      by_answer none = refl
      by_answer (some (v, d1)) = refl

  distro_submit_tasks-Takes :
      (answer : RegistryAnswer) (t : Task) (d : Distro Bytes)
      → answer ≢ inaccessible
      → (r : Result (DistroError E) (Unit {0})) × (d' : Distro Bytes) × (distro_submit_tasks codec
            io answer
            (t ∷ [])
            d
          ≡ some (r, d'))
        × Takes answer t d d'
  unfolding settle_submit submit_tasks submit_to submit_if
  distro_submit_tasks-Takes answer t d h = elim (Option-cases (is_valid answer d)) [
    | inl v ↦ absurd (h (is_valid-none answer d v))
    | inr ((false, d'), v) ↦
        (err not_valid, d', distro_submit_tasks-is_valid answer t d ∙ ap (submit_if t) v, inr v)
    | inr ((true, d1), v) ↦
        let (same, _) = is_valid-true answer d d1 v in
        let v' : is_valid answer d ≡ some (true, d) = rw v (rw same refl) in
        let (tm, r) = submit is codec io false (t ∷ []) d.worker.manager in
        let d2 = record d { worker = record (d.worker) { manager = tm } } in
        elim (Result-cases r) [
          | inl (u, e) ↦ (
            ok tt,
            d2,
            distro_submit_tasks-is_valid answer t d
                ∙ ap (submit_if t) v'
                ∙ rw (e, settle_submit) refl,
            inl (v', submitted-HasTask t d),
          )
          | inr (x, e) ↦ (
            err (from_worker x),
            d2,
            distro_submit_tasks-is_valid answer t d
                ∙ ap (submit_if t) v'
                ∙ rw (e, settle_submit) refl,
            inl (v', submitted-HasTask t d),
          )
        ]
  ]

  distribute-AllTake :
      (answers : String → RegistryAnswer) (t : Task)
      → ((n : String) → answers n ≢ inaccessible)
      → (ds : DistroMap Bytes)
      → (ds' : DistroMap Bytes) × (es : List (DistroError E)) × (distribute codec io answers t ds
          ≡ some (ds', es))
        × AllTake answers t ds ds'
  unfolding distribute
  distribute-AllTake answers t h [] = ([], [], refl, tt)
  distribute-AllTake answers t h ((n, d) ∷ ds) =
      let (r, d', e, k) = distro_submit_tasks-Takes (answers n) t d (h n) in
      let (ds', es, e', k') = distribute-AllTake answers t h ds in
      (
        (n, d') ∷ ds',
        elim r [ ok _ ↦ es | err x ↦ x ∷ es ],
        rw (e, distribute) (rw (e', distribute) refl),
        (refl, k, k'),
      )

  -- On a database that is not stopped, if the registry can be read, handing a task to the distros
  -- does not panic. Under every name the distro then has the task last in its queue, and no other one
  -- like it in a queue, whether or not its tasks could be saved; or the distro is what IsValid leaves
  -- of one that is not valid.
  pub distribute_task-AllTake :
      {DbBytes : Type 0} (answers : String → RegistryAnswer) (t : Task)
      → ((n : String) → answers n ≢ inaccessible)
      → (db : DistroDb Bytes DbBytes) → db.stopped ≡ false
      → (ds : DistroMap Bytes) × (distribute_task codec io answers t db
          ≡ some (record db { distros = ds }))
        × AllTake answers t db.distros ds
  unfolding distribute_task
  distribute_task-AllTake answers t h db up =
      let (ds, es, e, k) = distribute-AllTake answers t h db.distros in
      (ds, ground (arith, up, e), k)
