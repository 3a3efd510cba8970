-- ===== src/TaskQueue/Waiting.antt =====
-- Pull of windows-agent/internal/distros/worker/task_queue.go among the other methods of the
-- queue: one puller, interleaved with any calls. Between two locks of the queue's mutex the
-- puller stands at one of the places below.
pub mod Wakeup
use ubuntu_pro_for_wsl.Prelude.{
  ℕ, ◌+◌, ◌-◌, ◌<◌, ◌≡◌, refl, ◌≢◌, ◌⊎◌, inl, inr, Bool, true, false, List, [], ◌∷◌, ◌++◌, Option,
  none, some, arith, ltb, ◌==◌, if◌then◌else◌, Option-cases,
}
use ubuntu_pro_for_wsl.TaskQueue.{
  TaskQueue, new_task_queue, load, absorb, try_pop_front, notify, push, push_if_new, remove,
}

pub data Puller {ℓ} (A : Type ℓ) : Type ℓ where
  -- About to call tryPopFront at the top of the loop.
  looking : Puller A
  -- tryPopFront found nothing; about to read q.wait.
  missed : Puller A
  -- In the select, on the channel of this generation.
  waiting : ℕ → Puller A
  -- Out of the select, about to call tryPopFront again.
  woken : Puller A
  pulled : A → Puller A
  cancelled : Puller A

pub record World {ℓ} (A : Type ℓ) : Type ℓ where
  pub queue : TaskQueue A
  pub puller : Puller A

module _ {ℓ} {A : Type ℓ} where
  pop_or : Puller A → World A → World A
  pop_or next w = elim (try_pop_front w.queue) [
    | none ↦ record w { puller = next }
    | some (t, q) ↦ record { queue = q; puller = pulled t }
  ]

  -- A closed channel, of an older generation, and one with a notification are ready to receive.
  receive : ℕ → World A → Option (World A)
  receive g w =
      if ltb g w.queue.channel
      then some (record w { puller = woken })
      else (if ltb 0 w.queue.notified
          then some (record {
            queue = record (w.queue) { notified = w.queue.notified - 1 };
            puller = woken;
          })
          else none)

  pull_from : Puller A → World A → Option (World A)
  unfolding pop_or receive
  pull_from looking w = some (pop_or missed w)
  pull_from missed w = some (record w { puller = waiting w.queue.channel })
  pull_from (waiting g) w = receive g w
  pull_from woken w = some (pop_or looking w)
  pull_from (pulled t) w = none
  pull_from cancelled w = none

  -- The puller's next step; `none` if it is blocked or has returned.
  unfoldable pub pull_step : World A → Option (World A)
  unfolding pull_from
  pull_step w = pull_from w.puller w

  cancel_from : Puller A → Puller A
  cancel_from (waiting g) = cancelled
  cancel_from p = p

pub data Event {ℓ} (A : Type ℓ) : Type ℓ where
  pulls : Event A
  cancels : Event A
  pushes : A → Event A
  pushes_if_new : A → Event A
  removes : A → Event A
  loads : List A → Event A
  absorbs : TaskQueue A → Event A

module _ {ℓ} {A : Type ℓ} (same : A → A → Bool) where
  unfoldable pub apply : Event A → World A → World A
  unfolding cancel_from
  apply pulls w = elim (pull_step w) [ none ↦ w | some w' ↦ w' ]
  apply cancels w = record w { puller = cancel_from w.puller }
  apply (pushes t) w = record w { queue = push same t w.queue }
  apply (pushes_if_new t) w = record w { queue = push_if_new same t w.queue }
  apply (removes t) w = record w { queue = remove same t w.queue }
  apply (loads ts) w = record w { queue = load ts w.queue }
  apply (absorbs other) w = record w { queue = (absorb w.queue other).0 }

  unfoldable pub run : List (Event A) → World A → World A
  run [] w = w
  run (e ∷ es) w = run es (apply e w)
