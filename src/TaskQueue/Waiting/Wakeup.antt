-- ===== src/TaskQueue/Waiting/Wakeup.antt =====
-- When a blocked Pull of windows-agent/internal/distros/worker/task_queue.go is sure to be woken.
use ubuntu_pro_for_wsl.Prelude.{
  ◌+◌, ◌<◌, ◌≡◌, refl, ◌≢◌, ◌⊎◌, inl, inr, List, [], ◌∷◌, none, some, arith, Bool, any, Bool-cases,
  Option-cases, ◌≤◌,
}
use ubuntu_pro_for_wsl.TaskQueue.{
  TaskQueue, load, absorb, try_pop_front, notify, push, push_if_new, remove,
}
use ubuntu_pro_for_wsl.TaskQueue.Compact.{remove_if-reject}
use ubuntu_pro_for_wsl.TaskQueue.Waiting.{
  Puller, World, Event, looking, missed, waiting, woken, pulled, cancelled, pulls, cancels, pushes,
  pushes_if_new, removes, loads, absorbs, pull_step, apply, run,
}

module _ {ℓ} {A : Type ℓ} where
  -- The queue renews its channel only while the puller is not between tryPopFront and q.wait.
  abbrev pub IsTimely : Puller A → Event A → Type 0
  IsTimely missed (loads ts) = ⊥
  IsTimely missed (absorbs other) = ⊥
  IsTimely p e = Unit {0}

  -- What keeps a puller from missing an entry: its channel was closed, or there is nothing to
  -- miss, or a notification is buffered.
  abbrev IsAwake : Puller A → TaskQueue A → Type ℓ
  IsAwake missed q = (q.items ≡ []) ⊎ (0 < q.notified)
  IsAwake (waiting g) q = (g ≤ q.channel) × ((g < q.channel) ⊎ (q.items ≡ []) ⊎ (0 < q.notified))
  IsAwake p q = Unit

  -- A puller that enters Pull.
  abbrev pub start : TaskQueue A → World A
  start q = record { queue = q; puller = looking }

  -- A puller that has returned, with a task or cancelled.
  abbrev pub HasReturned : Puller A → Type 0
  HasReturned (pulled t) = Unit {0}
  HasReturned cancelled = Unit {0}
  HasReturned p = ⊥

  notify-notified : (q : TaskQueue A) → 0 < (notify q).notified
  unfolding notify
  notify-notified q = ground arith

  notify-channel : (q : TaskQueue A) → (notify q).channel ≡ q.channel
  unfolding notify
  notify-channel q = ground arith

  -- A change of the queue that leaves the channel, and that notifies or adds nothing.
  told :
      (p : Puller A) (q r : TaskQueue A)
      → r.channel ≡ q.channel
      → ((0 < r.notified) ⊎ ((r.notified ≡ q.notified) × (q.items ≡ [] → r.items ≡ [])))
      → IsAwake p q
      → IsAwake p r
  told looking q r c n a = tt
  told missed q r c n a = ground arith
  told (waiting g) q r c n a = ground arith
  told _ q r c n a = tt

  pull-IsAwake :
      (p : Puller A) (q : TaskQueue A) (w : World A)
      → IsAwake p q
      → pull_step (record { queue = q; puller = p }) ≡ some w
      → IsAwake w.puller w.queue
  unfolding pull_step try_pop_front
  pull-IsAwake looking q w a e = ground arith
  pull-IsAwake missed q w a e = ground arith
  pull-IsAwake (waiting g) q w a e = ground arith
  pull-IsAwake woken q w a e = ground arith
  pull-IsAwake (pulled t) q w a e = cc
  pull-IsAwake cancelled q w a e = cc

  pull_step-blocked :
      (p : Puller A) (q : TaskQueue A)
      → IsAwake p q
      → pull_step (record { queue = q; puller = p }) ≡ none
      → HasReturned p ⊎ (q.items ≡ [])
  unfolding pull_step try_pop_front
  pull_step-blocked looking q a e = cc
  pull_step-blocked missed q a e = cc
  pull_step-blocked (waiting g) q a e = ground arith
  pull_step-blocked woken q a e = cc
  pull_step-blocked (pulled t) q a e = inl tt
  pull_step-blocked cancelled q a e = inl tt

  -- A renewed channel wakes a puller that waits on the old one.
  renewed :
      (p : Puller A) (q r : TaskQueue A)
      → r.channel ≡ q.channel + 1
      → p ≢ missed
      → IsAwake p q
      → IsAwake p r
  renewed missed q r c m a = absurd (m refl)
  renewed (waiting g) q r c m a = ground arith
  renewed _ q r c m a = tt

module _ {ℓ} {A : Type ℓ} (same : A → A → Bool) where
  push-IsAwake : (t : A) (p : Puller A) (q : TaskQueue A) → IsAwake p q → IsAwake p (push same t q)
  unfolding push
  push-IsAwake t p q = told p q _ (notify-channel _) (inl (notify-notified _))

  push_if_new-IsAwake :
      (t : A) (p : Puller A) (q : TaskQueue A) → IsAwake p q → IsAwake p (push_if_new same t q)
  unfolding push_if_new
  push_if_new-IsAwake t p q a = elim (Bool-cases (any (λ y. same y t) q.items)) [
    | inl old ↦ rw old a
    | inr new ↦ rw new (told p q _ (notify-channel _) (inl (notify-notified _)) a)
  ]

  remove-IsAwake :
      (t : A) (p : Puller A) (q : TaskQueue A) → IsAwake p q → IsAwake p (remove same t q)
  unfolding remove
  remove-IsAwake t p q =
      told p q _ refl (inr (refl, λ e. rw (remove_if-reject q.items (λ y. same t y), e)))

  apply-pulls : (w w' : World A) → pull_step w ≡ some w' → apply same pulls w ≡ w'
  unfolding apply
  apply-pulls w w' e = rw (e, apply)

  apply-pulls_blocked : (w : World A) → pull_step w ≡ none → apply same pulls w ≡ w
  unfolding apply
  apply-pulls_blocked w e = rw (e, apply)

  apply-IsAwake :
      (e : Event A) (p : Puller A) (q : TaskQueue A)
      → IsTimely p e
      → IsAwake p q
      → let w = apply same e (record { queue = q; puller = p }) in IsAwake w.puller w.queue
  unfolding apply load absorb
  apply-IsAwake pulls p q h a = elim (Option-cases (pull_step (record { queue = q; puller = p }))) [
    | inl blocked ↦ rw (apply-pulls_blocked _ blocked) a
    | inr (w, e) ↦ rw (apply-pulls _ w e) (pull-IsAwake p q w a e)
  ]
  apply-IsAwake cancels (waiting g) q h a = tt
  apply-IsAwake cancels _ q h a = a
  apply-IsAwake (pushes t) p q h a = push-IsAwake t p q a
  apply-IsAwake (pushes_if_new t) p q h a = push_if_new-IsAwake t p q a
  apply-IsAwake (removes t) p q h a = remove-IsAwake t p q a
  apply-IsAwake (loads ts) missed q h a = absurd h
  apply-IsAwake (loads ts) p q h a = renewed p q (load ts q) refl (λ e. cc) a
  apply-IsAwake (absorbs other) missed q h a = absurd h
  apply-IsAwake (absorbs other) p q h a = renewed p q (absorb q other).0 refl (λ e. cc) a

  abbrev pub AreTimely : List (Event A) → World A → Type 0
  AreTimely [] w = Unit {0}
  AreTimely (e ∷ es) w = IsTimely w.puller e × AreTimely es (apply same e w)

  run-IsAwake :
      (es : List (Event A)) (w : World A)
      → AreTimely es w
      → IsAwake w.puller w.queue
      → IsAwake (run same es w).puller (run same es w).queue
  unfolding run
  run-IsAwake [] w h a = a
  run-IsAwake (e ∷ es) w h a =
      run-IsAwake es (apply same e w) h.1 (apply-IsAwake e w.puller w.queue h.0 a)

  -- A puller starts on any queue, and any calls of the queue's methods are interleaved with its
  -- steps, none of them a Load or an Absorb between its look at the entries and its read of the
  -- channel. If it then cannot step, it has returned or the queue is empty.
  pub run_no_lost_wakeup :
      (q : TaskQueue A) (es : List (Event A))
      → AreTimely es (start q)
      → let w = run same es (start q) in
        pull_step w ≡ none → HasReturned w.puller ⊎ (w.queue.items ≡ [])
  run_no_lost_wakeup q es h =
      let w = run same es (start q) in
      pull_step-blocked w.puller w.queue (run-IsAwake es (start q) h tt)

  -- On an empty queue, an Absorb of any tasks between the puller's look at the entries and its
  -- read of the channel leaves it blocked, not returned, in front of a queue that is not empty.
  pub absorb_lost_wakeup :
      (q other : TaskQueue A) (t : A) (ts : List A)
      → q.items ≡ []
      → other.items ≡ t ∷ ts
      → let w = run same (pulls ∷ absorbs other ∷ pulls ∷ []) (start q) in
        (pull_step w ≡ none) × (w.puller ≡ waiting (q.channel + 1)) × (w.queue.items ≡ t ∷ ts)
  unfolding run apply absorb pull_step try_pop_front
  absorb_lost_wakeup q other t ts e h = ground arith
