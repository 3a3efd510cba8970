-- ===== src/Processing/Rounds.antt =====
-- processSingleTask of windows-agent/internal/distros/worker/worker.go holds the distro awake only
-- while it runs.
use ubuntu_pro_for_wsl.Prelude.{
  ℕ, zero, suc, ◌+◌, ◌^◌, ◌<◌, ◌≡◌, Bool, true, false, Result, ok, err, arith,
}
use ubuntu_pro_for_wsl.Task.{Task}
use ubuntu_pro_for_wsl.Distro.{
  Distro, RegistryAnswer, registered, DistroError, is_valid, lock_awake, release_awake,
}
use ubuntu_pro_for_wsl.Worker.{cancelled}
use ubuntu_pro_for_wsl.Processing.{
  Attempt, Surroundings, Failure, release_then, after_lock, attempt, wait_rounds,
  wait_for_active_connection, locked, when_valid, process_single_task,
}
use ubuntu_pro_for_wsl.Processing.Triples.{
  Returns, Triple, bind-Triple, IsHeld, HeldAfter, is_valid-Triple, lock_awake-Triple,
  release_awake-Triple,
}

-- The registry holds the GUID at every question.
pub record IsSettled {E : Type 0} (guid : ℕ) (env : Surroundings E) : Type 0 where
  pub entry : env.entry ≡ registered guid
  pub locking : env.locking.registry ≡ registered guid
  pub attempt_locking : (i : ℕ) → (env.attempts i).locking.registry ≡ registered guid
  pub attempt_releasing : (i : ℕ) → (env.attempts i).releasing ≡ registered guid
  pub releasing : env.releasing ≡ registered guid

module _ {Bytes : Type 0} (guid count : ℕ) where
  release_then-Triple :
      (E : Type 0) {A : Type 0} (answer : RegistryAnswer) (a : A)
      → answer ≡ registered guid
      → Triple
          (IsHeld guid (count + 1))
          (release_then {Bytes = Bytes} E answer a)
          (λ _ d. IsHeld guid count d)
  unfolding release_then
  release_then-Triple E answer a e =
      bind-Triple _ (λ _ d. IsHeld guid count d) _ (release_awake answer) _
        (release_awake-Triple guid count E answer e) (λ r d h. h)

module _ {E Bytes : Type 0} (guid count : ℕ) where
  after_lock-Triple :
      (a : Attempt E)
      → a.releasing ≡ registered guid
      → (r : Result (DistroError E) (Unit {0}))
      → Triple
          (HeldAfter guid count r)
          (after_lock {Bytes = Bytes} a r)
          (λ _ d. IsHeld guid count d)
  unfolding after_lock
  after_lock-Triple a e (err x) = λ d h. h
  after_lock-Triple a e (ok _) = release_then-Triple guid count E a.releasing _ e

  attempt-Triple :
      (a : Attempt E)
      → a.locking.registry ≡ registered guid
      → a.releasing ≡ registered guid
      → count + 1 < 2 ^ 32
      → Triple (IsHeld {Bytes = Bytes} guid count) (attempt a) (λ _ d. IsHeld guid count d)
  unfolding attempt
  attempt-Triple a e e' b =
      bind-Triple _ (HeldAfter guid count) _ (lock_awake a.locking) (after_lock a)
        (lock_awake-Triple guid count a.locking e b) (after_lock-Triple a e')

  wait_rounds-Triple :
      (attempts : ℕ → Attempt E)
      → ((i : ℕ) → (attempts i).locking.registry ≡ registered guid)
      → ((i : ℕ) → (attempts i).releasing ≡ registered guid)
      → count + 1 < 2 ^ 32
      → (rounds i : ℕ) (last : Result (Failure E) ℕ)
      → Triple
          (IsHeld {Bytes = Bytes} guid count)
          (wait_rounds attempts rounds i last)
          (λ _ d. IsHeld guid count d)
  unfolding wait_rounds
  wait_rounds-Triple attempts e e' b zero i last = λ d h. h
  wait_rounds-Triple attempts e e' b (suc rounds) i (ok conn) = λ d h. h
  wait_rounds-Triple attempts e e' b (suc rounds) i (err x) =
      bind-Triple _ (λ _ d. IsHeld guid count d) _ (attempt (attempts i))
        (wait_rounds attempts rounds (i + 1)) (attempt-Triple (attempts i) (e i) (e' i) b)
        (wait_rounds-Triple attempts e e' b rounds (i + 1))

module _ {E Bytes : Type 0} (guid count : ℕ) where
  locked-Triple :
      (env : Surroundings E) (t : Task)
      → IsSettled guid env
      → count + 2 < 2 ^ 32
      → (r : Result (DistroError E) (Unit {0}))
      → Triple
          (HeldAfter guid count r)
          (locked {Bytes = Bytes} env t r)
          (λ _ d. IsHeld guid count d)
  unfolding locked wait_for_active_connection
  locked-Triple env t s b (err x) = λ d h. h
  locked-Triple env t s b (ok _) =
      bind-Triple _ (λ _ d. IsHeld guid (count + 1) d) _ (wait_for_active_connection env.attempts) _
        (wait_rounds-Triple guid (count + 1) env.attempts s.attempt_locking s.attempt_releasing
          (omega arith) 5 0 (err cancelled))
        (λ conn. release_then-Triple guid count E env.releasing _ s.releasing)

  when_valid-Triple :
      (env : Surroundings E) (t : Task)
      → IsSettled guid env
      → count + 2 < 2 ^ 32
      → (v : Bool)
      → Triple
          (λ d. (v ≡ true) × IsHeld {Bytes = Bytes} guid count d)
          (when_valid env t v)
          (λ _ d. IsHeld guid count d)
  unfolding when_valid
  when_valid-Triple env t s b false d (e, h) = absurd (cc e)
  when_valid-Triple env t s b true d (e, h) =
      bind-Triple _ (HeldAfter guid count) _ (lock_awake env.locking) (locked env t)
        (lock_awake-Triple guid count env.locking s.locking (omega arith)) (locked-Triple env t s b)
        d h

  -- If the registry keeps holding the GUID of a valid distro, and there is room in the count for
  -- two more locks, then, whatever else WSL, the connection and the task answer, processSingleTask
  -- returns without a panic, and the distro is as often held awake after it as before.
  pub process_single_task-IsHeld :
      (env : Surroundings E) (t : Task)
      → IsSettled guid env
      → count + 2 < 2 ^ 32
      → (d : Distro Bytes) → IsHeld guid count d
      → Returns (λ _ d'. IsHeld guid count d') (process_single_task env t d)
  unfolding process_single_task
  process_single_task-IsHeld env t s b =
      bind-Triple _ (λ v d. (v ≡ true) × IsHeld guid count d) _ (is_valid env.entry)
        (when_valid env t) (is_valid-Triple guid count env.entry s.entry)
        (when_valid-Triple env t s b)
