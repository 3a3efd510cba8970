-- ===== src/StateManager/Balance.antt =====
-- The counter of windows-agent/internal/distros/distro/distro_state.go against the goroutines that
-- it starts.
use ubuntu_pro_for_wsl.Prelude.{
  ℕ, ◌+◌, ◌-◌, ◌^◌, ◌<◌, ◌≡◌, refl, ◌⊎◌, inl, inr, [], ◌∷◌, Option, none, some, Result, ok, err,
  arith, reject, ◌==◌, ltb, Bool-cases, false,
}
use ubuntu_pro_for_wsl.StateManager.{
  WslState, stopped, running, StateManager, Outcome, done, error, ReleaseError, lock, release,
  reset, new_state_manager, keep_awake, stop_context, restart, lock_held, drop_cancel, excess_calls,
}

-- At most one goroutine keeps the distro awake, none if nothing holds it, and it is the one that
-- the cancel function stops.
pub record IsTidy (m : StateManager) : Type 0 where
  pub idle : m.refcount ≡ 0 → m.live ≡ []
  pub held : 0 < m.refcount → (id : ℕ) × (m.cancel ≡ some id) × ((m.live ≡ []) ⊎ (m.live ≡ id ∷ []))
  pub bounded : m.refcount < 2 ^ 32

-- A new manager is tidy.
pub new_state_manager-IsTidy : IsTidy new_state_manager
unfolding new_state_manager
new_state_manager-IsTidy = record {
  idle = λ _. refl;
  held = λ h. absurd (omega arith);
  bounded = omega arith;
}

-- What a call of lock does to a count: one more without an error, the same with one.
abbrev pub Locks : {E : Type 0} → ℕ → StateManager × Outcome E → Type 0
Locks {E} count (m, r) =
    IsTidy m
    × (((r ≡ done) × (m.refcount ≡ count + 1)) ⊎ ((e : E) × (r ≡ error e) × (m.refcount ≡ count)))

keep_awake-Locks :
    {E : Type 0} (touch : Option E) (m : StateManager)
    → m.refcount + 1 < 2 ^ 32
    → m.live ≡ []
    → IsTidy m
    → Locks m.refcount (keep_awake touch m)
unfolding keep_awake
keep_awake-Locks (some e) m b l v =
    (record { idle = v.idle; held = v.held; bounded = v.bounded }, inr (e, refl, refl))
keep_awake-Locks none m b l v = (
  record {
    idle = λ h. absurd (omega arith);
    held = λ h. (m.next, refl, inr (rw l));
    bounded = omega arith;
  },
  inl (refl, omega arith),
)

-- Stopping the context of the cancel function leaves no goroutine.
stop_context-IsTidy :
    (m : StateManager) (id : ℕ)
    → m.cancel ≡ some id
    → (m.live ≡ []) ⊎ (m.live ≡ id ∷ [])
    → IsTidy m
    → IsTidy (stop_context id m) × ((stop_context id m).live ≡ [])
unfolding stop_context
stop_context-IsTidy m id c l v =
    let none_left : reject (λ c. c == id) m.live ≡ [] = ground arith in
    (
      record { idle = λ h. none_left; held = λ h. (id, c, inl none_left); bounded = v.bounded },
      none_left,
    )

restart-Locks :
    {E : Type 0} (touch : Option E) (m : StateManager)
    → m.refcount + 1 < 2 ^ 32
    → 0 < m.refcount
    → IsTidy m
    → Locks m.refcount (restart touch m)
unfolding restart
restart-Locks touch m b h v =
    let (id, c, l) = v.held h in
    let (tidy, none_left) = stop_context-IsTidy m id c l v in
    rw (c, restart) (keep_awake-Locks touch (stop_context id m) b none_left tidy)

lock_held-Locks :
    {E : Type 0} (state : Result E WslState) (touch : Option E) (m : StateManager)
    → m.refcount + 1 < 2 ^ 32
    → 0 < m.refcount
    → IsTidy m
    → Locks m.refcount (lock_held state touch m)
unfolding lock_held
lock_held-Locks (err e) touch m b h v = (v, inr (e, refl, refl))
lock_held-Locks (ok running) touch m b h v = (
  record { idle = λ e. absurd (omega arith); held = λ e. v.held h; bounded = omega arith },
  inl (refl, omega arith),
)
lock_held-Locks (ok _) touch m b h v = restart-Locks touch m b h v

-- Below the largest count, and whatever WSL answers, lock calls no nil function and leaves at most
-- one keep-awake goroutine, the one that the cancel function stops; the count is one more if lock
-- returns no error, and the same if it returns one.
pub lock-Locks :
    {E : Type 0} (state : Result E WslState) (touch : Option E) (m : StateManager)
    → m.refcount + 1 < 2 ^ 32
    → IsTidy m
    → Locks m.refcount (lock state touch m)
unfolding lock
lock-Locks state touch m b v = elim (Bool-cases (ltb 0 m.refcount)) [
  | inl h ↦ rw (h, lock) (lock_held-Locks state touch m b (ground arith) v)
  | inr h ↦ rw (h, lock) (keep_awake-Locks touch m b (v.idle (ground arith)) v)
]

drop_cancel-IsTidy :
    (m : StateManager) (id : ℕ)
    → m.refcount ≡ 0
    → m.cancel ≡ some id
    → (m.live ≡ []) ⊎ (m.live ≡ id ∷ [])
    → IsTidy (drop_cancel {E = ReleaseError} m).0
      × ((drop_cancel {E = ReleaseError} m).1 ≡ done)
      × ((drop_cancel {E = ReleaseError} m).0.refcount ≡ 0)
      × ((drop_cancel {E = ReleaseError} m).0.live ≡ [])
unfolding drop_cancel stop_context
drop_cancel-IsTidy m id z c l =
    let none_left : reject (λ c. c == id) m.live ≡ [] = ground arith in
    rw (c, drop_cancel)
      (
        record { idle = λ h. none_left; held = λ h. absurd (omega arith); bounded = omega arith },
        refl,
        z,
        none_left,
      )

-- What a call of release does to a manager.
abbrev pub Releases : StateManager → StateManager × Outcome ReleaseError → Type 0
Releases m (m', r) =
    IsTidy m'
    × (((m.refcount ≡ 0) × (r ≡ error excess_calls) × (m' ≡ m))
        ⊎ ((0 < m.refcount) × (r ≡ done) × (m'.refcount + 1 ≡ m.refcount)))

release_held :
    (m : StateManager)
    → 0 < m.refcount
    → (m.refcount == 0) ≡ false
    → IsTidy m
    → Releases m (release m)
unfolding release
release_held m h e v = elim (Bool-cases (ltb 0 (m.refcount - 1))) [
  | inl more ↦
      rw (e, release)
        (rw (more, release)
          (
            record {
              idle = λ z. absurd (ground arith);
              held = λ _. v.held h;
              bounded = omega arith;
            },
            inr (h, refl, omega arith),
          ))
  | inr last ↦
      let (id, c, l) = v.held h in
      let (tidy, r, z, _) =
        drop_cancel-IsTidy (record m { refcount = m.refcount - 1 }) id (ground arith) c l in
      rw (e, release) (rw (last, release) (tidy, inr (h, r, ground arith)))
]

-- On a manager that is held, release calls no nil function and returns no error: it takes one off
-- the count, and no keep-awake goroutine is left when the count reaches zero. On a manager that is
-- not held, it returns an error and changes nothing.
pub release-Releases : (m : StateManager) → IsTidy m → Releases m (release m)
unfolding release
release-Releases m v = elim (Bool-cases (m.refcount == 0)) [
  | inl z ↦ rw (z, release) (v, inl (ground arith, refl, refl))
  | inr h ↦ release_held m (ground arith) h v
]

-- Whatever the count, reset calls no nil function and returns no error, and leaves a count of zero
-- and no keep-awake goroutine.
pub reset_lem :
    (m : StateManager)
    → IsTidy m
    → let (m', r) = reset m in IsTidy m' × (r ≡ done) × (m'.refcount ≡ 0) × (m'.live ≡ [])
unfolding reset
reset_lem m v = elim (Bool-cases (m.refcount == 0)) [
  | inl z ↦
      let zero_count : m.refcount ≡ 0 = ground arith in
      rw (z, reset)
        (
          record { idle = λ h. v.idle h; held = λ h. absurd (omega arith); bounded = v.bounded },
          refl,
          zero_count,
          v.idle zero_count,
        )
  | inr h ↦
      let (id, c, l) = v.held (ground arith) in
      rw (h, reset) (drop_cancel-IsTidy (record m { refcount = 0 }) id refl c l)
]

-- A manager that is held, whose distro has stopped: if the first Touch of a lock fails, and the
-- distro runs again at the next lock, then that lock returns no error and adds one to the count,
-- but no goroutine keeps the distro awake.
pub lock_asleep :
    {E : Type 0} (e : E) (touch : Option E) (m : StateManager)
    → m.refcount + 1 < 2 ^ 32
    → 0 < m.refcount
    → IsTidy m
    → let m' = (lock (ok stopped) (some e) m).0 in
      let (m'', r) = lock (ok running) touch m' in
      (r ≡ done) × (m''.refcount ≡ m.refcount + 1) × (m''.live ≡ [])
unfolding lock lock_held restart keep_awake stop_context
lock_asleep e touch m b h v = let (id, c, l) = v.held h in ground (arith, c, l)
