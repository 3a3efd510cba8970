-- ===== src/StateManager.antt =====
-- windows-agent/internal/distros/distro/distro_state.go: the counter that keeps a distro awake. The
-- contexts made by lock are numbered; one is live while its keep-awake goroutine runs. The answers
-- of WSL (the state of the distro, and touchdistro.Touch) are arguments.
pub mod Balance
pub mod Examples
use ubuntu_pro_for_wsl.Prelude.{
  ℕ, zero, suc, ◌+◌, ◌-◌, ◌%◌, ◌^◌, Bool, true, false, List, [], ◌∷◌, Option, none, some, Result,
  ok, err, ltb, ◌==◌, if◌then◌else◌, reject,
}

-- wsl.State
pub data WslState : Type 0 where
  stopped running installing uninstalling non_registered : WslState

pub record StateManager : Type 0 where
  pub refcount : ℕ  -- uint32
  pub cancel : Option ℕ  -- nil, or the cancel function of a context
  pub live : List ℕ  -- the contexts that are not cancelled
  pub next : ℕ  -- the number of the next context

abbrev pub u32 : ℕ → ℕ
u32 n = n % 2 ^ 32

-- What a method does: it returns nil or an error, or it calls a nil function.
pub data Outcome (E : Type 0) : Type 0 where
  done : Outcome E
  error : E → Outcome E
  panics : Outcome E

pub data ReleaseError : Type 0 where
  excess_calls : ReleaseError

is_running : WslState → Bool
is_running running = true
is_running _ = false

-- Calling the cancel function of a context; a second call does nothing.
stop_context : ℕ → StateManager → StateManager
stop_context id m = record m { live = reject (λ c. c == id) m.live }

-- What is left of lock from context.WithCancel on: `touch` is the error of the first Touch.
keep_awake : {E : Type 0} → Option E → StateManager → StateManager × Outcome E
keep_awake (some e) m = (record m { next = m.next + 1 }, error e)
keep_awake none m = (
  record {
    refcount = u32 (m.refcount + 1);
    cancel = some m.next;
    live = m.next ∷ m.live;
    next = m.next + 1;
  },
  done,
)

restart : {E : Type 0} → Option E → StateManager → StateManager × Outcome E
unfolding keep_awake stop_context
restart touch m = elim m.cancel [
  | none ↦ (m, panics)
  | some id ↦ keep_awake touch (stop_context id m)
]

lock_held : {E : Type 0} → Result E WslState → Option E → StateManager → StateManager × Outcome E
unfolding restart is_running
lock_held (err e) touch m = (m, error e)
lock_held (ok s) touch m =
    if is_running s then (record m { refcount = u32 (m.refcount + 1) }, done) else restart touch m

unfoldable pub lock :
    {E : Type 0} → Result E WslState → Option E → StateManager → StateManager × Outcome E
unfolding lock_held keep_awake
lock state touch m = if ltb 0 m.refcount then lock_held state touch m else keep_awake touch m

-- m.cancel(); m.cancel = nil
drop_cancel : {E : Type 0} → StateManager → StateManager × Outcome E
unfolding stop_context
drop_cancel m = elim m.cancel [
  | none ↦ (m, panics)
  | some id ↦ (record (stop_context id m) { cancel = none }, done)
]

unfoldable pub release : StateManager → StateManager × Outcome ReleaseError
unfolding drop_cancel
release m =
    if m.refcount == 0
    then (m, error excess_calls)
    else (if ltb 0 (m.refcount - 1)
        then (record m { refcount = m.refcount - 1 }, done)
        else drop_cancel (record m { refcount = m.refcount - 1 }))

unfoldable pub reset : StateManager → StateManager × Outcome ReleaseError
unfolding drop_cancel
reset m =
    if m.refcount == 0
    then (record m { cancel = none }, done)
    else drop_cancel (record m { refcount = 0 })

-- A stateManager as distro.New makes it.
unfoldable pub new_state_manager : StateManager
new_state_manager = record { refcount = 0; cancel = none; live = []; next = 0 }
