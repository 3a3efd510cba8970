-- ===== src/Distro.antt =====
-- windows-agent/internal/distros/distro: distro.go and properties.go. What the Windows registry and
-- WSL answer to a call is an argument; `none` is a panic.
use ubuntu_pro_for_wsl.Prelude.{
  ℕ, zero, suc, Bool, true, false, ◌&&◌, List, Option, none, some, Result, ok, err, String, str_eq,
  ◌==◌, if◌then◌else◌,
}
use ubuntu_pro_for_wsl.Storage.{Disk, Faults}
use ubuntu_pro_for_wsl.Task.{Task}
use ubuntu_pro_for_wsl.TaskManager.{Codec}
use ubuntu_pro_for_wsl.StateManager.{
  StateManager, WslState, Outcome, done, error, panics, lock, release, reset, new_state_manager,
}
use ubuntu_pro_for_wsl.Worker.{
  Worker, is_active, set_connection, stop, submit_tasks, submit_deferred_tasks, new_worker,
}

pub record Identity : Type 0 where
  pub name : String
  pub guid : ℕ  -- uuid.UUID; zero is the nil UUID

pub record Properties : Type 0 where
  pub distro_id : String
  pub version_id : String
  pub pretty_name : String
  pub hostname : String
  pub pro_attached : Bool

pub record Distro (Bytes : Type 0) : Type 0 where
  pub identity : Identity
  pub properties : Properties
  pub invalidated : Bool
  pub worker : Worker Bytes
  pub state_manager : StateManager

-- The GUID that the registry holds under the distro's name: wsl.ErrNotExist, or another error.
pub data RegistryAnswer : Type 0 where
  registered : ℕ → RegistryAnswer
  not_exist : RegistryAnswer
  inaccessible : RegistryAnswer

pub data DistroError (E : Type 0) : Type 0 where
  not_valid : DistroError E
  from_wsl : E → DistroError E
  from_worker : E → DistroError E
  excess_release : DistroError E

-- identity.isValid
unfoldable pub identity_is_valid : Identity → RegistryAnswer → Option Bool
identity_is_valid id not_exist = some false
identity_is_valid id inaccessible = none
identity_is_valid id (registered guid) = some (id.guid == guid)

-- What WSL answers to a call of LockAwake: the registry, the state of the distro, the first Touch.
pub record Answers (E : Type 0) : Type 0 where
  pub registry : RegistryAnswer
  pub state : Result E WslState
  pub touch : Option E

unfoldable pub bool_eq : Bool → Bool → Bool
bool_eq true true = true
bool_eq false false = true
bool_eq true false = false
bool_eq false true = false

-- d.properties == p
unfoldable pub properties_eq : Properties → Properties → Bool
unfolding bool_eq
properties_eq p q =
    str_eq p.distro_id q.distro_id
    && str_eq p.version_id q.version_id
    && str_eq p.pretty_name q.pretty_name
    && str_eq p.hostname q.hostname
    && bool_eq p.pro_attached q.pro_attached

-- The monad of the methods: a state, and a panic.
abbrev pub M : Type 0 → Type 0 → Type 0
M Bytes A = Distro Bytes → Option (A × Distro Bytes)

infixl 5 ◌>>=◌
abbrev pub ◌>>=◌ : {Bytes A B : Type 0} → M Bytes A → (A → M Bytes B) → M Bytes B
◌>>=◌ m f d = elim (m d) [ none ↦ none | some (a, d') ↦ f a d' ]

abbrev pub return : {Bytes A : Type 0} → A → M Bytes A
return a d = some (a, d)

module _ {Bytes : Type 0} where
  unfoldable pub invalidate : M Bytes (Unit {0})
  invalidate d = some (tt, record d { invalidated = true })

  check_identity : Option Bool → M Bytes Bool
  check_identity none d = none
  check_identity (some true) d = some (true, d)
  check_identity (some false) d = some (false, record d { invalidated = true })

  unfoldable pub is_valid : RegistryAnswer → M Bytes Bool
  unfolding check_identity identity_is_valid
  is_valid answer d =
      if d.invalidated
      then some (false, d)
      else check_identity (identity_is_valid d.identity answer) d

  -- A method that returns a NotValidError on a distro that is not valid.
  unfoldable pub if_valid :
      {E A : Type 0}
      → RegistryAnswer
      → M Bytes (Result (DistroError E) A)
      → M Bytes (Result (DistroError E) A)
  if_valid answer m = do valid ← is_valid answer; if valid then m else return (err not_valid)

  unfoldable pub settle_lock :
      {E : Type 0} → StateManager × Outcome E → M Bytes (Result (DistroError E) (Unit {0}))
  settle_lock (m, done) d = some (ok tt, record d { state_manager = m })
  settle_lock (m, error e) d = some (err (from_wsl e), record d { state_manager = m })
  settle_lock (m, panics) d = none

  unfoldable pub lock_awake : {E : Type 0} → Answers E → M Bytes (Result (DistroError E) (Unit {0}))
  lock_awake a = if_valid a.registry (λ d. settle_lock (lock a.state a.touch d.state_manager) d)

  unfoldable pub settle_release :
      {E X : Type 0} → StateManager × Outcome X → M Bytes (Result (DistroError E) (Unit {0}))
  settle_release (m, done) d = some (ok tt, record d { state_manager = m })
  settle_release (m, error e) d = some (err excess_release, record d { state_manager = m })
  settle_release (m, panics) d = none

  unfoldable pub release_awake :
      {E : Type 0} → RegistryAnswer → M Bytes (Result (DistroError E) (Unit {0}))
  release_awake answer = if_valid answer (λ d. settle_release (release d.state_manager) d)

  unfoldable pub set_properties : Properties → Distro Bytes → Distro Bytes × Bool
  set_properties p d =
      if properties_eq d.properties p then (d, false) else (record d { properties = p }, true)

  unfoldable pub distro_is_active :
      {E : Type 0} → RegistryAnswer → M Bytes (Result (DistroError E) Bool)
  unfolding if_valid
  distro_is_active answer = if_valid answer (λ d. some (ok (is_active d.worker), d))

  unfoldable pub connection :
      {E : Type 0} → RegistryAnswer → M Bytes (Result (DistroError E) (Option ℕ))
  unfolding if_valid
  connection answer = if_valid answer (λ d. some (ok d.worker.conn, d))

  put_connection : {E : Type 0} → Option ℕ → M Bytes (Result (DistroError E) (Unit {0}))
  put_connection conn d = some (ok tt, record d { worker = set_connection conn d.worker })

  unfoldable pub distro_set_connection :
      {E : Type 0} → RegistryAnswer → Option ℕ → M Bytes (Result (DistroError E) (Unit {0}))
  unfolding if_valid put_connection
  distro_set_connection answer none = put_connection none
  distro_set_connection answer (some c) = if_valid answer (put_connection (some c))

  -- Uninstall, with what WSL answers. getDistro asks the registry alone whether the distro is valid.
  unfoldable pub distro_uninstall :
      {E : Type 0} → RegistryAnswer → Option E → M Bytes (Result (DistroError E) (Unit {0}))
  unfolding identity_is_valid
  distro_uninstall answer wsl d = elim (identity_is_valid d.identity answer) [
    | none ↦ none
    | some false ↦ some (err not_valid, d)
    | some true ↦ elim wsl [ none ↦ some (ok tt, d) | some e ↦ some (err (from_wsl e), d) ]
  ]

  settle_cleanup : {X : Type 0} → StateManager × Outcome X → Distro Bytes → Option (Distro Bytes)
  settle_cleanup (m, panics) d = none
  settle_cleanup (m, _) d = some (record d { worker = stop d.worker; state_manager = m })

  -- Cleanup: the state manager is reset once the worker has stopped.
  unfoldable pub cleanup : Distro Bytes → Option (Distro Bytes)
  unfolding settle_cleanup
  cleanup d = settle_cleanup (reset d.state_manager) d

module _ {E Bytes : Type 0} (codec : Codec E Task Bytes) (io : Faults E Bytes) where
  unfoldable pub settle_submit :
      Worker Bytes × Result E (Unit {0}) → M Bytes (Result (DistroError E) (Unit {0}))
  settle_submit (w, ok _) d = some (ok tt, record d { worker = w })
  settle_submit (w, err e) d = some (err (from_worker e), record d { worker = w })

  unfoldable pub distro_submit_tasks :
      RegistryAnswer → List Task → M Bytes (Result (DistroError E) (Unit {0}))
  unfolding if_valid settle_submit
  distro_submit_tasks answer ts =
      if_valid answer (λ d. settle_submit (submit_tasks codec io ts d.worker) d)

  unfoldable pub distro_submit_deferred_tasks :
      RegistryAnswer → List Task → M Bytes (Result (DistroError E) (Unit {0}))
  unfolding if_valid settle_submit
  distro_submit_deferred_tasks answer ts =
      if_valid answer (λ d. settle_submit (submit_deferred_tasks codec io ts d.worker) d)

  -- The GUID that New takes on: the one given, if the registry holds it, or else the registry's.
  unfoldable pub new_identity :
      String → ℕ → RegistryAnswer → Option (Result (DistroError E) Identity)
  unfolding identity_is_valid
  new_identity name zero (registered guid) = some (ok (record { name = name; guid = guid }))
  new_identity name zero _ = some (err not_valid)
  new_identity name (suc g) answer =
      elim (identity_is_valid (record { name = name; guid = suc g }) answer) [
        | none ↦ none
        | some false ↦ some (err not_valid)
        | some true ↦ some (ok (record { name = name; guid = suc g }))
      ]

  unfoldable pub with_worker :
      Properties → Identity → Result E (Worker Bytes) → Result (DistroError E) (Distro Bytes)
  with_worker props id (err e) = err (from_worker e)
  with_worker props id (ok w) = ok (record {
    identity = id;
    properties = props;
    invalidated = false;
    worker = w;
    state_manager = new_state_manager;
  })

  -- New, with a startup mutex. `guid` is that of WithGUID, or the nil UUID without it.
  unfoldable pub new_distro :
      String
      → ℕ
      → Properties
      → RegistryAnswer
      → Disk Bytes
      → Option (Result (DistroError E) (Distro Bytes))
  new_distro name guid props answer disk = elim (new_identity name guid answer) [
    | none ↦ none
    | some (err e) ↦ some (err e)
    | some (ok id) ↦ some (with_worker props id (new_worker codec io disk))
  ]
