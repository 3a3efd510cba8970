-- ===== src/Landscape/HostInfo/Instances.antt =====
-- Which distros newHostAgentInfo of windows-agent/internal/proservices/landscape/utils.go lists.
use ubuntu_pro_for_wsl.Prelude.{
  ◌≡◌, refl, ap, ◌∙◌, Bool, true, false, List, [], ◌∷◌, Result, ok, err, String, map, if◌then◌else◌,
  reject, not,
}
use ubuntu_pro_for_wsl.StateManager.{
  WslState, stopped, running, installing, uninstalling, non_registered,
}
use ubuntu_pro_for_wsl.Distro.{Distro}
use ubuntu_pro_for_wsl.Database.{DistroMap}
use ubuntu_pro_for_wsl.Landscape.HostInfo.{
  StateAnswers, InstanceInfo, InstanceState, instance_running, instance_stopped, InstanceError,
  after_retry, retry_state, try_distro_state, instance_state_of, instance_in, new_instance_info,
  instances_of,
}

-- The first answer that is no error, the first try included.
abbrev pub first_ok : {E : Type 0} → List (Result E WslState) → Result (Unit {0}) WslState
first_ok [] = err tt
first_ok (ok s ∷ rs) = ok s
first_ok (err e ∷ rs) = first_ok rs

abbrev pub is_listed : Result (Unit {0}) WslState → Bool
is_listed (ok running) = true
is_listed (ok stopped) = true
is_listed _ = false

-- The instance that stands for a distro in a state.
abbrev pub described : {Bytes : Type 0} → Distro Bytes → InstanceState → InstanceInfo
described d s = record {
  id = d.identity.name;
  name = d.properties.hostname;
  version_id = d.properties.version_id;
  instance_state = s;
}

abbrev pub state_of : Result (Unit {0}) WslState → InstanceState
state_of (ok running) = instance_running
state_of _ = instance_stopped

abbrev pub answered_first : {E : Type 0} → StateAnswers E → Result (Unit {0}) WslState
answered_first a = first_ok (a.first ∷ a.retries)

module _ {E Bytes : Type 0} (answers : String → StateAnswers E) where
  abbrev pub listed : DistroMap Bytes → DistroMap Bytes
  listed ds = reject (λ e. not (is_listed (answered_first (answers e.0)))) ds

  abbrev made : Distro Bytes → Result E WslState → Result (InstanceError E) InstanceInfo
  made d r = elim r [ err e ↦ err (after_retry e) | ok s ↦ instance_in d (instance_state_of s) ]

  instance_by_state :
      (d : Distro Bytes) (first : Result E WslState) (rs : List (Result E WslState))
      (rest : List InstanceInfo)
      → elim (made d (retry_state first rs)) [ err _ ↦ rest | ok info ↦ info ∷ rest ] ≡ (
          if is_listed (first_ok (first ∷ rs))
          then described d (state_of (first_ok (first ∷ rs))) ∷ rest
          else rest)
  unfolding retry_state instance_in instance_state_of
  instance_by_state d (ok running) rs rest = refl
  instance_by_state d (ok stopped) rs rest = refl
  instance_by_state d (ok installing) rs rest = refl
  instance_by_state d (ok uninstalling) rs rest = refl
  instance_by_state d (ok non_registered) rs rest = refl
  instance_by_state d (err e) [] rest = refl
  instance_by_state d (err e) (r ∷ rs) rest = instance_by_state d r rs rest

  -- newHostAgentInfo lists, in the order of the database, the distros whose first state that WSL
  -- answers before the timer goes off is running or stopped, each with its name, its host name, its
  -- version and that state.
  pub instances_of-listed :
      (ds : DistroMap Bytes)
      → instances_of answers ds
        ≡ map (λ e. described e.1 (state_of (answered_first (answers e.0)))) (listed ds)
  unfolding instances_of new_instance_info try_distro_state
  instances_of-listed [] = refl
  instances_of-listed ((n, d) ∷ ds) =
      instance_by_state d (answers n).first (answers n).retries (instances_of answers ds)
      ∙ listed_or (is_listed (answered_first (answers n))) (instances_of-listed ds)
    where
      info : InstanceInfo
      info = described d (state_of (answered_first (answers n)))

      listed_or :
          (b : Bool)
          → instances_of answers ds
            ≡ map (λ e. described e.1 (state_of (answered_first (answers e.0)))) (listed ds)
          → (if b then info ∷ instances_of answers ds else instances_of answers ds)
            ≡ map
                (λ e. described e.1 (state_of (answered_first (answers e.0))))
                (if not b then listed ds else (n, d) ∷ listed ds)
      listed_or true h = ap (◌∷◌ info) h
      listed_or false h = h
