-- ===== src/Landscape/HostInfo.antt =====
-- newHostAgentInfo, newInstanceInfo and tryDistroState of
-- windows-agent/internal/proservices/landscape/utils.go: what the agent tells the server about the
-- machine. What WSL answers is an argument.
pub mod Instances
use ubuntu_pro_for_wsl.Prelude.{
  Bool, true, false, List, [], ◌∷◌, Option, none, some, Result, ok, err, String, is_empty,
  if◌then◌else◌,
}
use ubuntu_pro_for_wsl.StateManager.{
  WslState, stopped, running, installing, uninstalling, non_registered,
}
use ubuntu_pro_for_wsl.Config.{ConfigCodec, Config, Io, landscape_agent_uid}
use ubuntu_pro_for_wsl.Distro.{Distro}
use ubuntu_pro_for_wsl.Database.{DistroMap}
use ubuntu_pro_for_wsl.Landscape.HostConf.{
  HostIni, HostConfError, unreadable, LandscapeHostConf, new_landscape_host_conf,
}

-- landscapeapi.InstanceState, as far as it is used.
pub data InstanceState : Type 0 where
  instance_running instance_stopped : InstanceState

-- HostAgentInfo_InstanceInfo
pub record InstanceInfo : Type 0 where
  pub id : String
  pub name : String
  pub version_id : String
  pub instance_state : InstanceState

-- HostAgentInfo
pub record HostAgentInfo : Type 0 where
  pub token : String
  pub uid : String
  pub hostname : String
  pub instances : List InstanceInfo
  pub account_name : String
  pub registration_key : Option String
  pub default_instance_id : Option String

-- What State answers: at first, and at each retry until the timer goes off.
pub record StateAnswers (E : Type 0) : Type 0 where
  pub first : Result E WslState
  pub retries : List (Result E WslState)

-- A newInstanceInfoMinorError, or another one.
pub data InstanceError (E : Type 0) : Type 0 where
  minor : WslState → InstanceError E
  after_retry : E → InstanceError E

-- The answers to newHostAgentInfo: to its reads of the configuration, about the distros, and about
-- the default distro, if there is one.
pub record InfoAnswers (E ConfBytes : Type 0) : Type 0 where
  pub subscription_io : Io E ConfBytes
  pub landscape_io : Io E ConfBytes
  pub uid_io : Io E ConfBytes
  pub states : String → StateAnswers E
  pub default_distro : Result E (Option String)

module _ {E : Type 0} where
  unfoldable pub retry_state : Result E WslState → List (Result E WslState) → Result E WslState
  retry_state (ok s) rs = ok s
  retry_state (err e) [] = err e
  retry_state (err e) (r ∷ rs) = retry_state r rs

  unfoldable pub try_distro_state : StateAnswers E → Result E WslState
  unfolding retry_state
  try_distro_state a = retry_state a.first a.retries

  unfoldable pub instance_state_of : WslState → Result (InstanceError E) InstanceState
  instance_state_of running = ok instance_running
  instance_state_of stopped = ok instance_stopped
  instance_state_of s = err (minor s)

module _ {E Bytes : Type 0} where
  unfoldable pub instance_in :
      Distro Bytes → Result (InstanceError E) InstanceState → Result (InstanceError E) InstanceInfo
  instance_in d (err e) = err e
  instance_in d (ok s) = ok (record {
    id = d.identity.name;
    name = d.properties.hostname;
    version_id = d.properties.version_id;
    instance_state = s;
  })

  unfoldable pub new_instance_info :
      StateAnswers E → Distro Bytes → Result (InstanceError E) InstanceInfo
  unfolding instance_state_of try_distro_state
  new_instance_info a d = elim (try_distro_state a) [
    | err e ↦ err (after_retry e)
    | ok s ↦ instance_in d (instance_state_of s)
  ]

  -- The loop of newHostAgentInfo. A distro with an error is skipped.
  unfoldable pub instances_of : (String → StateAnswers E) → DistroMap Bytes → List InstanceInfo
  instances_of answers [] = []
  instances_of answers ((n, d) ∷ ds) =
      let rest = instances_of answers ds in
      elim (new_instance_info (answers n) d) [ err _ ↦ rest | ok info ↦ info ∷ rest ]

-- An error about the default distro is logged.
unfoldable pub default_of : {E : Type 0} → Result E (Option String) → Option String
default_of (err e) = none
default_of (ok default) = default

unfoldable pub optional : String → Option String
optional key = if is_empty key then none else some key

module _ {E Doc ConfBytes : Type 0} (ini : HostIni E Doc)
    (conf_codec : ConfigCodec E ConfBytes) where
  -- What newHostAgentInfo returns of a host of a name and its distros.
  unfoldable pub new_host_agent_info :
      {Bytes : Type 0}
      → String
      → InfoAnswers E ConfBytes
      → DistroMap Bytes
      → Config ConfBytes
      → Config ConfBytes × Result (HostConfError E) HostAgentInfo
  unfolding default_of optional
  new_host_agent_info hostname a ds c =
      let (c', r) = new_landscape_host_conf ini conf_codec a.subscription_io a.landscape_io c in
      elim r [
        | err e ↦ (c', err e)
        | ok conf ↦
            let (c'', r') = landscape_agent_uid conf_codec a.uid_io c' in
            elim r' [
              | err e ↦ (c'', err (unreadable e))
              | ok uid ↦ (
                c'',
                ok (record {
                  token = conf.ubuntu_pro_token;
                  uid = uid;
                  hostname = hostname;
                  instances = instances_of a.states ds;
                  account_name = conf.account_name;
                  registration_key = optional conf.registration_key;
                  default_instance_id = default_of a.default_distro;
                }),
              )
            ]
      ]
