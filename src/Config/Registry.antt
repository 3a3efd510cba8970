-- ===== src/Config/Registry.antt =====
-- The methods of windows-agent/internal/config/config.go that take in the data of the registry and
-- the UID that the Landscape server assigns.
use ubuntu_pro_for_wsl.Prelude.{
  Bool, true, false, List, [], ◌∷◌, ◌++◌, Option, none, some, Result, ok, err, String, str_eq,
  is_empty, if◌then◌else◌,
}
use ubuntu_pro_for_wsl.ConfigSource.{
  Source, source_none, source_user, source_microsoft_store, source_registry, LandscapeConf,
  resolve_subscription, resolve_landscape,
}
use ubuntu_pro_for_wsl.ClientConfig.{Ini, complete_landscape_config}
use ubuntu_pro_for_wsl.Config.{
  ConfigState, ConfigCodec, Config, Io, ConfigError, failed, unexpected_source, Notification,
  ubuntu_pro, landscape_client, load, dump, Answer,
}

-- RegistryData
pub record RegistryData : Type 0 where
  pub ubuntu_pro_token : String
  pub landscape_config : String

-- hasChanged: the checksum that it leaves, and its result. `digest` is the SHA-512 in base 64.
unfoldable pub has_changed : (String → String) → String → String → String × Bool
has_changed digest new_value checksum =
    let new_checksum = if is_empty new_value then "" else digest new_value in
    if str_eq checksum new_checksum then (checksum, false) else (new_checksum, true)

-- The part of UpdateRegistryData about the Ubuntu Pro subscription.
unfoldable pub take_token :
    (String → String) → RegistryData → ConfigState → ConfigState × List Notification
unfolding has_changed
take_token digest incoming s =
    let (checksum, changed) =
      has_changed digest incoming.ubuntu_pro_token s.subscription.checksum in
    let sub = record (s.subscription) {
      organization = incoming.ubuntu_pro_token;
      checksum = checksum;
    } in
    (
      record s { subscription = sub },
      if changed then ubuntu_pro (resolve_subscription sub).0 ∷ [] else [],
    )

-- The part about the Landscape configuration, once it is completed.
unfoldable pub take_landscape :
    (String → String) → String → ConfigState → ConfigState × List Notification
unfolding has_changed
take_landscape digest conf s =
    let (checksum, changed) = has_changed digest conf s.landscape.checksum in
    let land = record (s.landscape) {
      org_config = if changed then conf else s.landscape.org_config;
      checksum = checksum;
    } in
    (
      record s { landscape = land },
      if changed then landscape_client (resolve_landscape land).0 land.uid ∷ [] else [],
    )

-- A configuration that cannot be completed is dropped.
unfoldable pub completed_or_empty : {E : Type 0} → Result E String → String
completed_or_empty (ok conf) = conf
completed_or_empty (err e) = ""

-- An assignment to the field of the source; `none` is the default case of the switch.
unfoldable pub put_client_conf : Source → String → LandscapeConf → Option LandscapeConf
put_client_conf source_user conf p = some (record p { user_config = conf })
put_client_conf source_registry conf p = some (record p { org_config = conf })
put_client_conf source_none conf p = none
put_client_conf source_microsoft_store conf p = none

-- The end of a method that returned an error or not, with what it defers.
unfoldable pub settle :
    {E Bytes : Type 0}
    → List Notification
    → Config Bytes × Result E (Unit {0})
    → Answer E Bytes (Unit {0})
settle notes (c, ok _) = (c, ok tt, notes)
settle notes (c, err e) = (c, err (failed e), notes)

module _ {E Bytes Doc : Type 0} (codec : ConfigCodec E Bytes) (ini : Ini E Doc) where
  unfoldable pub take_registry_data :
      (String → String) → RegistryData → ConfigState → ConfigState × List Notification
  take_registry_data digest incoming s =
      let (s', notes) = take_token digest incoming s in
      let conf =
        completed_or_empty
          (complete_landscape_config ini incoming.landscape_config s'.landscape.uid) in
      let (s'', more) = take_landscape digest conf s' in (s'', notes ++ more)

  -- UpdateRegistryData: what it defers is done whatever dump returns.
  unfoldable pub update_registry_data :
      (String → String) → Io E Bytes → RegistryData → Config Bytes → Answer E Bytes (Unit {0})
  unfolding settle
  update_registry_data digest io incoming c =
      let (c', r) = load codec io c in
      elim r [
        | err e ↦ (c', err (failed e), [])
        | ok _ ↦
            let (s, notes) = take_registry_data digest incoming c'.state in
            settle notes (dump codec io (record c' { state = s }))
      ]

  -- setAgentUIDAndUpdateClientConf once the new client configuration is known: the assignments, and
  -- the rollback if dump returns an error.
  unfoldable pub assign_uid :
      Io E Bytes
      → String
      → String
      → String
      → Source
      → Config Bytes
      → Config Bytes × Result (ConfigError E) String
  assign_uid io uid old updated src c = elim (put_client_conf src updated c.state.landscape) [
    | none ↦ (c, err unexpected_source)
    | some land ↦
        let (c', r) =
          dump codec io
            (record c { state = record (c.state) { landscape = record land { uid = uid } } }) in
        elim r [
          | ok _ ↦ (c', ok updated)
          | err e ↦
              let back = record (c'.state.landscape) { uid = c.state.landscape.uid } in
              (
                record c' {
                  state = record (c'.state) {
                    landscape = elim (put_client_conf src old back) [ none ↦ back | some l ↦ l ];
                  };
                },
                err (failed e),
              )
        ]
  ]

  unfoldable pub update_client_conf :
      Io E Bytes
      → String
      → String × Source
      → Config Bytes
      → Config Bytes × Result (ConfigError E) String
  update_client_conf io uid (conf, source_none) c = (c, ok "")
  update_client_conf io uid (conf, src) c = elim (complete_landscape_config ini conf uid) [
    | err e ↦ (c, err (failed e))
    | ok updated ↦ assign_uid io uid conf updated src c
  ]

  unfoldable pub set_agent_uid_and_update_client_conf :
      Io E Bytes → String → Config Bytes → Config Bytes × Result (ConfigError E) String
  set_agent_uid_and_update_client_conf io uid c =
      let (c', r) = load codec io c in
      elim r [
        | err e ↦ (c', err (failed e))
        | ok _ ↦
            if str_eq c'.state.landscape.uid uid
            then (c', ok "")
            else update_client_conf io uid (resolve_landscape c'.state.landscape) c'
      ]

  -- SetLandscapeAgentUID
  unfoldable pub set_landscape_agent_uid :
      Io E Bytes → String → Config Bytes → Answer E Bytes (Unit {0})
  set_landscape_agent_uid io uid c =
      let (c', r) = set_agent_uid_and_update_client_conf io uid c in
      elim r [
        | err e ↦ (c', err e, [])
        | ok conf ↦ (c', ok tt, if is_empty conf then [] else landscape_client conf uid ∷ [])
      ]
