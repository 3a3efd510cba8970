-- ===== src/Config.antt =====
-- windows-agent/internal/config/config.go and config_marshal.go: the configuration of the agent, and
-- its file. The YAML library, SHA-512 and the ini package are arguments. A method returns what it
-- hands to the notifiers too, in order.
pub mod Registry
pub mod Persistence
pub mod Priority
pub mod Restart
pub mod AgentUid
pub mod Examples
use ubuntu_pro_for_wsl.Prelude.{
  Bool, true, false, List, [], ◌∷◌, ◌++◌, Option, none, some, Result, ok, err, ◌>>=◌, String,
  str_eq, is_empty, if◌then◌else◌, ltb,
}
use ubuntu_pro_for_wsl.ConfigSource.{
  Source, source_none, source_user, source_microsoft_store, source_registry, rank, Subscription,
  LandscapeConf, resolve_subscription, resolve_landscape,
}
use ubuntu_pro_for_wsl.ClientConfig.{Ini, complete_landscape_config}

pub record ConfigState : Type 0 where
  pub subscription : Subscription
  pub landscape : LandscapeConf

-- What the YAML library reads and writes: the fields of configState without those tagged `-`.
pub record StoredConfig : Type 0 where
  pub user : String
  pub store : String
  pub subscription_checksum : String
  pub user_config : String
  pub uid : String
  pub landscape_checksum : String

-- yaml.Marshal and yaml.Unmarshal; `no_bytes` is the empty text.
pub record ConfigCodec (E Bytes : Type 0) : Type 0 where
  pub marshal : StoredConfig → Result E Bytes
  pub unmarshal : Bytes → Result E StoredConfig
  pub no_bytes : Bytes

-- The configuration, and its file.
pub record Config (Bytes : Type 0) : Type 0 where
  pub state : ConfigState
  pub file : Option Bytes

unfoldable pub empty_state : ConfigState
empty_state = record {
  subscription = record { user = ""; store = ""; organization = ""; checksum = "" };
  landscape = record { user_config = ""; org_config = ""; uid = ""; checksum = "" };
}

-- New, over the file that is there.
unfoldable pub new_config : {Bytes : Type 0} → Option Bytes → Config Bytes
new_config file = record { state = empty_state; file = file }

-- What goes wrong in one call: os.ReadFile on a file that is there, and os.WriteFile, with what it
-- leaves of the file.
pub record Io (E Bytes : Type 0) : Type 0 where
  pub read_error : Option E
  pub write_error : Option (E × Option Bytes)

pub data ConfigError (E : Type 0) : Type 0 where
  failed : E → ConfigError E
  higher_priority : ConfigError E
  unexpected_source : ConfigError E

-- What a notifier is called with.
pub data Notification : Type 0 where
  ubuntu_pro : String → Notification
  landscape_client : String → String → Notification

-- The fields that `set` is called with.
pub data Field : Type 0 where
  user_token store_token user_landscape : Field

unfoldable pub get_field : Field → ConfigState → String
get_field user_token s = s.subscription.user
get_field store_token s = s.subscription.store
get_field user_landscape s = s.landscape.user_config

unfoldable pub put_field : Field → String → ConfigState → ConfigState
put_field user_token v s = record s { subscription = record (s.subscription) { user = v } }
put_field store_token v s = record s { subscription = record (s.subscription) { store = v } }
put_field user_landscape v s = record s { landscape = record (s.landscape) { user_config = v } }

unfoldable pub stored : ConfigState → StoredConfig
stored s = record {
  user = s.subscription.user;
  store = s.subscription.store;
  subscription_checksum = s.subscription.checksum;
  user_config = s.landscape.user_config;
  uid = s.landscape.uid;
  landscape_checksum = s.landscape.checksum;
}

-- The state that load leaves: what was read, and the registry data that it had.
unfoldable pub loaded : StoredConfig → ConfigState → ConfigState
loaded r s = record {
  subscription = record {
    user = r.user;
    store = r.store;
    organization = s.subscription.organization;
    checksum = r.subscription_checksum;
  };
  landscape = record {
    user_config = r.user_config;
    org_config = s.landscape.org_config;
    uid = r.uid;
    checksum = r.landscape_checksum;
  };
}

module _ {E Bytes : Type 0} (codec : ConfigCodec E Bytes) where
  -- A file that does not exist is read as an empty one.
  unfoldable pub read_file : Option E → Option Bytes → Result E Bytes
  read_file _ none = ok codec.no_bytes
  read_file (some e) (some b) = err e
  read_file none (some b) = ok b

  unfoldable pub load : Io E Bytes → Config Bytes → Config Bytes × Result E (Unit {0})
  unfolding read_file
  load io c = elim (read_file io.read_error c.file >>= codec.unmarshal) [
    | err e ↦ (c, err e)
    | ok r ↦ (record c { state = loaded r c.state }, ok tt)
  ]

  unfoldable pub write_file :
      Option (E × Option Bytes) → Bytes → Config Bytes → Config Bytes × Result E (Unit {0})
  write_file none b c = (record c { file = some b }, ok tt)
  write_file (some (e, left)) b c = (record c { file = left }, err e)

  unfoldable pub dump : Io E Bytes → Config Bytes → Config Bytes × Result E (Unit {0})
  unfolding write_file
  dump io c = elim (codec.marshal (stored c.state)) [
    | err e ↦ (c, err e)
    | ok b ↦ write_file io.write_error b c
  ]

  -- `*field = value`, undone if dump returns an error.
  unfoldable pub assign : Io E Bytes → Field → String → Config Bytes → Config Bytes × Result E Bool
  assign io field value c =
      let (c', r) = dump io (record c { state = put_field field value c.state }) in
      elim r [
        | ok _ ↦ (c', ok true)
        | err e ↦ (record c' { state = put_field field (get_field field c.state) c'.state }, err e)
      ]

  unfoldable pub set : Io E Bytes → Field → String → Config Bytes → Config Bytes × Result E Bool
  set io field value c =
      let (c', r) = load io c in
      elim r [
        | err e ↦ (c', err e)
        | ok _ ↦
            if str_eq (get_field field c'.state) value
            then (c', ok false)
            else assign io field value c'
      ]

  unfoldable pub get : Io E Bytes → Config Bytes → Config Bytes × Result E ConfigState
  unfolding load
  get io c = let (c', r) = load io c in elim r [ err e ↦ (c', err e) | ok _ ↦ (c', ok c'.state) ]

  -- Subscription
  unfoldable pub subscription :
      Io E Bytes → Config Bytes → Config Bytes × Result E (String × Source)
  unfolding get
  subscription io c =
      let (c', r) = get io c in (c', r >>= λ s. ok (resolve_subscription s.subscription))

  -- LandscapeClientConfig
  unfoldable pub landscape_client_config :
      Io E Bytes → Config Bytes → Config Bytes × Result E (String × Source)
  unfolding get
  landscape_client_config io c =
      let (c', r) = get io c in (c', r >>= λ s. ok (resolve_landscape s.landscape))

  -- LandscapeAgentUID
  unfoldable pub landscape_agent_uid : Io E Bytes → Config Bytes → Config Bytes × Result E String
  unfolding get
  landscape_agent_uid io c = let (c', r) = get io c in (c', r >>= λ s. ok s.landscape.uid)

-- What a method returns: the configuration, its result, and what it notifies.
abbrev pub Answer : Type 0 → Type 0 → Type 0 → Type 0
Answer E Bytes A = Config Bytes × Result (ConfigError E) A × List Notification

-- The notification that follows a `set` that changed something.
unfoldable pub notified :
    {E Bytes : Type 0}
    → (Config Bytes → Notification)
    → Config Bytes × Result E Bool
    → Answer E Bytes (Unit {0})
notified note (c, err e) = (c, err (failed e), [])
notified note (c, ok true) = (c, ok tt, note c ∷ [])
notified note (c, ok false) = (c, ok tt, [])

module _ {E Bytes : Type 0} (codec : ConfigCodec E Bytes) where
  -- SetUserSubscription and SetStoreSubscription, which differ in the field and its source. `io` is
  -- for `get`, and `io'` for `set`.
  unfoldable pub set_subscription :
      Field → Source → Io E Bytes → Io E Bytes → String → Config Bytes → Answer E Bytes (Unit {0})
  set_subscription field source io io' token c =
      let (c', r) = get codec io c in
      elim r [
        | err e ↦ (c', err (failed e), [])
        | ok s ↦
            if ltb (rank source) (rank (resolve_subscription s.subscription).1)
            then (c', err higher_priority, [])
            else notified (λ _. ubuntu_pro token) (set codec io' field token c')
      ]

  unfoldable pub set_user_subscription :
      Io E Bytes → Io E Bytes → String → Config Bytes → Answer E Bytes (Unit {0})
  set_user_subscription = set_subscription user_token source_user

  unfoldable pub set_store_subscription :
      Io E Bytes → Io E Bytes → String → Config Bytes → Answer E Bytes (Unit {0})
  set_store_subscription = set_subscription store_token source_microsoft_store

  -- SetUserLandscapeConfig: the state is read before it is loaded.
  unfoldable pub set_user_landscape_config :
      {Doc : Type 0} → Ini E Doc → Io E Bytes → String → Config Bytes → Answer E Bytes (Unit {0})
  set_user_landscape_config ini io conf c =
      if ltb (rank source_user) (rank (resolve_landscape c.state.landscape).1)
      then (c, err higher_priority, [])
      else elim (complete_landscape_config ini conf c.state.landscape.uid) [
        | err e ↦ (c, err (failed e), [])
        | ok completed ↦
            notified (λ c'. landscape_client completed c'.state.landscape.uid)
              (set codec io user_landscape completed c)
      ]
