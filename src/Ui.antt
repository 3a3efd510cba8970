-- ===== src/Ui.antt =====
-- windows-agent/internal/proservices/ui/ui.go: what the user interface asks of the agent.
use ubuntu_pro_for_wsl.Prelude.{List, [], ◌∷◌, ◌++◌, Option, none, some, Result, ok, err, String}
use ubuntu_pro_for_wsl.ConfigSource.{
  Source, source_none, source_user, source_microsoft_store, source_registry,
}
use ubuntu_pro_for_wsl.ClientConfig.{Ini}
use ubuntu_pro_for_wsl.Config.{
  ConfigCodec, Config, Io, ConfigError, Notification, Answer, subscription, landscape_client_config,
  set_user_subscription, set_user_landscape_config,
}
use ubuntu_pro_for_wsl.UbuntuPro.{FetchAnswers, FetchError, fetch_from_microsoft_store}

-- The types of SubscriptionInfo and LandscapeSource.
pub data SubscriptionType : Type 0 where
  no_subscription user_subscription organization_subscription store_subscription : SubscriptionType

pub data LandscapeType : Type 0 where
  no_landscape user_landscape organization_landscape : LandscapeType

pub data UiError (E : Type 0) : Type 0 where
  unreadable : E → UiError E
  from_config : ConfigError E → UiError E
  from_fetch : FetchError E → UiError E
  unrecognized : UiError E

unfoldable pub subscription_type : Source → SubscriptionType
subscription_type source_none = no_subscription
subscription_type source_user = user_subscription
subscription_type source_registry = organization_subscription
subscription_type source_microsoft_store = store_subscription

unfoldable pub landscape_type : Source → Option LandscapeType
landscape_type source_none = some no_landscape
landscape_type source_user = some user_landscape
landscape_type source_registry = some organization_landscape
landscape_type source_microsoft_store = none

-- The configuration, and a result.
abbrev pub Got : Type 0 → Type 0 → Type 0 → Type 0
Got E Bytes A = Config Bytes × Result (UiError E) A

module _ {E Bytes : Type 0} (codec : ConfigCodec E Bytes) where
  unfoldable pub get_subscription_source : Io E Bytes → Config Bytes → Got E Bytes SubscriptionType
  unfolding subscription_type
  get_subscription_source io c =
      let (c', r) = subscription codec io c in
      (c', elim r [ err e ↦ err (unreadable e) | ok (_, source) ↦ ok (subscription_type source) ])

  unfoldable pub get_landscape_config_source : Io E Bytes → Config Bytes → Got E Bytes LandscapeType
  unfolding landscape_type
  get_landscape_config_source io c =
      let (c', r) = landscape_client_config codec io c in
      (
        c',
        elim r [
          | err e ↦ err (unreadable e)
          | ok (_, source) ↦ elim (landscape_type source) [
            | none ↦ err unrecognized
            | some kind ↦ ok kind
          ]
        ],
      )

  -- GetConfigSources
  unfoldable pub get_config_sources :
      Io E Bytes → Io E Bytes → Config Bytes → Got E Bytes (SubscriptionType × LandscapeType)
  get_config_sources io io' c =
      let (c', r) = get_subscription_source io c in
      elim r [
        | err e ↦ (c', err e)
        | ok subscribed ↦
            let (c'', r') = get_landscape_config_source io' c' in
            (c'', elim r' [ err e ↦ err e | ok landscape ↦ ok (subscribed, landscape) ])
      ]

  -- The response to a change, after its result.
  unfoldable pub respond :
      {A : Type 0}
      → (Config Bytes → Got E Bytes A)
      → Answer E Bytes (Unit {0})
      → Config Bytes × Result (UiError E) A × List Notification
  respond get (c, err e, notes) = (c, err (from_config e), notes)
  respond get (c, ok _, notes) = let (c', r) = get c in (c', r, notes)

  -- ApplyProToken
  unfoldable pub apply_pro_token :
      Io E Bytes
      → Io E Bytes
      → Io E Bytes
      → String
      → Config Bytes
      → Config Bytes × Result (UiError E) SubscriptionType × List Notification
  unfolding respond
  apply_pro_token get_io set_io io token c =
      respond (get_subscription_source io) (set_user_subscription codec get_io set_io token c)

  -- ApplyLandscapeConfig
  unfoldable pub apply_landscape_config :
      {Doc : Type 0}
      → Ini E Doc
      → Io E Bytes
      → Io E Bytes
      → String
      → Config Bytes
      → Config Bytes × Result (UiError E) LandscapeType × List Notification
  unfolding respond
  apply_landscape_config ini set_io io conf c =
      respond (get_landscape_config_source io) (set_user_landscape_config codec ini set_io conf c)

  -- NotifyPurchase: the errors are joined, and the response is nil if the subscription cannot be read.
  unfoldable pub notify_purchase :
      FetchAnswers E Bytes
      → Io E Bytes
      → Config Bytes
      → Config Bytes × Option SubscriptionType × List (UiError E)
  notify_purchase a io c =
      let (c', r, notes, asked) = fetch_from_microsoft_store codec a c in
      let (c'', r') = get_subscription_source io c' in
      let errs : List (UiError E) = elim r [ err e ↦ from_fetch e ∷ [] | ok _ ↦ [] ] in
      elim r' [ ok kind ↦ (c'', some kind, errs) | err e ↦ (c'', none, errs ++ e ∷ []) ]
