-- ===== src/UbuntuPro.antt =====
-- windows-agent/internal/ubuntupro: ubuntupro.go and contracts/contracts.go. What the Microsoft Store and
-- the contract server answer is an argument. A time is a number of seconds.
pub mod Fetching
pub mod Examples
use ubuntu_pro_for_wsl.Prelude.{
  ℕ, Bool, true, false, List, [], Option, none, some, Result, ok, err, ◌>>=◌, String, map_err, ltb,
  if◌then◌else◌,
}
use ubuntu_pro_for_wsl.Storage.{Faults}
use ubuntu_pro_for_wsl.Task.{Task, pro_attachment}
use ubuntu_pro_for_wsl.TaskManager.{Codec}
use ubuntu_pro_for_wsl.ConfigSource.{
  Source, source_none, source_user, source_microsoft_store, source_registry,
}
use ubuntu_pro_for_wsl.Config.{
  ConfigCodec, Config, Io, ConfigError, Notification, Answer, subscription, set_store_subscription,
}
use ubuntu_pro_for_wsl.Distro.{RegistryAnswer}
use ubuntu_pro_for_wsl.Database.{DistroDb}
use ubuntu_pro_for_wsl.Distribution.{distribute_task}

-- Distribute
unfoldable pub distribute_token :
    {E Bytes DbBytes : Type 0}
    → Codec E Task Bytes
    → Faults E Bytes
    → (String → RegistryAnswer)
    → String
    → DistroDb Bytes DbBytes
    → Option (DistroDb Bytes DbBytes)
distribute_token codec io answers token db =
    distribute_task codec io answers (pro_attachment token) db

-- An error of the Store: ErrNotSubscribed, or another one.
pub data StoreError (E : Type 0) : Type 0 where
  not_subscribed : StoreError E
  from_store : E → StoreError E

-- ValidSubscription at a time, with what GetSubscriptionExpirationDate returns.
unfoldable pub valid_subscription : {E : Type 0} → ℕ → Result (StoreError E) ℕ → Result E Bool
valid_subscription now (err not_subscribed) = ok false
valid_subscription now (err (from_store e)) = err e
valid_subscription now (ok expiration) = if ltb expiration now then ok false else ok true

-- What NewProToken meets: the URL of the server, and its answers and the Store's.
pub record TokenAnswers (E : Type 0) : Type 0 where
  pub url_error : Option E
  pub access_token : Result E String
  pub user_jwt : String → Result E String
  pub pro_token : String → Result E String

unfoldable pub new_pro_token : {E : Type 0} → TokenAnswers E → Result E String
new_pro_token a = elim a.url_error [
  | some e ↦ err e
  | none ↦ a.access_token >>= a.user_jwt >>= a.pro_token
]

-- FetchFromMicrosoftStore: its reads and writes of the configuration, the time, and the answers.
pub record FetchAnswers (E Bytes : Type 0) : Type 0 where
  pub subscription_io : Io E Bytes
  pub get_io : Io E Bytes
  pub set_io : Io E Bytes
  pub now : ℕ
  pub expiration : Result (StoreError E) ℕ
  pub tokens : TokenAnswers E

pub data FetchError (E : Type 0) : Type 0 where
  no_subscription_status no_new_token : E → FetchError E
  from_config : ConfigError E → FetchError E

-- The configuration, the result, its notifications, and whether a new token was asked for.
abbrev pub Fetched : Type 0 → Type 0 → Type 0
Fetched E Bytes = Config Bytes × Result (FetchError E) (Unit {0}) × List Notification × Bool

-- Whether the token that is there will do.
unfoldable pub is_active : {E : Type 0} → Source → ℕ → Result (StoreError E) ℕ → Result E Bool
unfolding valid_subscription
is_active source_microsoft_store now expiration = valid_subscription now expiration
is_active _ now expiration = ok false

module _ {E Bytes : Type 0} (codec : ConfigCodec E Bytes) where
  unfoldable pub settle_token : Answer E Bytes (Unit {0}) → Fetched E Bytes
  settle_token (c, r, notes) = (c, map_err from_config r, notes, true)

  unfoldable pub renew_token : FetchAnswers E Bytes → Config Bytes → Fetched E Bytes
  unfolding settle_token
  renew_token a c = elim (new_pro_token a.tokens) [
    | err e ↦ (c, err (no_new_token e), [], true)
    | ok token ↦ settle_token (set_store_subscription codec a.get_io a.set_io token c)
  ]

  unfoldable pub fetch_from_microsoft_store : FetchAnswers E Bytes → Config Bytes → Fetched E Bytes
  unfolding is_active renew_token
  fetch_from_microsoft_store a c =
      let (c', r) = subscription codec a.subscription_io c in
      elim r [
        | err e ↦ (c', err (no_subscription_status e), [], false)
        | ok (_, source) ↦ elim (is_active source a.now a.expiration) [
          | err e ↦ (c', err (no_subscription_status e), [], false)
          | ok true ↦ (c', ok tt, [], false)
          | ok false ↦ renew_token a c'
        ]
      ]
