-- ===== src/ConfigSource.antt =====
-- windows-agent/internal/config/config_source.go: where a configuration parameter comes from, and
-- which of its values is the active one.
use ubuntu_pro_for_wsl.Prelude.{
  ℕ, ◌<◌, ◌≡◌, ◌↔◌, true, String, arith, if◌then◌else◌, is_empty, Bool-cases, inl, inr,
}

pub data Source : Type 0 where
  source_none source_user source_microsoft_store source_registry : Source

-- The value of the Go constant.
unfoldable pub rank : Source → ℕ
rank source_none = 0
rank source_user = 1
rank source_microsoft_store = 2
rank source_registry = 3

pub record Subscription : Type 0 where
  pub user : String
  pub store : String
  pub organization : String
  pub checksum : String

pub record LandscapeConf : Type 0 where
  pub user_config : String
  pub org_config : String
  pub uid : String
  pub checksum : String

-- subscription.resolve
unfoldable pub resolve_subscription : Subscription → String × Source
resolve_subscription s =
    if is_empty s.organization
    then (if is_empty s.store
        then (if is_empty s.user then ("", source_none) else (s.user, source_user))
        else (s.store, source_microsoft_store))
    else (s.organization, source_registry)

-- landscapeConf.resolve
unfoldable pub resolve_landscape : LandscapeConf → String × Source
resolve_landscape p =
    if is_empty p.org_config
    then (if is_empty p.user_config then ("", source_none) else (p.user_config, source_user))
    else (p.org_config, source_registry)

-- The token that one source gives.
unfoldable pub token_of : Source → Subscription → String
token_of source_none s = ""
token_of source_user s = s.user
token_of source_microsoft_store s = s.store
token_of source_registry s = s.organization

-- The active token is that of the source returned with it, no source of a higher rank has a token,
-- and it is empty just if the source is none.
pub resolve_subscription_lem :
    (s : Subscription)
    → let (token, src) = resolve_subscription s in
      (token ≡ token_of src s)
      × ((higher : Source) → rank src < rank higher → is_empty (token_of higher s) ≡ true)
      × ((is_empty token ≡ true) ↔ (src ≡ source_none))
unfolding resolve_subscription token_of rank
resolve_subscription_lem s = elim (Bool-cases (is_empty s.organization)) [
  | inl o ↦ elim (Bool-cases (is_empty s.store)) [
    | inl st ↦ elim (Bool-cases (is_empty s.user)) [
      | inl u ↦ ground (arith, o, st, u)
      | inr u ↦ ground (arith, o, st, u)
    ]
    | inr st ↦ ground (arith, o, st)
  ]
  | inr o ↦ ground (arith, o)
]
