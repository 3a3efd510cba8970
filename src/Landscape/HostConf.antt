-- ===== src/Landscape/HostConf.antt =====
-- newLandscapeHostConf and filterClientSection of
-- windows-agent/internal/proservices/landscape/utils.go: what the agent takes from the Landscape
-- configuration. The ini package is an argument.
pub mod Section
use ubuntu_pro_for_wsl.Prelude.{
  Bool, true, false, List, [], ◌∷◌, Option, none, some, Result, ok, err, map_err, ◌>>=◌, or_err,
  String, str_eq, is_empty, if◌then◌else◌,
}
use ubuntu_pro_for_wsl.ConfigSource.{Source}
use ubuntu_pro_for_wsl.Config.{ConfigCodec, Config, Io, subscription, landscape_client_config}

-- ini.File as it is read here, with the names of its sections, and a key if it and its section exist.
pub record HostIni (E Doc : Type 0) : Type 0 where
  pub parse : String → Result E Doc
  pub has_section : String → Doc → Bool
  pub sections : Doc → List String
  pub get_key : String → String → Doc → Option String
  pub delete_section : String → Doc → Doc
  pub write : Doc → Result E String

-- A noConfigError, with what is missing, or another error.
pub data HostConfError (E : Type 0) : Type 0 where
  missing_token missing_configuration missing_url : HostConfError E
  unreadable : E → HostConfError E

-- errors.Is(err, noConfigError{})
unfoldable pub is_no_config : {E : Type 0} → HostConfError E → Bool
is_no_config (unreadable e) = false
is_no_config _ = true

pub record LandscapeHostConf : Type 0 where
  pub ubuntu_pro_token : String
  pub account_name : String
  pub registration_key : String
  pub ssl_public_key : String
  pub hostagent_url : String

pub data FilterError (E : Type 0) : Type 0 where
  no_load no_write : E → FilterError E
  no_client_section : FilterError E

-- The value of an optional key.
unfoldable pub key_or_empty : Option String → String
key_or_empty none = ""
key_or_empty (some value) = value

module _ {E Doc : Type 0} (ini : HostIni E Doc) where
  client_key : String → Doc → String
  unfolding key_or_empty
  client_key key doc = key_or_empty (ini.get_key "client" key doc)

  -- What a parsed configuration says, with the token that was read before.
  unfoldable pub conf_of : String → Doc → Result (HostConfError E) LandscapeHostConf
  unfolding client_key
  conf_of token doc = elim (ini.get_key "host" "url" doc) [
    | none ↦ err missing_url
    | some url ↦ ok (record {
      ubuntu_pro_token = token;
      account_name = client_key "account_name" doc;
      registration_key = client_key "registration_key" doc;
      ssl_public_key = client_key "ssl_public_key" doc;
      hostagent_url = url;
    })
  ]

  unfoldable pub parse_conf : String → String → Result (HostConfError E) LandscapeHostConf
  parse_conf token conf =
      if is_empty conf
      then err missing_configuration
      else map_err unreadable (ini.parse conf) >>= conf_of token

  -- newLandscapeHostConf. `io` is for the subscription, and `io'` for the configuration.
  unfoldable pub new_landscape_host_conf :
      {Bytes : Type 0}
      → ConfigCodec E Bytes
      → Io E Bytes
      → Io E Bytes
      → Config Bytes
      → Config Bytes × Result (HostConfError E) LandscapeHostConf
  new_landscape_host_conf codec io io' c =
      let (c', r) = subscription codec io c in
      elim r [
        | err e ↦ (c', err (unreadable e))
        | ok (token, _) ↦
            if is_empty token
            then (c', err missing_token)
            else (let (c'', r') = landscape_client_config codec io' c' in
                (c'', map_err unreadable r' >>= λ conf. parse_conf token conf.0))
      ]

  -- The loop of filterClientSection.
  unfoldable pub delete_others : List String → Doc → Doc
  delete_others [] doc = doc
  delete_others (name ∷ names) doc =
      if str_eq name "client"
      then delete_others names doc
      else delete_others names (ini.delete_section name doc)

  unfoldable pub filter_client_section : String → Result (FilterError E) String
  unfolding delete_others
  filter_client_section conf = map_err no_load (ini.parse conf) >>= λ doc.
      if ini.has_section "client" doc
      then map_err no_write (ini.write (delete_others (ini.sections doc) doc))
      else err no_client_section
