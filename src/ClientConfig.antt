-- ===== src/ClientConfig.antt =====
-- completeLandscapeConfig and addKeyValuePair of windows-agent/internal/config/config.go. The ini
-- package is an argument: a section is named, as a document has one section of a name.
use ubuntu_pro_for_wsl.Prelude.{
  Bool, true, false, String, Result, ok, err, ◌>>=◌, is_empty, if◌then◌else◌,
}

-- ini.File, its sections, and their keys.
pub record Ini (E Doc : Type 0) : Type 0 where
  pub parse : String → Result E Doc
  pub get_section : String → Doc → Result E (Unit {0})
  pub has_key : String → String → Doc → Bool
  pub new_key : String → String → String → Doc → Result E Doc
  pub set_value : String → String → String → Doc → Doc
  pub write : Doc → Result E String

module _ {E Doc : Type 0} (ini : Ini E Doc) where
  unfoldable pub add_key_value_pair : String → String → String → Bool → Doc → Result E Doc
  add_key_value_pair section key value override doc =
      if ini.has_key section key doc
      then (if override then ok (ini.set_value section key value doc) else ok doc)
      else ini.new_key section key value doc

  -- A failure to add the tags is only logged.
  unfoldable pub add_tags : Doc → Doc
  unfolding add_key_value_pair
  add_tags doc = elim (add_key_value_pair "client" "tags" "wsl" false doc) [
    | ok tagged ↦ tagged
    | err e ↦ doc
  ]

  unfoldable pub add_uid : String → Doc → Result E Doc
  unfolding add_key_value_pair
  add_uid uid doc =
      if is_empty uid then ok doc else add_key_value_pair "client" "hostagent_uid" uid true doc

  unfoldable pub complete_landscape_config : String → String → Result E String
  unfolding add_tags add_uid
  complete_landscape_config conf uid = if is_empty conf then ok "" else (do
    doc ← ini.parse conf
    _ ← ini.get_section "client" doc
    completed ← add_uid uid (add_tags doc)
    ini.write completed)
