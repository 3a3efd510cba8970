-- ===== src/CloudInit.antt =====
-- windows-agent/internal/cloudinit/cloudinit.go: the files that cloud-init picks up. A directory is a
-- function from the names of its files, texts are lists of code points, and the YAML and ini
-- libraries are arguments, as is what the file system answers to a call.
pub mod Atomic
pub mod AgentData
pub mod Examples
use ubuntu_pro_for_wsl.Prelude.{
  ℕ, Bool, true, false, List, [], ◌∷◌, ◌++◌, Option, none, some, Result, ok, err, String,
  if◌then◌else◌, str_eq, codes, same_codes,
}
use ubuntu_pro_for_wsl.ConfigSource.{Source, source_none}
use ubuntu_pro_for_wsl.Config.{Config, ConfigCodec, Io, subscription, landscape_client_config}

-- The contents of the file with a name, or `none` if it does not exist.
abbrev pub Directory : Type 0
Directory = List ℕ → Option (List ℕ)

unfoldable pub put : List ℕ → Option (List ℕ) → Directory → Directory
put file contents dir name = if same_codes name file then contents else dir name

-- What goes wrong in one call of writeFileInDir: os.MkdirAll, os.WriteFile with what it leaves of the
-- temporary file, os.Rename, and the removal of the temporary file after it.
pub record WriteFaults (E : Type 0) : Type 0 where
  pub mkdir_error : Option E
  pub write_error : Option (E × Option (List ℕ))
  pub rename_error : Option E
  pub cleanup_error : Option E

unfoldable pub user_data : String → List ℕ
user_data distro_name = codes distro_name ++ codes ".user-data"

unfoldable pub tmp : List ℕ → List ℕ
tmp path = path ++ codes ".tmp"

module _ {E : Type 0} where
  rename_tmp : WriteFaults E → List ℕ → Directory → Directory × Result E (Unit {0})
  unfolding tmp put
  rename_tmp io path dir = elim io.rename_error [
    | none ↦ (put (tmp path) none (put path (dir (tmp path)) dir), ok tt)
    | some e ↦ elim io.cleanup_error [
      | none ↦ (put (tmp path) none dir, err e)
      | some _ ↦ (dir, err e)
    ]
  ]

  unfoldable pub write_file_in_dir :
      WriteFaults E → List ℕ → List ℕ → Directory → Directory × Result E (Unit {0})
  unfolding rename_tmp tmp
  write_file_in_dir io path contents dir = elim io.mkdir_error [
    | some e ↦ (dir, err e)
    | none ↦ elim io.write_error [
      | some (e, left) ↦ (put (tmp path) left dir, err e)
      | none ↦ rename_tmp io path (put (tmp path) (some contents) dir)
    ]
  ]

  -- os.Remove, whose error is not of a missing file. removeFileInDir returns none for a missing one.
  unfoldable pub remove_file_in_dir :
      Option E → List ℕ → Directory → Directory × Result E (Unit {0})
  unfolding put
  remove_file_in_dir remove_error path dir = elim (dir path) [
    | none ↦ (dir, ok tt)
    | some _ ↦ elim remove_error [ none ↦ (put path none dir, ok tt) | some e ↦ (dir, err e) ]
  ]

  -- WriteDistroData
  unfoldable pub write_distro_data :
      WriteFaults E → String → String → Directory → Directory × Result E (Unit {0})
  unfolding write_file_in_dir user_data
  write_distro_data io distro_name cloud_init =
      write_file_in_dir io (user_data distro_name) (codes cloud_init)

  -- RemoveDistroData, which does what removeFileInDir does.
  unfoldable pub remove_distro_data :
      Option E → String → Directory → Directory × Result E (Unit {0})
  unfolding user_data put
  remove_distro_data remove_error distro_name dir = elim (dir (user_data distro_name)) [
    | none ↦ (dir, ok tt)
    | some _ ↦ elim remove_error [
      | none ↦ (put (user_data distro_name) none dir, ok tt)
      | some e ↦ (dir, err e)
    ]
  ]

-- What is marshalled: the modules that are there.
pub record Contents : Type 0 where
  pub ubuntu_pro : Option String
  pub landscape : Option (List (String × String))

-- ini.Load, and the keys and values of the [client] section; yaml.Marshal.
pub record CloudCodec (E Doc : Type 0) : Type 0 where
  pub parse : String → Result E Doc
  pub client : Doc → Option (List (String × String))
  pub marshal : Contents → Result E (List ℕ)

-- m[key] = value
unfoldable pub put_key : String → String → List (String × String) → List (String × String)
put_key key value [] = (key, value) ∷ []
put_key key value ((k, v) ∷ m) =
    let rest = put_key key value m in if str_eq k key then (key, value) ∷ m else (k, v) ∷ rest

-- What landscapeModule adds to the [client] section.
unfoldable pub with_placeholders : List (String × String) → List (String × String)
unfolding put_key
with_placeholders client =
    put_key "computer_title" "wsl" (put_key "skip_registration" "" (put_key "no_start" "" client))

-- What goes wrong in one call of writeAgentData: in the two reads of the configuration, and in
-- writing or removing the file.
pub record AgentIo (E Bytes : Type 0) : Type 0 where
  pub pro_io : Io E Bytes
  pub landscape_io : Io E Bytes
  pub write_faults : WriteFaults E
  pub remove_error : Option E

pub record CloudInit (Bytes : Type 0) : Type 0 where
  pub data_dir : Directory
  pub conf : Config Bytes

unfoldable pub pro_of : String × Source → Option String
pro_of (token, source_none) = none
pro_of (token, _) = some token

unfoldable pub header : List ℕ
header = codes "#cloud-config\n# This file was generated automatically and must not be edited\n"

unfoldable pub agent_yaml : List ℕ
agent_yaml = codes "agent.yaml"

has_none : Contents → Bool
has_none contents = elim contents.ubuntu_pro [
  | some _ ↦ false
  | none ↦ elim contents.landscape [ some _ ↦ false | none ↦ true ]
]

module _ {E Doc : Type 0} (cloud : CloudCodec E Doc) where
  unfoldable pub client_of : String × Source → Result E (Option (List (String × String)))
  unfolding with_placeholders
  client_of (conf, source_none) = ok none
  client_of (conf, _) = elim (cloud.parse conf) [
    | err e ↦ err e
    | ok doc ↦ elim (cloud.client doc) [
      | none ↦ ok none
      | some client ↦ ok (some (with_placeholders client))
    ]
  ]

  -- The end of marshalConfig: nothing if there is nothing to write.
  unfoldable pub marshal_contents : Contents → Result E (Option (List ℕ))
  unfolding has_none
  marshal_contents contents =
      if has_none contents
      then ok none
      else elim (cloud.marshal contents) [ err e ↦ err e | ok out ↦ ok (some (header ++ out)) ]

module _ {E Bytes : Type 0} where
  -- ubuntuProModule
  unfoldable pub ubuntu_pro_module :
      ConfigCodec E Bytes → Io E Bytes → Config Bytes → Config Bytes × Result E (Option String)
  unfolding pro_of
  ubuntu_pro_module codec io c =
      let (c', r) = subscription codec io c in (c', elim r [ err e ↦ err e | ok s ↦ ok (pro_of s) ])

  settle_agent_data :
      AgentIo E Bytes → Result E (Option (List ℕ)) → Directory → Directory × Result E (Unit {0})
  unfolding agent_yaml
  settle_agent_data io (err e) dir = (dir, err e)
  settle_agent_data io (ok none) dir = remove_file_in_dir io.remove_error agent_yaml dir
  settle_agent_data io (ok (some b)) dir = write_file_in_dir io.write_faults agent_yaml b dir

module _ {E Bytes Doc : Type 0} (codec : ConfigCodec E Bytes) (cloud : CloudCodec E Doc) where
  -- landscapeModule
  unfoldable pub landscape_module :
      Io E Bytes → Config Bytes → Config Bytes × Result E (Option (List (String × String)))
  unfolding client_of
  landscape_module io c =
      let (c', r) = landscape_client_config codec io c in
      (c', elim r [ err e ↦ err e | ok s ↦ client_of cloud s ])

  unfoldable pub marshal_config :
      Io E Bytes → Io E Bytes → Config Bytes → Config Bytes × Result E (Option (List ℕ))
  unfolding marshal_contents
  marshal_config io io' c =
      let (c', pro) = ubuntu_pro_module codec io c in
      elim pro [
        | err e ↦ (c', err e)
        | ok pro ↦
            let (c'', client) = landscape_module io' c' in
            elim client [
              | err e ↦ (c'', err e)
              | ok client ↦
                  (c'', marshal_contents cloud (record { ubuntu_pro = pro; landscape = client }))
            ]
      ]

  unfoldable pub write_agent_data :
      AgentIo E Bytes → CloudInit Bytes → CloudInit Bytes × Result E (Unit {0})
  unfolding settle_agent_data
  write_agent_data io c =
      let (conf, r) = marshal_config io.pro_io io.landscape_io c.conf in
      let (dir, r') = settle_agent_data io r c.data_dir in
      (record { data_dir = dir; conf = conf }, r')

  -- Update logs the error.
  unfoldable pub update : AgentIo E Bytes → CloudInit Bytes → CloudInit Bytes
  update io c = (write_agent_data io c).0

  -- New, over the files that are there: os.MkdirAll, and a first write.
  unfoldable pub new_cloud_init :
      Option E → AgentIo E Bytes → Config Bytes → Directory → Result E (CloudInit Bytes)
  new_cloud_init (some e) io conf dir = err e
  new_cloud_init none io conf dir =
      let (c, r) = write_agent_data io (record { data_dir = dir; conf = conf }) in
      elim r [ err e ↦ err e | ok _ ↦ ok c ]
