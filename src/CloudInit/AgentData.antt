-- ===== src/CloudInit/AgentData.antt =====
-- What agent.yaml holds: writeAgentData of windows-agent/internal/cloudinit/cloudinit.go.
use ubuntu_pro_for_wsl.Prelude.{
  ℕ, ◌≡◌, ◌≢◌, ◌⊎◌, List, ◌++◌, Option, none, some, Result, ok, err, String,
}
use ubuntu_pro_for_wsl.ConfigSource.{Source}
use ubuntu_pro_for_wsl.Config.{Config, ConfigCodec, subscription, landscape_client_config}
use ubuntu_pro_for_wsl.CloudInit.{
  Directory, CloudInit, CloudCodec, Contents, AgentIo, pro_of, header, agent_yaml, client_of,
}

module _ {E Bytes Doc : Type 0} (codec : ConfigCodec E Bytes) (cloud : CloudCodec E Doc) where
  -- No file if there is no token and no [client] section, and only then; else the header and the two modules.
  abbrev pub Serves : Contents → Option (List ℕ) → Type 0
  Serves contents file =
      ((contents.ubuntu_pro ≡ none) × (contents.landscape ≡ none) × (file ≡ none))
      ⊎ (((contents.ubuntu_pro ≢ none) ⊎ (contents.landscape ≢ none))
          × ((out : List ℕ) × (cloud.marshal contents ≡ ok out) × (file ≡ some (header ++ out))))

  -- The contents are those of the configuration, read once for the token and then for Landscape.
  abbrev pub IsCurrent : AgentIo E Bytes → Config Bytes → Contents → Type 0
  IsCurrent io conf contents =
      let (conf', s) = subscription codec io.pro_io conf in
      (pro : String × Source) × (landscape : String × Source) × (s ≡ ok pro)
      × ((landscape_client_config codec io.landscape_io conf').1 ≡ ok landscape)
      × (contents.ubuntu_pro ≡ pro_of pro)
      × (client_of cloud landscape ≡ ok contents.landscape)

  -- The outcome of writeAgentData: agent.yaml serves the current contents; or, on an error, it is as
  -- it was.
  abbrev pub Mirrors :
      AgentIo E Bytes → CloudInit Bytes → CloudInit Bytes × Result E (Unit {0}) → Type 0
  Mirrors io c (c', ok _) =
      (contents : Contents) × IsCurrent io c.conf contents
      × Serves contents (c'.data_dir agent_yaml)
  Mirrors io c (c', err e) = c'.data_dir agent_yaml ≡ c.data_dir agent_yaml

  -- The outcome for agent.yaml.
  Settles : Directory → Result E (Option (List ℕ)) → Directory × Result E (Unit {0}) → Type 0
  Settles dir r (dir', ok _) = r ≡ ok (dir' agent_yaml)
  Settles dir r (dir', err e) = dir' agent_yaml ≡ dir agent_yaml
