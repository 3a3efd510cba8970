-- ===== src/Config/Restart.antt =====
-- What windows-agent/internal/config/config.go makes of the data of the registry after a restart.
use ubuntu_pro_for_wsl.Prelude.{
  ◌≡◌, refl, false, [], Option, none, some, ok, String, ap, sym, ◌∙◌, subst,
}
use ubuntu_pro_for_wsl.ClientConfig.{Ini, complete_landscape_config}
use ubuntu_pro_for_wsl.Config.{
  ConfigState, ConfigCodec, Config, Io, stored, loaded, empty_state, new_config, load, dump,
  read_file,
}
use ubuntu_pro_for_wsl.Config.Persistence.{ReadsStored, dump-state, dump_ok, load_reads}
use ubuntu_pro_for_wsl.Config.Registry.{
  RegistryData, has_changed, take_token, take_landscape, completed_or_empty, take_registry_data,
  update_registry_data,
}
use ubuntu_pro_for_wsl.Config.Priority.{has_changed-again, update_loaded, settle-state, update_ok}

module _ {E Bytes Doc : Type 0} (codec : ConfigCodec E Bytes) (ini : Ini E Doc)
    (digest : String → String) (d : RegistryData) where
  -- The checksums of a state are those of the data.
  abbrev Known : ConfigState → Type 0
  Known s =
      (has_changed digest d.ubuntu_pro_token s.subscription.checksum
        ≡ (s.subscription.checksum, false))
      × (has_changed digest
            (completed_or_empty (complete_landscape_config ini d.landscape_config s.landscape.uid))
            s.landscape.checksum
          ≡ (s.landscape.checksum, false))

  take_registry_data-Known : (s : ConfigState) → Known (take_registry_data codec ini digest d s).0
  unfolding take_registry_data take_token take_landscape
  take_registry_data-Known s = (
    has_changed-again digest _ s.subscription.checksum,
    has_changed-again digest _ s.landscape.checksum,
  )

  -- Known data sets the token, and not the Landscape configuration.
  take_registry_data-unchanged :
      (s : ConfigState)
      → Known s
      → take_registry_data codec ini digest d s ≡ (
        record s { subscription = record (s.subscription) { organization = d.ubuntu_pro_token } },
        [],
      )
  unfolding take_registry_data take_token take_landscape
  take_registry_data-unchanged s (k, l) = rw (k) (rw (l) refl)

  abbrev Lost : Io E Bytes → Option Bytes → Type 0
  Lost io file =
      let (c, _, notes) = update_registry_data codec ini digest io d (new_config file) in
      (c.state.subscription.organization ≡ d.ubuntu_pro_token)
      × (c.state.landscape.org_config ≡ "")
      × (notes ≡ [])

  restarted_loads :
      (io : Io E Bytes) (s : ConfigState) (b : Bytes)
      → codec.unmarshal b ≡ ok (stored s)
      → io.read_error ≡ none
      → load codec io (new_config (some b))
        ≡ (record { state = loaded (stored s) empty_state; file = some b }, ok tt)
  unfolding new_config read_file
  restarted_loads io s b m e =
      load_reads codec io (new_config (some b)) (stored s) (rw (e, read_file) m)

  Known-restarted : (s : ConfigState) → Known s → Known (loaded (stored s) empty_state)
  unfolding loaded stored empty_state
  Known-restarted s k = k

  after_restart :
      (io : Io E Bytes) (s : ConfigState) (b : Bytes)
      → Known s
      → codec.unmarshal b ≡ ok (stored s)
      → io.read_error ≡ none
      → Lost io (some b)
  unfolding loaded empty_state
  after_restart io s b k m e =
      let l = restarted_loads io s b m e in
      let r = loaded (stored s) empty_state in
      let kept = record r {
        subscription = record (r.subscription) { organization = d.ubuntu_pro_token };
      } in
      let c : Config Bytes = record { state = kept; file = some b } in
      rw
        (
          update_loaded codec ini digest io d (new_config (some b)) (rw l refl),
          l,
          take_registry_data-unchanged r (Known-restarted s k),
        )
        (let (s0, s1, _) = settle-state codec ini [] (dump codec io c) in
          let p = ap (λ c'. c'.state) s0 ∙ dump-state codec io c in
          (ap (λ t. t.subscription.organization) p, ap (λ t. t.landscape.org_config) p, s1))

  -- If UpdateRegistryData returns no error, and the agent restarts and is given the same data, then
  -- the Ubuntu Pro token of the registry is active again, but its Landscape configuration is not:
  -- the checksum is in the file and the configuration is not. Nobody is notified.
  pub update_registry_data-restart :
      ReadsStored codec
      → (io io' : Io E Bytes) (c : Config Bytes)
      → (update_registry_data codec ini digest io d c).1 ≡ ok tt
      → io'.read_error ≡ none
      → let (c', _, _) = update_registry_data codec ini digest io d c in
        let (c'', _, notes) = update_registry_data codec ini digest io' d (new_config c'.file) in
        (c''.state.subscription.organization ≡ d.ubuntu_pro_token)
        × (c''.state.landscape.org_config ≡ "")
        × (notes ≡ [])
  update_registry_data-restart reads io io' c h e =
      let l = update_ok codec ini digest io d c h in
      let (s, notes) = take_registry_data codec ini digest d (load codec io c).0.state in
      let c1 = record (load codec io c).0 { state = s } in
      let u = update_loaded codec ini digest io d c l in
      let (kept, _, dumped) = settle-state codec ini notes (dump codec io c1) in
      let (b, m, written) = dump_ok codec io c1 (dumped (subst (λ a. a.1 ≡ ok tt) u h)) in
      subst (Lost io')
        (sym (ap (λ a. a.0.file) u ∙ ap (λ c'. c'.file) kept ∙ ap (λ r. r.0.file) written))
        (after_restart io' s b (take_registry_data-Known (load codec io c).0.state)
          (reads (stored s) b m) e)
