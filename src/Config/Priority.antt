-- ===== src/Config/Priority.antt =====
-- What the methods of windows-agent/internal/config/config.go notify, and which values are active.
use ubuntu_pro_for_wsl.Prelude.{
  ◌≡◌, refl, inl, inr, Bool, true, false, List, [], none, Result, ok, err, String, str_eq, arith,
  Bool-cases, Result-cases, ap, subst, sym, ◌∙◌, is_empty, str_eq_refl, if◌then◌else◌,
}
use ubuntu_pro_for_wsl.ClientConfig.{Ini, complete_landscape_config}
use ubuntu_pro_for_wsl.Config.{ConfigState, ConfigCodec, Config, Io, load, dump, Notification}
use ubuntu_pro_for_wsl.Config.Persistence.{ReadsStored, dump-InSync, dump-state}
use ubuntu_pro_for_wsl.Config.Registry.{
  RegistryData, has_changed, take_token, take_landscape, completed_or_empty, take_registry_data,
  update_registry_data, settle,
}

renewed : String → String → String × Bool
renewed checksum fresh = if str_eq checksum fresh then (checksum, false) else (fresh, true)

renewed-again :
    (checksum fresh : String)
    → renewed (renewed checksum fresh).0 fresh ≡ ((renewed checksum fresh).0, false)
unfolding renewed
renewed-again checksum fresh = elim (Bool-cases (str_eq checksum fresh)) [
  | inl q ↦ rw (q, renewed) (rw (q, renewed) refl)
  | inr q ↦ rw (q, renewed) (rw (str_eq_refl fresh, renewed) refl)
]

-- Taking in a value again finds no change.
pub has_changed-again :
    (digest : String → String) (v checksum : String)
    → has_changed digest v (has_changed digest v checksum).0
      ≡ ((has_changed digest v checksum).0, false)
unfolding has_changed renewed
has_changed-again digest v checksum = renewed-again checksum (if is_empty v then "" else digest v)

take_token-again :
    (digest : String → String) (d : RegistryData) (s : ConfigState)
    → take_token digest d (take_token digest d s).0 ≡ ((take_token digest d s).0, [])
unfolding take_token
take_token-again digest d s =
    rw (has_changed-again digest d.ubuntu_pro_token s.subscription.checksum) refl

take_landscape-again :
    (digest : String → String) (conf : String) (s : ConfigState)
    → take_landscape digest conf (take_landscape digest conf s).0
      ≡ ((take_landscape digest conf s).0, [])
unfolding take_landscape
take_landscape-again digest conf s = rw (has_changed-again digest conf s.landscape.checksum) refl

-- The UID is not changed by the registry.
pub take_token-landscape :
    (digest : String → String) (d : RegistryData) (s : ConfigState)
    → (take_token digest d s).0.landscape ≡ s.landscape
unfolding take_token
take_token-landscape digest d s = refl

pub take_landscape-uid :
    (digest : String → String) (conf : String) (s : ConfigState)
    → (take_landscape digest conf s).0.landscape.uid ≡ s.landscape.uid
unfolding take_landscape
take_landscape-uid digest conf s = refl

-- The two parts change different fields.
take_token-take_landscape :
    (digest : String → String) (d : RegistryData) (conf : String) (s : ConfigState)
    → take_token digest d (take_landscape digest conf (take_token digest d s).0).0
      ≡ ((take_landscape digest conf (take_token digest d s).0).0, [])
unfolding take_token take_landscape
take_token-take_landscape digest d conf s =
    rw (has_changed-again digest d.ubuntu_pro_token s.subscription.checksum) refl

module _ {E Bytes Doc : Type 0} (codec : ConfigCodec E Bytes) (ini : Ini E Doc) where
  take_registry_data-again :
      (digest : String → String) (d : RegistryData) (s : ConfigState)
      → take_registry_data codec ini digest d (take_registry_data codec ini digest d s).0
        ≡ ((take_registry_data codec ini digest d s).0, [])
  unfolding take_registry_data
  take_registry_data-again digest d s =
      let conf =
        completed_or_empty (complete_landscape_config ini d.landscape_config s.landscape.uid) in
      rw (take_token-landscape digest d s) (
        rw (take_token-take_landscape digest d conf s) (
          rw
            (
              take_landscape-uid digest conf (take_token digest d s).0,
              take_token-landscape digest d s,
            )
            (rw (take_landscape-again digest conf (take_token digest d s).0) refl)))

  -- A call of UpdateRegistryData whose file could be read.
  pub update_loaded :
      (digest : String → String) (io : Io E Bytes) (d : RegistryData) (c : Config Bytes)
      → (load codec io c).1 ≡ ok tt
      → let (s, notes) = take_registry_data codec ini digest d (load codec io c).0.state in
        update_registry_data codec ini digest io d c
        ≡ settle notes (dump codec io (record (load codec io c).0 { state = s }))
  unfolding update_registry_data
  update_loaded digest io d c l = rw (l, update_registry_data) refl

  pub settle-state :
      (notes : List Notification) (r : Config Bytes × Result E (Unit {0}))
      → ((settle notes r).0 ≡ r.0)
        × ((settle notes r).2 ≡ notes)
        × ((settle notes r).1 ≡ ok tt → r.1 ≡ ok tt)
  unfolding settle
  settle-state notes (c, ok _) = (refl, refl, λ h. refl)
  settle-state notes (c, err e) = (refl, refl, λ h. absurd (cc h))

  pub update_ok :
      (digest : String → String) (io : Io E Bytes) (d : RegistryData) (c : Config Bytes)
      → (update_registry_data codec ini digest io d c).1 ≡ ok tt
      → (load codec io c).1 ≡ ok tt
  unfolding update_registry_data
  update_ok digest io d c h = elim (Result-cases (load codec io c).1) [
    | inl (_, l) ↦ l
    | inr (e, l) ↦ absurd (ground (arith, h, l))
  ]

  update_still :
      (digest : String → String) (io : Io E Bytes) (d : RegistryData) (c : Config Bytes)
      → load codec io c ≡ (c, ok tt)
      → take_registry_data codec ini digest d c.state ≡ (c.state, [])
      → let (c', _, notes) = update_registry_data codec ini digest io d c in
        (c'.state ≡ c.state) × (notes ≡ [])
  update_still digest io d c l t =
      rw (update_loaded digest io d c (rw l refl), l, t)
        (let (s0, s1, _) = settle-state [] (dump codec io c) in
          (ap (λ c'. c'.state) s0 ∙ dump-state codec io c, s1))

  -- The registry watcher reports the same data again and again: after a call of UpdateRegistryData
  -- that returns no error, another one with the same data that can read the file notifies nobody
  -- and leaves the state as it is, whether it can write the file or not.
  pub update_registry_data-again :
      ReadsStored codec
      → (digest : String → String) (io io' : Io E Bytes) (d : RegistryData) (c : Config Bytes)
      → (update_registry_data codec ini digest io d c).1 ≡ ok tt
      → io'.read_error ≡ none
      → let (c', _, _) = update_registry_data codec ini digest io d c in
        let (c'', _, notes) = update_registry_data codec ini digest io' d c' in
        (c''.state ≡ c'.state) × (notes ≡ [])
  update_registry_data-again reads digest io io' d c h e =
      let l = update_ok digest io d c h in
      let (s, notes) = take_registry_data codec ini digest d (load codec io c).0.state in
      let c1 = record (load codec io c).0 { state = s } in
      let u = update_loaded digest io d c l in
      let (kept, _, dumped) = settle-state notes (dump codec io c1) in
      let synced = dump-InSync codec reads io c1 (dumped (subst (λ a. a.1 ≡ ok tt) u h)) io' e in
      let still = take_registry_data-again digest d (load codec io c).0.state in
      subst
        (λ c'.
          let (c'', _, notes) = update_registry_data codec ini digest io' d c' in
          (c''.state ≡ c'.state) × (notes ≡ []))
        (sym (ap (λ a. a.0) u ∙ kept))
        (update_still digest io' d (dump codec io c1).0 synced (rw (dump-state codec io c1) still))
