-- ===== src/Landscape/Client/Settings.antt =====
-- When the listeners of windows-agent/internal/proservices/landscape/service.go ask for a new
-- connection.
use ubuntu_pro_for_wsl.Prelude.{
  ◌≡◌, ◌≢◌, ◌⊎◌, refl, Bool, true, false, Option, none, some, Result, ok, err, str_eq, eq_iff,
  Bool-cases, inl, inr, if◌then◌else◌,
}
use ubuntu_pro_for_wsl.Config.{ConfigCodec, Config, Io}
use ubuntu_pro_for_wsl.Landscape.Retry.{RetryConnection}
use ubuntu_pro_for_wsl.Landscape.Retry.Flag.{Stands, request-Stands}
use ubuntu_pro_for_wsl.Landscape.HostConf.{
  HostIni, HostConfError, LandscapeHostConf, is_no_config, new_landscape_host_conf,
}
use ubuntu_pro_for_wsl.Landscape.Client.{
  ConnectionSettings, ServerConnection, Service, empty_settings, new_connection_settings,
  settings_eq, old_settings, new_settings, reconnect, reconnect_if_differ,
  reconnect_if_new_settings,
}

-- Whether a request is pending after settings are asked for, if `pending` says so before: there are none;
-- or they are those in use, by their address and their certificate; or they are not.
abbrev pub IsWanted : Bool → Bool → Option ConnectionSettings → ConnectionSettings → Type 0
IsWanted pending pending' none old = pending' ≡ pending
IsWanted pending pending' (some new) old =
    ((new.url ≡ old.url) × (new.certificate_path ≡ old.certificate_path) × (pending' ≡ pending))
    ⊎ (((new.url ≢ old.url) ⊎ (new.certificate_path ≢ old.certificate_path)) × (pending' ≡ true))

-- The settings of a connection, or empty ones without it.
abbrev pub used : Option ServerConnection → ConnectionSettings
used none = record { url = ""; certificate_path = "" }
used (some conn) = conn.settings

-- The settings of a configuration, or empty ones if it lacks what Landscape needs.
abbrev pub asked :
    {E : Type 0} → Result (HostConfError E) LandscapeHostConf → Option ConnectionSettings
asked (ok conf) = some (record { url = conf.hostagent_url; certificate_path = conf.ssl_public_key })
asked (err e) = if is_no_config e then some (record { url = ""; certificate_path = "" }) else none

-- The service is as it was, but for its configuration and its retrier, in which a request is pending as
-- the settings want it.
abbrev pub Asks :
    {ConfBytes Bytes DbBytes : Type 0}
    → Bool
    → Option ConnectionSettings
    → Config ConfBytes
    → Service ConfBytes Bytes DbBytes
    → Option (Service ConfBytes Bytes DbBytes)
    → Type 0
Asks pending new c s o =
    (r : RetryConnection) × (pending' : Bool) × (o ≡ some (record s { config = c; retrier = r }))
    × Stands pending' r
    × IsWanted pending pending' new (used s.conn)

settings_eq_lem :
    (s t : ConnectionSettings)
    → ((settings_eq s t ≡ true) × (s.url ≡ t.url) × (s.certificate_path ≡ t.certificate_path))
      ⊎ ((settings_eq s t ≡ false) × ((s.url ≢ t.url) ⊎ (s.certificate_path ≢ t.certificate_path)))
unfolding settings_eq
settings_eq_lem s t = elim (Bool-cases (str_eq s.url t.url)) [
  | inr u ↦ inr (rw u refl, inl (λ q. absurd (cc ((eq_iff s.url t.url).1 q, u))))
  | inl u ↦ elim (Bool-cases (str_eq s.certificate_path t.certificate_path)) [
    | inl v ↦
        inl (rw u v, (eq_iff s.url t.url).0 u, (eq_iff s.certificate_path t.certificate_path).0 v)
    | inr v ↦
        inr (rw u v, inr (λ q. absurd (cc ((eq_iff s.certificate_path t.certificate_path).1 q, v))))
  ]
]

old_settings-used : (o : Option ServerConnection) → old_settings o ≡ used o
unfolding old_settings empty_settings
old_settings-used none = refl
old_settings-used (some conn) = refl

new_settings-asked :
    {E : Type 0} (r : Result (HostConfError E) LandscapeHostConf) → new_settings r ≡ asked r
unfolding new_settings empty_settings new_connection_settings
new_settings-asked (ok conf) = refl
new_settings-asked (err e) = refl

module _ {ConfBytes Bytes DbBytes : Type 0} where
  reconnect_if_differ-Asks :
      (new : Option ConnectionSettings) (pending : Bool) (s : Service ConfBytes Bytes DbBytes)
      → Stands pending s.retrier
      → Asks pending new s.config s (reconnect_if_differ new s)
  unfolding reconnect_if_differ reconnect
  reconnect_if_differ-Asks none pending s st = (s.retrier, pending, refl, st, refl)
  reconnect_if_differ-Asks (some new) pending s st = elim (settings_eq_lem new (used s.conn)) [
    | inl (q, u, v) ↦
        (s.retrier, pending, rw (old_settings-used s.conn) (rw q refl), st, inl (u, v, refl))
    | inr (q, d) ↦
        let (r, e, st') = request-Stands pending s.retrier st in
        (r, true, rw (old_settings-used s.conn) (rw q (rw (e, reconnect) refl)), st', inr (d, refl))
  ]

  -- From a retrier that stands for a flag, reconnectIfNewSettings changes nothing but the
  -- configuration, which it loads, and the flag: it is set if the configuration can be read, or lacks
  -- what Landscape needs, and asks for another address or another certificate than those of the
  -- connection; if not, it stays as it was.
  pub reconnect_if_new_settings-Asks :
      {E Doc : Type 0} (ini : HostIni E Doc) (codec : ConfigCodec E ConfBytes)
      (io io' : Io E ConfBytes) (pending : Bool) (s : Service ConfBytes Bytes DbBytes)
      → Stands pending s.retrier
      → let (c, r) = new_landscape_host_conf ini codec io io' s.config in
        Asks pending (asked r) c s (reconnect_if_new_settings ini codec io io' s)
  unfolding reconnect_if_new_settings
  reconnect_if_new_settings-Asks ini codec io io' pending s st =
      let (c, r) = new_landscape_host_conf ini codec io io' s.config in
      rw (new_settings-asked r)
        (reconnect_if_differ-Asks (asked r) pending (record s { config = c }) st)
