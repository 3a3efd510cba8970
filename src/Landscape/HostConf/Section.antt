-- ===== src/Landscape/HostConf/Section.antt =====
-- What filterClientSection of windows-agent/internal/proservices/landscape/utils.go keeps.
use ubuntu_pro_for_wsl.Prelude.{
  ◌≡◌, true, false, not, List, [], ◌∷◌, Result, ok, err, String, str_eq, if◌then◌else◌, reject, any,
}
use ubuntu_pro_for_wsl.Landscape.HostConf.{
  HostIni, FilterError, no_load, no_write, no_client_section,
}

-- Deleting a section takes its name from those of the sections, and leaves the others.
abbrev pub DeletesSection : {E Doc : Type 0} → HostIni E Doc → Type 0
DeletesSection {E} {Doc} ini =
    (name : String) (doc : Doc)
    → ini.sections (ini.delete_section name doc) ≡ reject (λ m. str_eq m name) (ini.sections doc)

-- The names that are no client section.
abbrev others : List String → List String
others = reject (λ m. str_eq m "client")

-- The names that are.
abbrev clients : List String → List String
clients = reject (λ m. not (str_eq m "client"))

-- Of the sections just the client sections are left.
abbrev KeepsClient : {E Doc : Type 0} → HostIni E Doc → Doc → Doc → Type 0
KeepsClient ini doc doc' =
    (others (ini.sections doc') ≡ []) × (clients (ini.sections doc') ≡ clients (ini.sections doc))

-- What filterClientSection returns.
abbrev pub Filters :
    {E Doc : Type 0} → HostIni E Doc → String → Result (FilterError E) String → Type 0
Filters {E} {Doc} ini conf (ok s) =
    (doc doc' : Doc) × (ini.parse conf ≡ ok doc)
    × (ini.has_section "client" doc ≡ true)
    × (ini.write doc' ≡ ok s)
    × KeepsClient ini doc doc'
Filters {E} {Doc} ini conf (err (no_load e)) = ini.parse conf ≡ err e
Filters {E} {Doc} ini conf (err no_client_section) =
    (doc : Doc) × (ini.parse conf ≡ ok doc) × (ini.has_section "client" doc ≡ false)
Filters {E} {Doc} ini conf (err (no_write e)) =
    (doc doc' : Doc) × (ini.parse conf ≡ ok doc)
    × (ini.has_section "client" doc ≡ true)
    × (ini.write doc' ≡ err e)

-- The names that a list of deletions leaves.
abbrev left : List String → List String → List String
left [] ns = ns
left (d ∷ ds) ns = if str_eq d "client" then left ds ns else left ds (reject (λ m. str_eq m d) ns)

-- A name that is deleted, if it is no client section.
abbrev IsDeleted : List String → String → Type 0
IsDeleted ds m = (str_eq m "client" ≡ false) × (any (str_eq m) ds ≡ true)
