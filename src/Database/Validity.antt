-- ===== src/Database/Validity.antt =====
-- What GetDistroAndUpdateProperties and cleanup of windows-agent/internal/distros/database/database.go
-- promise about the distros in the database.
use ubuntu_pro_for_wsl.Prelude.{
  ◌≡◌, refl, ◌⊎◌, inl, inr, ◌≢◌, Bool, true, false, Option, none, some, Result, ok, err, String,
  Bool-cases, Option-cases, ap, ◌∙◌, if◌then◌else◌,
}
use ubuntu_pro_for_wsl.Storage.{Disk, Faults}
use ubuntu_pro_for_wsl.Task.{Task}
use ubuntu_pro_for_wsl.TaskManager.{Codec}
use ubuntu_pro_for_wsl.Distro.{
  Properties, Distro, RegistryAnswer, inaccessible, DistroError, set_properties, is_valid,
  new_distro,
}
use ubuntu_pro_for_wsl.Database.{
  DistroDb, DbCodec, Found, lookup, assign, add, refresh, discard, found_or_new,
  get_distro_and_update_properties,
}
use ubuntu_pro_for_wsl.Database.Lookup.{
  lookup-assign, set_properties_lem, is_valid-true, is_valid-none, IsMade, new_distro-IsMade,
  dump-distros,
}

-- A distro that is returned is in the database under its name, is not invalidated, and has the
-- properties; if none is returned, there is an error; a panic has one of its causes.
abbrev pub Fetches :
    {E Bytes DbBytes : Type 0}
    → String
    → Properties
    → Type 0
    → Option (Found E Bytes DbBytes)
    → Type 0
Fetches name props Cause none = Cause
Fetches name props Cause (some (db, none, e)) = e ≢ none
Fetches name props Cause (some (db, some d, e)) =
    (lookup name db.distros ≡ some d) × (d.properties ≡ props) × (d.invalidated ≡ false)

-- A method panics on a database that is closed.
unless_stopped :
    {E Bytes DbBytes : Type 0} (name : String) (props : Properties) (Cause : Type 0)
    (stopped : Bool) (r : Option (Found E Bytes DbBytes))
    → Fetches name props ((stopped ≡ true) ⊎ Cause) r
    → Fetches name props ((stopped ≡ true) ⊎ Cause) (if stopped then none else r)
unless_stopped name props Cause true r h = inl refl
unless_stopped name props Cause false r h = h

module _ {E Bytes DbBytes : Type 0} (db_codec : DbCodec E DbBytes) (io : Faults E DbBytes) where
  add-Fetches :
      (name : String) (props : Properties) (Cause : Type 0)
      (made : Option (Result (DistroError E) (Distro Bytes))) (db : DistroDb Bytes DbBytes)
      → IsMade props made
      → Fetches name props Cause (add db_codec io name made db)
  unfolding add
  add-Fetches name props Cause none db h = absurd h
  add-Fetches name props Cause (some (err e)) db h = λ p. cc p
  add-Fetches name props Cause (some (ok d)) db (p, v) = (
    ap (lookup name) (dump-distros db_codec io (record db { distros = assign name d db.distros }))
        ∙ lookup-assign name d db.distros,
    p,
    v,
  )

  refresh-Fetches :
      (name : String) (props : Properties) (Cause : Type 0) (d : Distro Bytes)
      (db : DistroDb Bytes DbBytes)
      → d.invalidated ≡ false
      → Fetches name props Cause (some (refresh db_codec io name props d db))
  unfolding refresh
  refresh-Fetches name props Cause d db v =
      let (p, i) = set_properties_lem props d in
      let d' = (set_properties props d).0 in
      let db' = record db { distros = assign name d' db.distros } in
      elim (Bool-cases (set_properties props d).1) [
        | inl c ↦
            rw (c, refresh)
              (
                ap (lookup name) (dump-distros db_codec io db') ∙ lookup-assign name d' db.distros,
                p,
                i ∙ v,
              )
        | inr c ↦ rw (c, refresh) (lookup-assign name d' db.distros, p, i ∙ v)
      ]

  found_or_new-Fetches :
      (name : String) (props : Properties) (Other : Type 0) (answer : RegistryAnswer)
      (made : Option (Result (DistroError E) (Distro Bytes))) (found : Option (Distro Bytes))
      (db : DistroDb Bytes DbBytes)
      → IsMade props made
      → Fetches name props
          (Other ⊎ (answer ≡ inaccessible))
          (found_or_new db_codec io name props answer made found db)
  unfolding found_or_new
  found_or_new-Fetches name props Other answer made none db h = add-Fetches name props _ made db h
  found_or_new-Fetches name props Other answer made (some d) db h =
      elim (Option-cases (is_valid answer d)) [
        | inl v ↦ rw (v, found_or_new) (inr (is_valid-none answer d v))
        | inr ((true, d'), v) ↦
            let (same, valid) = is_valid-true answer d d' v in
            rw (v, found_or_new)
              (refresh-Fetches name props (Other ⊎ (answer ≡ inaccessible)) d' db
                (ap (λ d. d.invalidated) same ∙ valid))
        | inr ((false, d'), v) ↦
            rw (v, found_or_new) (add-Fetches name props _ made (discard db_codec name d' db) h)
      ]

  -- If GetDistroAndUpdateProperties returns a distro, even with an error of the dump, then it is in
  -- the database under its normalized name, it is not marked as invalid, and its properties are
  -- those given. If it returns none, it returns an error. It panics only on a database that is
  -- closed, or if the registry cannot be read.
  pub get_distro_and_update_properties-Fetches :
      (codec : Codec E Task Bytes) (task_io : Faults E Bytes) (answer answer' : RegistryAnswer)
      (tasks : Disk Bytes) (name : String) (props : Properties) (db : DistroDb Bytes DbBytes)
      → Fetches (db_codec.to_lower name) props ((db.stopped ≡ true) ⊎ (answer ≡ inaccessible)) (
          get_distro_and_update_properties db_codec codec io task_io answer answer' tasks name props
            db)
  unfolding get_distro_and_update_properties
  get_distro_and_update_properties-Fetches codec task_io answer answer' tasks name props db =
      unless_stopped (db_codec.to_lower name) props _ db.stopped _ (
        found_or_new-Fetches (db_codec.to_lower name) props _ answer
          (new_distro codec task_io name 0 props answer' tasks)
          (lookup (db_codec.to_lower name) db.distros) db
          (new_distro-IsMade codec task_io name props answer' tasks))
