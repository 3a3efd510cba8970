-- ===== src/Database.antt =====
-- windows-agent/internal/distros/database: database.go and serializable_distro.go. The map of distros
-- is an association list. The YAML library, the text of a GUID and strings.ToLower are arguments, as
-- is what the registry and the file system answer; `none` is a panic.
pub mod Startup
pub mod Lookup
pub mod Validity
pub mod Sweep
pub mod Examples
use Prim.Native.String.{compare}
use Prim.Native.Nat.{Ordering}
use ubuntu_pro_for_wsl.Prelude.{
  ℕ, Bool, true, false, List, [], ◌∷◌, ◌++◌, map, Option, none, some, Result, ok, err, String,
  str_eq, if◌then◌else◌, reject,
}
use ubuntu_pro_for_wsl.Storage.{Disk, Faults, replace_file}
use ubuntu_pro_for_wsl.Task.{Task}
use ubuntu_pro_for_wsl.TaskManager.{Codec}
use ubuntu_pro_for_wsl.Distro.{
  Identity, Properties, Distro, RegistryAnswer, DistroError, is_valid, set_properties, new_distro,
}

-- The map from the normalized names.
abbrev pub DistroMap : Type 0 → Type 0
DistroMap Bytes = List (String × Distro Bytes)

unfoldable pub lookup : {Bytes : Type 0} → String → DistroMap Bytes → Option (Distro Bytes)
lookup name [] = none
lookup name ((n, d) ∷ ds) = let rest = lookup name ds in if str_eq n name then some d else rest

unfoldable pub delete : {Bytes : Type 0} → String → DistroMap Bytes → DistroMap Bytes
delete name ds = reject (λ e. str_eq e.0 name) ds

unfoldable pub assign : {Bytes : Type 0} → String → Distro Bytes → DistroMap Bytes → DistroMap Bytes
unfolding delete
assign name d ds = (name, d) ∷ delete name ds

-- DistroDB. `discarded` are the distros that were handed to a goroutine that cleans them up.
pub record DistroDb (Bytes DbBytes : Type 0) : Type 0 where
  pub distros : DistroMap Bytes
  pub disk : Disk DbBytes
  pub stopped : Bool
  pub discarded : List (Distro Bytes)

pub record SerializableDistro : Type 0 where
  pub name : String
  pub guid : String
  pub properties : Properties

-- The YAML library, uuid.UUID.String, uuid.Parse and strings.ToLower.
pub record DbCodec (E DbBytes : Type 0) : Type 0 where
  pub marshal : List SerializableDistro → Result E DbBytes
  pub unmarshal : DbBytes → Result E (List SerializableDistro)
  pub show_guid : ℕ → String
  pub parse_guid : String → Option ℕ
  pub to_lower : String → String

-- The errors of a method: of distro.New, or of the file of the database.
pub data DbError (E : Type 0) : Type 0 where
  from_distro : DistroError E → DbError E
  from_disk : E → DbError E

-- A method returns a distro, or nil, and an error, or nil.
abbrev pub Found : Type 0 → Type 0 → Type 0 → Type 0
Found E Bytes DbBytes = DistroDb Bytes DbBytes × Option (Distro Bytes) × Option (DbError E)

-- The names that onCleanup is called with, and the error of dump.
abbrev pub Cleaned : Type 0 → Type 0 → Type 0 → Type 0
Cleaned E Bytes DbBytes = DistroDb Bytes DbBytes × List String × Option (DbError E)

string_le : String → String → Bool
string_le s t = elim (compare s t) [ Ordering.gt ↦ false | _ ↦ true ]

-- sort.Strings
insert_name : String → List String → List String
unfolding string_le
insert_name s [] = s ∷ []
insert_name s (t ∷ ts) =
    let rest = insert_name s ts in if string_le s t then s ∷ t ∷ ts else t ∷ rest

unfoldable pub sort_names : List String → List String
unfolding insert_name
sort_names [] = []
sort_names (s ∷ ss) = insert_name s (sort_names ss)

module _ {E Bytes DbBytes : Type 0} (db_codec : DbCodec E DbBytes) where
  new_serializable_distro : Distro Bytes → SerializableDistro
  new_serializable_distro d = record {
    name = d.identity.name;
    guid = db_codec.show_guid d.identity.guid;
    properties = d.properties;
  }

  serialize : DistroMap Bytes → List String → List SerializableDistro
  unfolding new_serializable_distro
  serialize ds [] = []
  serialize ds (n ∷ ns) =
      let rest = serialize ds ns in
      elim (lookup n ds) [ none ↦ rest | some d ↦ new_serializable_distro d ∷ rest ]

  write_dump :
      Faults E DbBytes
      → Result E DbBytes
      → DistroDb Bytes DbBytes
      → DistroDb Bytes DbBytes × Option (DbError E)
  write_dump io (err e) db = (db, some (from_disk e))
  write_dump io (ok out) db =
      let (disk, r) = replace_file io out db.disk in
      (record db { disk = disk }, elim r [ ok _ ↦ none | err e ↦ some (from_disk e) ])

  -- dump
  unfoldable pub dump :
      Faults E DbBytes → DistroDb Bytes DbBytes → DistroDb Bytes DbBytes × Option (DbError E)
  unfolding write_dump serialize
  dump io db =
      write_dump io
        (db_codec.marshal (serialize db.distros (sort_names (map (λ e. e.0) db.distros)))) db

  -- Get
  unfoldable pub get_distro : String → DistroDb Bytes DbBytes → Option (Option (Distro Bytes))
  get_distro name db =
      if db.stopped then none else some (lookup (db_codec.to_lower name) db.distros)

  -- What follows distro.New: the new distro is put in the map, and the map is dumped.
  unfoldable pub add :
      Faults E DbBytes
      → String
      → Option (Result (DistroError E) (Distro Bytes))
      → DistroDb Bytes DbBytes
      → Option (Found E Bytes DbBytes)
  unfolding dump
  add io name none db = none
  add io name (some (err e)) db = some (db, none, some (from_distro e))
  add io name (some (ok d)) db =
      let (db', e) = dump io (record db { distros = assign name d db.distros }) in
      some (db', some d, e)

  -- A distro that is found and valid.
  unfoldable pub refresh :
      Faults E DbBytes
      → String
      → Properties
      → Distro Bytes
      → DistroDb Bytes DbBytes
      → Found E Bytes DbBytes
  unfolding dump
  refresh io name props d db =
      let (d', changed) = set_properties props d in
      let db' = record db { distros = assign name d' db.distros } in
      if changed then (let (db'', e) = dump io db' in (db'', some d', e)) else (db', some d', none)

  -- A distro that is found and not valid.
  unfoldable pub discard : String → Distro Bytes → DistroDb Bytes DbBytes → DistroDb Bytes DbBytes
  discard name d db = record db { distros = delete name db.distros; discarded = d ∷ db.discarded }

  unfoldable pub found_or_new :
      Faults E DbBytes
      → String
      → Properties
      → RegistryAnswer
      → Option (Result (DistroError E) (Distro Bytes))
      → Option (Distro Bytes)
      → DistroDb Bytes DbBytes
      → Option (Found E Bytes DbBytes)
  found_or_new io name props answer made none db = add io name made db
  found_or_new io name props answer made (some d) db = elim (is_valid answer d) [
    | none ↦ none
    | some (false, d') ↦ add io name made (discard name d' db)
    | some (true, d') ↦ some (refresh io name props d' db)
  ]

  module _ (codec : Codec E Task Bytes) where
    -- GetDistroAndUpdateProperties. The registry answers to IsValid, and then to New, which reads the
    -- tasks of the distro from `tasks`.
    unfoldable pub get_distro_and_update_properties :
        Faults E DbBytes
        → Faults E Bytes
        → RegistryAnswer
        → RegistryAnswer
        → Disk Bytes
        → String
        → Properties
        → DistroDb Bytes DbBytes
        → Option (Found E Bytes DbBytes)
    get_distro_and_update_properties io task_io answer answer' tasks name props db =
        let normalized = db_codec.to_lower name in
        if db.stopped
        then none
        else found_or_new io normalized props answer
            (new_distro codec task_io name 0 props answer' tasks) (lookup normalized db.distros) db

  -- The loop of cleanup, with what the registry answers about each distro: the distros that stay,
  -- and those that are cleaned up.
  sweep :
      (String → RegistryAnswer)
      → DistroMap Bytes
      → Option (DistroMap Bytes × List (String × Distro Bytes))
  sweep answers [] = some ([], [])
  sweep answers ((n, d) ∷ ds) =
      let rest = sweep answers ds in
      elim (is_valid (answers n) d) [
        | none ↦ none
        | some (v, d') ↦ elim rest [
          | none ↦ none
          | some (kept, swept) ↦
              some (if v then ((n, d') ∷ kept, swept) else (kept, (n, d') ∷ swept))
        ]
      ]

  finish_sweep :
      Faults E DbBytes
      → DistroDb Bytes DbBytes
      → DistroMap Bytes × List (String × Distro Bytes)
      → Cleaned E Bytes DbBytes
  unfolding dump
  finish_sweep io db (kept, []) = (record db { distros = kept }, [], none)
  finish_sweep io db (kept, s ∷ swept) =
      let (db', e) =
        dump io
          (record db { distros = kept; discarded = map (λ x. x.1) (s ∷ swept) ++ db.discarded }) in
      (db', map (λ x. x.0) (s ∷ swept), e)

  -- cleanup
  unfoldable pub clean_up :
      Faults E DbBytes
      → (String → RegistryAnswer)
      → DistroDb Bytes DbBytes
      → Option (Cleaned E Bytes DbBytes)
  unfolding sweep finish_sweep
  clean_up io answers db = elim (sweep answers db.distros) [
    | none ↦ none
    | some swept ↦ some (finish_sweep io db swept)
  ]
