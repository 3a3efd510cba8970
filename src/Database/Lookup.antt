-- ===== src/Database/Lookup.antt =====
-- Laws of the map of windows-agent/internal/distros/database/database.go, and of the distros in it.
use ubuntu_pro_for_wsl.Prelude.{
  ◌≡◌, refl, inl, inr, Bool, true, false, Option, none, some, Result, ok, err, String, str_eq_refl,
  and_split, eq_iff, arith, Bool-cases,
}
use ubuntu_pro_for_wsl.Storage.{Disk, Faults}
use ubuntu_pro_for_wsl.Task.{Task}
use ubuntu_pro_for_wsl.TaskManager.{Codec}
use ubuntu_pro_for_wsl.Worker.{Worker, new_worker}
use ubuntu_pro_for_wsl.Distro.{
  Identity, Properties, Distro, RegistryAnswer, registered, not_exist, inaccessible, DistroError,
  bool_eq, properties_eq, set_properties, is_valid, new_identity, with_worker, new_distro,
}
use ubuntu_pro_for_wsl.Database.{DistroMap, DistroDb, DbCodec, lookup, assign, dump}

pub lookup-assign :
    {Bytes : Type 0} (n : String) (d : Distro Bytes) (ds : DistroMap Bytes)
    → lookup n (assign n d ds) ≡ some d
unfolding lookup assign
lookup-assign n d ds = rw (str_eq_refl n) refl

bool_eq-≡ : (a b : Bool) → bool_eq a b ≡ true → a ≡ b
unfolding bool_eq
bool_eq-≡ a b h = ground arith

same_properties :
    (p q : Properties)
    → p.distro_id ≡ q.distro_id
    → p.version_id ≡ q.version_id
    → p.pretty_name ≡ q.pretty_name
    → p.hostname ≡ q.hostname
    → p.pro_attached ≡ q.pro_attached
    → p ≡ q
same_properties p q a b c d e = λ i. record {
  distro_id = a i;
  version_id = b i;
  pretty_name = c i;
  hostname = d i;
  pro_attached = e i;
}

pub properties_eq-≡ : (p q : Properties) → properties_eq p q ≡ true → p ≡ q
unfolding properties_eq bool_eq
properties_eq-≡ p q h =
    let (h1, e) = and_split _ _ h in
    let (h2, d) = and_split _ _ h1 in
    let (h3, c) = and_split _ _ h2 in
    let (a, b) = and_split _ _ h3 in
    same_properties p q ((eq_iff _ _).0 a) ((eq_iff _ _).0 b) ((eq_iff _ _).0 c) ((eq_iff _ _).0 d)
      (bool_eq-≡ _ _ e)

pub set_properties_lem :
    {Bytes : Type 0} (p : Properties) (d : Distro Bytes)
    → ((set_properties p d).0.properties ≡ p) × ((set_properties p d).0.invalidated ≡ d.invalidated)
unfolding set_properties
set_properties_lem p d = elim (Bool-cases (properties_eq d.properties p)) [
  | inl h ↦ rw (h, set_properties) (properties_eq-≡ d.properties p h, refl)
  | inr h ↦ rw (h, set_properties) (refl, refl)
]

pub is_valid-true :
    {Bytes : Type 0} (answer : RegistryAnswer) (d d' : Distro Bytes)
    → is_valid answer d ≡ some (true, d')
    → (d' ≡ d) × (d.invalidated ≡ false)
unfolding is_valid
is_valid-true answer d d' h = ground arith

pub is_valid-false :
    {Bytes : Type 0} (answer : RegistryAnswer) (d d' : Distro Bytes)
    → is_valid answer d ≡ some (false, d')
    → d'.invalidated ≡ true
unfolding is_valid
is_valid-false answer d d' h = ground arith

pub is_valid-none :
    {Bytes : Type 0} (answer : RegistryAnswer) (d : Distro Bytes)
    → is_valid answer d ≡ none
    → answer ≡ inaccessible
unfolding is_valid
is_valid-none answer d h = ground arith

-- What New makes: a valid distro with the properties that it is given.
abbrev pub IsMade :
    {E Bytes : Type 0} → Properties → Option (Result (DistroError E) (Distro Bytes)) → Type 0
IsMade props none = ⊥
IsMade props (some (err e)) = Unit {0}
IsMade props (some (ok d)) = (d.properties ≡ props) × (d.invalidated ≡ false)

module _ {E Bytes : Type 0} (codec : Codec E Task Bytes) (io : Faults E Bytes) where
  with_worker-IsMade :
      (props : Properties) (id : Identity) (w : Result E (Worker Bytes))
      → IsMade {E = E} props (some (with_worker codec io props id w))
  unfolding with_worker
  with_worker-IsMade props id (err e) = tt
  with_worker-IsMade props id (ok w) = (refl, refl)

  pub new_distro-IsMade :
      (name : String) (props : Properties) (answer : RegistryAnswer) (disk : Disk Bytes)
      → IsMade props (new_distro codec io name 0 props answer disk)
  unfolding new_distro new_identity
  new_distro-IsMade name props (registered guid) disk =
      with_worker-IsMade props _ (new_worker codec io disk)
  new_distro-IsMade name props not_exist disk = tt
  new_distro-IsMade name props inaccessible disk = tt

pub dump-distros :
    {E Bytes DbBytes : Type 0} (db_codec : DbCodec E DbBytes) (io : Faults E DbBytes)
    (db : DistroDb Bytes DbBytes)
    → (dump db_codec io db).0.distros ≡ db.distros
unfolding dump
dump-distros db_codec io db = ground arith

pub dump-discarded :
    {E Bytes DbBytes : Type 0} (db_codec : DbCodec E DbBytes) (io : Faults E DbBytes)
    (db : DistroDb Bytes DbBytes)
    → (dump db_codec io db).0.discarded ≡ db.discarded
unfolding dump
dump-discarded db_codec io db = ground arith
