-- ===== src/TaskYaml.antt =====
-- windows-agent/internal/distros/task/yaml.go: tasks as YAML. The YAML library is a parameter: it
-- turns the helpers into bytes and back, and keeps the node of each task undecoded.
use ubuntu_pro_for_wsl.Prelude.{
  ◌≡◌, refl, String, List, [], ◌∷◌, map, Option, none, some, Result, ok, err, ◌>>=◌, map_err,
  or_err, if◌then◌else◌, str_eq,
}
use ubuntu_pro_for_wsl.Task.{Task, pro_attachment, landscape_configure}

-- yamlTaskHelper, as it is marshalled.
pub record YamlTaskHelper : Type 0 where
  pub task : Task
  pub type_name : String

-- The intermediate struct of yamlTaskHelper.UnmarshalYAML, its task a rawTask.
pub record RawHelper (Node : Type 0) : Type 0 where
  pub type_name : String
  pub node : Option Node

pub data DecodeError (E : Type 0) : Type 0 where
  yaml_error : E → DecodeError E
  nil_node : DecodeError E
  not_registered : DecodeError E
  not_decoded : E → DecodeError E

-- yaml.v3: Marshal, Unmarshal into the intermediate structs, and Node.Decode into the two task
-- types.
pub record Yaml (E Bytes Node : Type 0) : Type 0 where
  pub marshal : List YamlTaskHelper → Result E Bytes
  pub unmarshal : Bytes → Result E (List (RawHelper Node))
  pub decode_pro_attachment : Node → Result E String
  pub decode_landscape_configure : Node → Result E String

-- reflect.TypeOf(t).String()
unfoldable pub type_of : Task → String
type_of (pro_attachment token) = "tasks.ProAttachment"
type_of (landscape_configure config) = "tasks.LandscapeConfigure"

unfoldable pub helpers : List Task → List YamlTaskHelper
helpers [] = []
helpers (t ∷ ts) = record { task = t; type_name = type_of t } ∷ helpers ts

map_ok : {E A B : Type 0} → (A → B) → Result E A → Result E B
map_ok f (ok a) = ok (f a)
map_ok f (err e) = err e

module _ {E Bytes Node : Type 0} (yaml : Yaml E Bytes Node) where
  unfoldable pub marshal_yaml : List Task → Result E Bytes
  unfolding helpers type_of
  marshal_yaml tasks = yaml.marshal (helpers tasks)

  -- The registry that the calls of Register[T] in package tasks fill.
  registry : String → Option (Node → Result E Task)
  registry name =
      if str_eq name "tasks.ProAttachment"
      then some (λ n. map_ok pro_attachment (yaml.decode_pro_attachment n))
      else (if str_eq name "tasks.LandscapeConfigure"
          then some (λ n. map_ok landscape_configure (yaml.decode_landscape_configure n))
          else none)

  -- rawTask.decode
  decode : Option Node → String → Result (DecodeError E) Task
  unfolding registry map_ok
  decode none type_name = err nil_node
  decode (some node) type_name = do
    decoder ← or_err (registry type_name) not_registered
    map_err not_decoded (decoder node)

  decode_all : List (RawHelper Node) → Result (DecodeError E) (List Task)
  unfolding decode
  decode_all [] = ok []
  decode_all (h ∷ hs) = do t ← decode h.node h.type_name; ts ← decode_all hs; ok (t ∷ ts)

  unfoldable pub unmarshal_yaml : Bytes → Result (DecodeError E) (List Task)
  unfolding decode_all
  unmarshal_yaml bytes = do raws ← map_err yaml_error (yaml.unmarshal bytes); decode_all raws

-- What the code relies on: a document that was marshalled is read back as the nodes of its tasks,
-- and the node of a task decodes to its contents.
pub record IsFaithful {E Bytes Node : Type 0} (yaml : Yaml E Bytes Node) (to_node : Task → Node)
    : Type 0 where
  pub reads_back :
      (hs : List YamlTaskHelper) (b : Bytes)
      → yaml.marshal hs ≡ ok b
      → yaml.unmarshal b
        ≡ ok (map (λ h. record { type_name = h.type_name; node = some (to_node h.task) }) hs)
  pub decodes_pro_attachment :
      (token : String) → yaml.decode_pro_attachment (to_node (pro_attachment token)) ≡ ok token
  pub decodes_landscape_configure :
      (config : String)
      → yaml.decode_landscape_configure (to_node (landscape_configure config)) ≡ ok config

module _ {E Bytes Node : Type 0} (yaml : Yaml E Bytes Node) {to_node : Task → Node}
    (faithful : IsFaithful yaml to_node) where
  decode-task : (t : Task) → decode yaml (some (to_node t)) (type_of t) ≡ ok t
  unfolding decode type_of
  decode-task (pro_attachment token) = rw (faithful.decodes_pro_attachment token)
  decode-task (landscape_configure config) = rw (faithful.decodes_landscape_configure config)

  decode_all-helpers :
      (ts : List Task)
      → decode_all yaml
          (map (λ h. record { type_name = h.type_name; node = some (to_node h.task) }) (helpers ts))
        ≡ ok ts
  unfolding decode_all helpers
  decode_all-helpers [] = refl
  decode_all-helpers (t ∷ ts) = rw (decode-task t, decode_all-helpers ts)

  -- If marshalling a list of tasks gives a document, unmarshalling the document gives the list,
  -- types and contents alike. The YAML library is assumed to read its own documents back.
  pub unmarshal_yaml-marshal_yaml :
      (ts : List Task) (b : Bytes) → marshal_yaml yaml ts ≡ ok b → unmarshal_yaml yaml b ≡ ok ts
  unfolding marshal_yaml unmarshal_yaml
  unmarshal_yaml-marshal_yaml ts b h =
      rw (faithful.reads_back (helpers ts) b h) (decode_all-helpers ts)
