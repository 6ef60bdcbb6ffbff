-- ===== src/Tree/Json.antt =====
-- The JSON forms of objects, metadata and mission status: the `CovertStructToJson` and
-- `CovertJsonToStruct` methods of kubernetes/resource/tree/object.go and status.go, over
-- `encoding/json`, the unstructured types of k8s.io/apimachinery and sigs.k8s.io/yaml.
use boxroom_cloud_native.Base.{String, false, Option, none, some, ◌==◌, ◌≡◌}
use boxroom_cloud_native.Base.Outcome.{Outcome, done, panic}
use boxroom_cloud_native.Base.Action.{Result, value, error}
use boxroom_cloud_native.Tree.Definition.{Fields}
use boxroom_cloud_native.Tree.Object.{Object, ObjectMetadata}
use boxroom_cloud_native.Tree.Status.{MissionStatus}

pub record Json : Type 0 where
  -- `Unstructured.MarshalJSON` and `UnmarshalJSON`
  pub marshal_definition : Fields → Result String
  pub unmarshal_definition : String → Result Fields
  -- the kind of `Unstructured.GroupVersionKind`, which is empty where the object names none, or
  -- where its apiVersion cannot be parsed
  pub kind_of : Fields → String
  -- `json.Marshal` of a pointer that may be nil, and `json.Unmarshal`
  pub marshal_metadata : Option ObjectMetadata → Result String
  pub unmarshal_metadata : String → Result ObjectMetadata
  pub marshal_status : MissionStatus → Result String
  pub json_to_yaml : String → Result String

-- What is encoded is decoded to the same value: a definition, where its kind is not empty, since
-- `UnmarshalJSON` refuses an object without a kind.
pub record IsLawful (json : Json) : Type 0 where
  pub unmarshal-marshal_definition :
      (d : Fields) (text : String)
      → (json.kind_of d == "") ≡ false
      → json.marshal_definition d ≡ value text
      → json.unmarshal_definition text ≡ value d
  pub unmarshal-marshal_metadata :
      (m : ObjectMetadata) (text : String)
      → json.marshal_metadata (some m) ≡ value text
      → json.unmarshal_metadata text ≡ value m

-- `CopyFieldsByReflect` between two values of the type `ObjectMetadata`, without names of fields:
-- each field of the source is set in the target.
unfoldable pub copy_fields_by_reflect : ObjectMetadata → ObjectMetadata → ObjectMetadata
copy_fields_by_reflect target source = record target {
  kind = source.kind;
  name = source.name;
  group = source.group;
  version = source.version;
  resource = source.resource;
  namespace = source.namespace;
  is_cluster = source.is_cluster;
}

-- The object that a failed decoding leaves is the one it was called on.
abbrev pub with_definition : Object → Result Fields → Object × Option String
with_definition object (value d) = (record object { definition = some d }, none)
with_definition object (error e) = (object, some e)

abbrev pub copied : ObjectMetadata → Result ObjectMetadata → Result ObjectMetadata
copied metadata (value m) = value (copy_fields_by_reflect metadata m)
copied metadata (error e) = error e

module _ (json : Json) where
  -- A nil definition is dereferenced.
  unfoldable pub object_to_json : Object → Outcome (Result String)
  object_to_json object = elim object.definition [
    | none ↦ panic
    | some definition ↦ done (json.marshal_definition definition)
  ]

  unfoldable pub object_from_json : Object → String → Object × Option String
  object_from_json object json_definition =
      with_definition object (json.unmarshal_definition json_definition)

  unfoldable pub metadata_to_json : Option ObjectMetadata → Result String
  metadata_to_json metadata = json.marshal_metadata metadata

  unfoldable pub metadata_from_json : ObjectMetadata → String → Result ObjectMetadata
  unfolding copy_fields_by_reflect
  metadata_from_json metadata json_definition =
      copied metadata (json.unmarshal_metadata json_definition)

  unfoldable pub status_to_json : MissionStatus → Result String
  status_to_json m = json.marshal_status m
