-- ===== src/Storage/Dir/Load/Laws.antt =====
-- What `buildResourceTree` makes of files: the tree is the map from the paths of the decoded
-- metadata to the decoded objects.
use boxroom_cloud_native.Base.{
  String, Bool, true, false, ◌&&◌, Option, none, some, [], ◌∷◌, ◌==◌, ◌≡◌, refl, ap, subst, ◌∙◌,
  if◌then◌else◌,
}
use boxroom_cloud_native.Base.Dict.{Dict, lookup}
use boxroom_cloud_native.Base.Action.{Result, value, error}
use boxroom_cloud_native.Util.DirPath.{generate_object_name}
use boxroom_cloud_native.Tree.Immobile.{object_kind}
use boxroom_cloud_native.Tree.Definition.{Fields}
use boxroom_cloud_native.Tree.Object.{Object, ObjectMetadata}
use boxroom_cloud_native.Tree.Namespace
use boxroom_cloud_native.Tree.Root.{KubernetesRoot}
use boxroom_cloud_native.Tree.Paths.{find}
use boxroom_cloud_native.Tree.Json.{
  Json, metadata_from_json, object_from_json, copy_fields_by_reflect,
}
use boxroom_cloud_native.Storage.Dir.{json_storage_kind, object_metadata_file_name}
use boxroom_cloud_native.Storage.Dir.Load.{Files, content_of, fill_object, add_to_root, add_files}
use boxroom_cloud_native.Storage.Dir.Load.Paths.{object_before, find-add_to_root, add_to_root-fails}

-- What the files of one directory say.
pub record Decoded : Type 0 where
  pub metadata : ObjectMetadata
  pub definition : Fields

abbrev pub with_metadata : ObjectMetadata → Result Fields → Option Decoded
with_metadata m (error e) = none
with_metadata m (value d) = some (record { metadata = m; definition = d })

-- The object that a directory describes.
abbrev pub stored_object : Decoded → Object
stored_object x = record {
  kind = object_kind;
  name = x.metadata.name;
  gvr = some (record {
    group = x.metadata.group;
    version = x.metadata.version;
    resource = x.metadata.resource;
  });
  definition = some x.definition;
  metadata = some x.metadata;
}

abbrev pub is_at : ObjectMetadata → String → String → String → String → String → Bool
is_at m g v r n o =
    m.group == g && (m.version == v && (m.resource == r && (m.namespace == n && m.name == o)))

abbrev pub or_else : {A : Type 0} → Option A → Option A → Option A
or_else (some a) b = some a
or_else none b = b

pub or_else-none : {A : Type 0} (a : Option A) → or_else a none ≡ a
or_else-none (some x) = refl
or_else-none none = refl

module _ (json : Json) where
  abbrev pub metadata_of : Files → Result ObjectMetadata
  metadata_of files = json.unmarshal_metadata (content_of (lookup object_metadata_file_name files))

  abbrev pub definition_of : Files → ObjectMetadata → Result Fields
  definition_of files m =
      json.unmarshal_definition
        (content_of (lookup (generate_object_name m.name json_storage_kind) files))

  abbrev pub decode_with : Files → Result ObjectMetadata → Option Decoded
  decode_with files (error e) = none
  decode_with files (value m) = with_metadata m (definition_of files m)

  abbrev pub decode : Files → Option Decoded
  decode files = decode_with files (metadata_of files)

  abbrev pub all_decode : Dict Files → Bool
  all_decode [] = true
  all_decode ((dir, files) ∷ resource_map) = elim (decode files) [
    | none ↦ false
    | some x ↦ all_decode resource_map
  ]

  abbrev pub object_if_at :
      Option Decoded → String → String → String → String → String → Option Object
  object_if_at none g v r n o = none
  object_if_at (some x) g v r n o =
      if is_at x.metadata g v r n o then some (stored_object x) else none

  -- The object of a path: the last directory that describes it.
  abbrev pub find_stored : Dict Files → String → String → String → String → String → Option Object
  find_stored [] g v r n o = none
  find_stored ((dir, files) ∷ resource_map) g v r n o =
      or_else (find_stored resource_map g v r n o) (object_if_at (decode files) g v r n o)

  -- Objects stand under their names.
  abbrev pub IsNamed : KubernetesRoot → Type 0
  IsNamed root =
      (g v r n o : String) (x : Object)
      → find root g v r n o ≡ some x
      → (x.kind ≡ object_kind) × (x.name ≡ o)

  with_metadata-some :
      (m : ObjectMetadata) (r : Result Fields) (x : Decoded)
      → with_metadata m r ≡ some x
      → (m ≡ x.metadata) × (r ≡ value x.definition)
  with_metadata-some m (value d) x h = (cc, cc)
  with_metadata-some m (error e) x h = cc

  decode_with-some :
      (files : Files) (r : Result ObjectMetadata) (x : Decoded)
      → decode_with files r ≡ some x
      → (r ≡ value x.metadata) × (definition_of files x.metadata ≡ value x.definition)
  decode_with-some files (error e) x h = cc
  decode_with-some files (value m) x h =
      let (same, d) = with_metadata-some m (definition_of files m) x h in
      (
        ap (λ (k : ObjectMetadata). value k) same,
        subst (λ (k : ObjectMetadata). definition_of files k ≡ value x.definition) same d,
      )

  pub decode-some :
      (files : Files) (x : Decoded)
      → decode files ≡ some x
      → (metadata_of files ≡ value x.metadata)
        × (definition_of files x.metadata ≡ value x.definition)
  decode-some files x h = decode_with-some files (metadata_of files) x h

  -- The object with its fields set.
  abbrev pub set_fields : Object → Decoded → Object
  set_fields object x = record object {
    definition = some x.definition;
    metadata = some x.metadata;
    gvr = some (record {
      group = x.metadata.group;
      version = x.metadata.version;
      resource = x.metadata.resource;
    });
  }

  pub fill_object-decoded :
      (files : Files) (x : Decoded) (object : Object)
      → definition_of files x.metadata ≡ value x.definition
      → fill_object json files x.metadata object ≡ (set_fields object x, none)
  unfolding fill_object object_from_json
  fill_object-decoded files x object h = rw h refl

  set_fields-stored_object :
      (object : Object) (x : Decoded)
      → object.kind ≡ object_kind
      → object.name ≡ x.metadata.name
      → set_fields object x ≡ stored_object x
  set_fields-stored_object object x k n = cc

  written-decoded :
      (root : KubernetesRoot) (files : Files) (x : Decoded) (before : Option Object)
      → ((y : Object) → before ≡ some y → (y.kind ≡ object_kind) × (y.name ≡ x.metadata.name))
      → definition_of files x.metadata ≡ value x.definition
      → fill_object json files x.metadata (object_before x.metadata.name before)
        ≡ (stored_object x, none)
  written-decoded root files x none named h =
      fill_object-decoded files x _ h
      ∙ ap (λ (y : Object). (y, none))
          (set_fields-stored_object (Namespace.new_child x.metadata.name) x refl refl)
  written-decoded root files x (some y) named h =
      fill_object-decoded files x _ h
      ∙ ap (λ (z : Object). (z, none))
          (set_fields-stored_object y x (named y refl).0 (named y refl).1)

  pub add_files-eq :
      (root : KubernetesRoot) (files : Files) (m : ObjectMetadata)
      → metadata_of files ≡ value m
      → add_files json root files ≡ add_to_root root m (fill_object json files m)
  unfolding add_files metadata_from_json copy_fields_by_reflect
  add_files-eq root files m h = rw (h, add_files) refl

  -- A directory that decodes sets the object of its path.
  pub add_files-decoded :
      (root : KubernetesRoot) (files : Files) (x : Decoded)
      → IsNamed root
      → decode files ≡ some x
      → ((add_files json root files).1 ≡ none)
        × ((g v r n o : String)
            → find (add_files json root files).0 g v r n o ≡ (
                if is_at x.metadata g v r n o then some (stored_object x) else find root g v r n o))
  add_files-decoded root files x named h =
      let (em, ed) = decode-some files x h in
      let m = x.metadata in
      let before = find root m.group m.version m.resource m.namespace m.name in
      let w : fill_object json files m (object_before m.name before) ≡ (stored_object x, none) =
        written-decoded root files x before
          (λ y e. named m.group m.version m.resource m.namespace m.name y e) ed in
      (
        ap (λ (q : KubernetesRoot × Option String). q.1) (add_files-eq root files m em)
            ∙ add_to_root-fails m (fill_object json files m) root
            ∙ ap (λ (q : Object × Option String). q.1) w,
        λ g v r n o.
            ap (λ (q : KubernetesRoot × Option String). find q.0 g v r n o)
              (add_files-eq root files m em)
            ∙ find-add_to_root m (fill_object json files m) root g v r n o
            ∙ ap
                (λ (q : Object × Option String).
                  if is_at m g v r n o then some q.0 else find root g v r n o)
                w,
      )
