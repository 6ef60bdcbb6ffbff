-- ===== src/Storage/Dir/RoundTrip.antt =====
-- The tree that is built from the files of a tree.
pub mod Levels
pub mod Trees
pub mod Maps
pub mod Places
pub mod Apart
pub mod Placed
pub mod AnyOrder
pub mod Loaded
use boxroom_cloud_native.Base.{
  String, ◌<>◌, Bool, true, false, ◌&&◌, ◌||◌, Option, none, some, List, [], ◌∷◌, ◌++◌, map, ◌==◌,
  ◌≡◌, refl, sym, ap, subst, ◌∙◌, arith, if◌then◌else◌, Bool-cases, Option-cases, inl, inr, eq_iff,
  eq_refl,
}
use mathlib.Core.Bool.{true≢false}
use text.Mathlib.TextLemmas.{nil-append, cons-append}
use boxroom_cloud_native.Base.Dict.{Dict, lookup, contains}
use boxroom_cloud_native.Base.Walk.{IsDict, Named}
use boxroom_cloud_native.Base.Action.{Result, value, error}
use boxroom_cloud_native.Util.DirPath.{generate_dir_path, generate_object_name}
use boxroom_cloud_native.Tree.Immobile.{object_kind}
use boxroom_cloud_native.Tree.Definition.{Fields}
use boxroom_cloud_native.Tree.Object.{Object, ObjectMetadata}
use boxroom_cloud_native.Tree.Namespace.{Namespace}
use boxroom_cloud_native.Tree.Resource.{Resource}
use boxroom_cloud_native.Tree.Version.{Version}
use boxroom_cloud_native.Tree.Group.{Group}
use boxroom_cloud_native.Tree.Root.{KubernetesRoot}
use boxroom_cloud_native.Tree.Shape.{at_option}
use boxroom_cloud_native.Tree.Paths.{
  find, namespace_at, resource_at, version_at, group_at, object_at,
}
use boxroom_cloud_native.Tree.Json.{Json, IsLawful}
use boxroom_cloud_native.KubeAgent.Build.Invariant.{
  BuiltObject, BuiltNamespace, BuiltResource, BuiltVersion, BuiltGroup, BuiltRoot,
}
use boxroom_cloud_native.Storage.Dir.{json_storage_kind, object_metadata_file_name}
use boxroom_cloud_native.Storage.Dir.Write.Located.{
  concat_map, Located, in_namespace, in_resource, in_version, in_group, in_root,
}
use boxroom_cloud_native.Storage.Dir.Load.{Files, content_of, build_resource_tree}
use boxroom_cloud_native.Storage.Dir.Load.Laws.{
  Decoded, stored_object, is_at, or_else, decode, decode_with, with_metadata, metadata_of,
  definition_of, all_decode, object_if_at, find_stored,
}
use boxroom_cloud_native.Storage.Dir.Load.Build.{build_resource_tree-finds}

abbrev pub text_of : Result String → String
text_of (value text) = text
text_of (error e) = ""

-- A definition that has a kind, and is encoded without an error, like the metadata.
pub record IsStorable (json : Json) (object : Object) : Type 0 where
  pub item : Fields
  pub defined : object.definition ≡ some item
  pub kinded : (json.kind_of item == "") ≡ false
  pub text : String
  pub encoded : json.marshal_definition item ≡ value text
  pub metadata_text : String
  pub metadata_encoded : json.marshal_metadata object.metadata ≡ value metadata_text

abbrev pub Each : {C : Type 0} → (C → Type 0) → Dict C → Type 0
Each Q [] = Unit {0}
Each Q ((k, c) ∷ d) = Q c × Each Q d

-- What holds of each object of a tree.
abbrev pub EachObject : (Object → Type 0) → KubernetesRoot → Type 0
EachObject Q root =
    Each
      (λ (g : Group).
        Each
          (λ (v : Version).
            Each (λ (r : Resource). Each (λ (n : Namespace). Each Q n.objects) r.namespaces)
              v.resources)
          g.versions)
      root.groups

abbrev pub encoded_definition : Json → Option Fields → String
encoded_definition json none = ""
encoded_definition json (some d) = text_of (json.marshal_definition d)

-- The directory of an object, with a slash at its end.
abbrev pub directory_key : Located → String
directory_key (dir, object) = generate_dir_path (dir ∷ object.name ∷ []) <> "/"

-- The same by the path of the object in the tree.
abbrev pub path_key : String → String → String → String → String → String → String
path_key dir g v r n o =
    let version_dir = generate_dir_path (dir ∷ (g <> "_") ∷ []) <> v in
    let resource_dir = generate_dir_path (version_dir ∷ r ∷ []) in
    let namespace_dir = generate_dir_path (resource_dir ∷ n ∷ []) in
    generate_dir_path (namespace_dir ∷ o ∷ []) <> "/"

unfoldable has_dot : String → Bool
has_dot String.[] = false
has_dot (String.◌∷◌ c s) =
    let rest = has_dot s in if String.◌∷◌ c String.[] == "." then true else rest

has_dot-append : (s t : String) → has_dot t ≡ true → has_dot (s <> t) ≡ true
unfolding has_dot
has_dot-append String.[] t h = ap has_dot (nil-append t) ∙ h
has_dot-append (String.◌∷◌ c s) t h =
    ap has_dot (cons-append c s t) ∙ ground (arith, has_dot-append s t h)

-- The file of a definition is not the file of the metadata.
pub names_differ : (s : String) → (generate_object_name s "json" == "metadata") ≡ false
unfolding generate_object_name has_dot
names_differ s = elim (Bool-cases (s <> ("." <> "json") == "metadata")) [
  | inr e ↦ e
  | inl e ↦ absurd (
      true≢false (
        sym (has_dot-append s ("." <> "json") refl)
        ∙ ap has_dot ((eq_iff (s <> ("." <> "json")) "metadata").0 e)))
]

module _ (json : Json) where
  -- The contents of the directory of an object, as `storeObjectLocal` writes them for the kind
  -- `json`.
  abbrev pub object_files : Object → Files
  object_files object =
      (
        generate_object_name object.name json_storage_kind,
        encoded_definition json object.definition,
      )
      ∷ (object_metadata_file_name, text_of (json.marshal_metadata object.metadata))
      ∷ []

  -- The directories of objects, as `filepath.Split` names them, with their contents.
  abbrev pub directories : List Located → Dict Files
  directories objects = map (λ (e : Located). (directory_key e, object_files e.1)) objects

  lookup-metadata :
      (object : Object)
      → content_of (lookup object_metadata_file_name (object_files object))
        ≡ text_of (json.marshal_metadata object.metadata)
  unfolding lookup
  lookup-metadata object = rw (names_differ object.name) refl

  lookup-definition :
      (object : Object)
      → content_of
          (lookup (generate_object_name object.name json_storage_kind) (object_files object))
        ≡ encoded_definition json object.definition
  unfolding lookup
  lookup-definition object = rw eq_refl refl

  same_object :
      (object : Object) (x : Decoded)
      → object.kind ≡ object_kind
      → object.gvr
        ≡ some (record {
          group = x.metadata.group;
          version = x.metadata.version;
          resource = x.metadata.resource;
        })
      → object.definition ≡ some x.definition
      → object.metadata ≡ some x.metadata
      → object.name ≡ x.metadata.name
      → stored_object x ≡ object
  same_object object x k g d m n = cc

  -- The files of an object of a built tree decode to the object.
  pub decode-object_files :
      (L : IsLawful json) (g v r n : String) (clu : Bool) (object : Object)
      → BuiltObject g v r clu n object
      → IsStorable json object
      → (x : Decoded) × (decode json (object_files object) ≡ some x)
        × (stored_object x ≡ object)
        × (x.metadata ≡ record {
          kind = object_kind;
          name = object.name;
          group = g;
          version = v;
          resource = r;
          namespace = n;
          is_cluster = clu;
        })
  decode-object_files L g v r n clu object b s =
      let m : ObjectMetadata = record {
        kind = object_kind;
        name = object.name;
        group = g;
        version = v;
        resource = r;
        namespace = n;
        is_cluster = clu;
      } in
      let x : Decoded = record { metadata = m; definition = s.item } in
      let files = object_files object in
      let em : metadata_of json files ≡ value m =
        ap json.unmarshal_metadata (lookup-metadata object ∙ ap text_of s.metadata_encoded)
        ∙ L.unmarshal-marshal_metadata m s.metadata_text
            (ap json.marshal_metadata (sym b.3) ∙ s.metadata_encoded) in
      let ed : definition_of json files m ≡ value s.item =
        ap json.unmarshal_definition
          (lookup-definition object ∙ ap (encoded_definition json) s.defined ∙ ap text_of s.encoded)
        ∙ L.unmarshal-marshal_definition s.item s.text s.kinded s.encoded in
      (
        x,
        ap (decode_with json files) em ∙ ap (with_metadata m) ed,
        same_object object x b.0 b.1 s.defined b.3 refl,
        refl,
      )
