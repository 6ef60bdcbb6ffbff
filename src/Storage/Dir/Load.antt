-- ===== src/Storage/Dir/Load.antt =====
-- The tree of the files: `TransformLocalToResourceTree` of kubernetes/storage/dir/dir.go and the
-- functions below it.
pub mod Paths
pub mod Laws
pub mod Build
use boxroom_cloud_native.Base.{
  String, Bool, true, false, Option, none, some, List, [], ◌∷◌, ◌==◌, if◌then◌else◌,
}
use boxroom_cloud_native.Base.Dict.{Dict, lookup, set}
use boxroom_cloud_native.Base.Action.{
  Act, Result, value, error, return, nil_dereference, attempt, deferred, ◌>>=◌, ◌>>◌,
}
use boxroom_cloud_native.Util.DirPath.{generate_object_name}
use boxroom_cloud_native.Util.FilePath.{split_file}
use boxroom_cloud_native.Util.System.{Os, Archives}
use boxroom_cloud_native.Util.FileOperator.{open_file, delete_dir_or_file}
use boxroom_cloud_native.Util.TgzPacker.{unpack}
use boxroom_cloud_native.Tree.Object.{Object, ObjectMetadata}
use boxroom_cloud_native.Tree.Namespace
use boxroom_cloud_native.Tree.Namespace.{Namespace}
use boxroom_cloud_native.Tree.Resource
use boxroom_cloud_native.Tree.Resource.{Resource}
use boxroom_cloud_native.Tree.Version
use boxroom_cloud_native.Tree.Version.{Version}
use boxroom_cloud_native.Tree.Group
use boxroom_cloud_native.Tree.Group.{Group}
use boxroom_cloud_native.Tree.Root
use boxroom_cloud_native.Tree.Root.{KubernetesRoot}
use boxroom_cloud_native.Tree.Json.{Json, object_from_json, metadata_from_json}
use boxroom_cloud_native.Storage.Dir.{json_storage_kind, object_metadata_file_name}

-- The contents of the files of a directory, by their names.
abbrev pub Files : Type 0
Files = Dict String

abbrev pub or_empty : Option Files → Files
or_empty none = []
or_empty (some files) = files

-- `resource[name]`, where a missing file is nil, which decodes like an empty text.
abbrev pub content_of : Option String → String
content_of none = ""
content_of (some content) = content

-- `resourceMap[dirName][fileName] = content`
unfoldable pub add_file : Dict Files → String → String → String → Dict Files
add_file resource_map dir_name file_name content =
    set dir_name (set file_name content (or_empty (lookup dir_name resource_map))) resource_map

-- `&tree.ObjectMetadata{}`
abbrev pub no_metadata : ObjectMetadata
no_metadata = record {
  kind = "";
  name = "";
  group = "";
  version = "";
  resource = "";
  namespace = "";
  is_cluster = false;
}

-- The chain of `AddChildren`, and the writes to the object that it gives. A write through a child's
-- pointer is a write of the child back into its parent.
unfoldable pub add_to_namespace :
    Namespace → ObjectMetadata → (Object → Object × Option String) → Namespace × Option String
unfolding Namespace.add_children Namespace.put_children
add_to_namespace namespace m write =
    let (grown, object) = Namespace.add_children namespace m.name in
    let (written, failed) = write object in (Namespace.put_children grown m.name written, failed)

unfoldable pub add_to_resource :
    Resource → ObjectMetadata → (Object → Object × Option String) → Resource × Option String
unfolding Resource.add_children Resource.put_children add_to_namespace
add_to_resource resource m write =
    let (grown, namespace) = Resource.add_children resource m.namespace in
    let (written, failed) = add_to_namespace namespace m write in
    (Resource.put_children grown m.namespace written, failed)

unfoldable pub add_to_version :
    Version → ObjectMetadata → (Object → Object × Option String) → Version × Option String
unfolding Version.add_children Version.put_children add_to_resource
add_to_version version m write =
    let (grown, resource) = Version.add_children version m.resource m.is_cluster in
    let (written, failed) = add_to_resource resource m write in
    (Version.put_children grown m.resource written, failed)

unfoldable pub add_to_group :
    Group → ObjectMetadata → (Object → Object × Option String) → Group × Option String
unfolding Group.add_children Group.put_children add_to_version
add_to_group group m write =
    let (grown, version) = Group.add_children group m.version in
    let (written, failed) = add_to_version version m write in
    (Group.put_children grown m.version written, failed)

unfoldable pub add_to_root :
    KubernetesRoot
    → ObjectMetadata
    → (Object → Object × Option String)
    → KubernetesRoot × Option String
unfolding Root.add_children Root.put_children add_to_group
add_to_root root m write =
    let (grown, group) = Root.add_children root m.group in
    let (written, failed) = add_to_group group m write in
    (Root.put_children grown m.group written, failed)

-- The fields that are set once the definition is decoded.
abbrev pub described : ObjectMetadata → Object × Option String → Object × Option String
described m (object, some e) = (object, some e)
described m (object, none) = (
  record object {
    metadata = some m;
    gvr = some (record { group = m.group; version = m.version; resource = m.resource });
  },
  none,
)

module _ (json : Json) where
  -- What the body of the loop writes to the object.
  unfoldable pub fill_object : Files → ObjectMetadata → Object → Object × Option String
  unfolding object_from_json generate_object_name
  fill_object files m object = described m (
      object_from_json json object
        (content_of (lookup (generate_object_name m.name json_storage_kind) files)))

  -- The body of the loop.
  unfoldable pub add_files : KubernetesRoot → Files → KubernetesRoot × Option String
  unfolding metadata_from_json add_to_root fill_object
  add_files root files =
      elim (metadata_from_json json no_metadata
        (content_of (lookup object_metadata_file_name files))) [
          | error e ↦ (root, some e)
          | value m ↦ add_to_root root m (fill_object files m)
        ]

  -- The tree as it is left, and the error, at which the loop ends.
  unfoldable pub add_all_files : KubernetesRoot → Dict Files → KubernetesRoot × Option String
  unfolding add_files
  add_all_files root [] = (root, none)
  add_all_files root ((dir, files) ∷ resource_map) =
      let (added, failed) = add_files root files in
      let rest = add_all_files added resource_map in
      elim failed [ some e ↦ (added, some e) | none ↦ rest ]

  unfoldable pub build_resource_tree : KubernetesRoot → Dict Files → KubernetesRoot × Option String
  unfolding add_all_files
  build_resource_tree root resource_map = add_all_files (record root { groups = [] }) resource_map

module _ {W : Type 0} (os : Os W) where
  -- The function that the walk calls. At an entry that is nil it panics.
  unfoldable pub visit_file : String → Option Bool → Dict Files → Act W (Dict Files)
  unfolding split_file open_file add_file
  visit_file path none resource_map = nil_dereference
  visit_file path (some true) resource_map = return resource_map
  visit_file path (some false) resource_map = do
    let (dir_name, file_name) = split_file path
    reader ← open_file os path
    buff ← os.read_all reader
    deferred (os.close reader) (return (add_file resource_map dir_name file_name buff))

  unfoldable pub get_local_resource_map : String → Act W (Dict Files)
  unfolding visit_file
  get_local_resource_map local_storage_dir = os.walk_dir local_storage_dir visit_file []

  -- The archive is unpacked and deleted, and the files below the directory are read.
  unfoldable pub unpack_resource_map : Archives os → String → String → Act W (Dict Files)
  unfolding unpack delete_dir_or_file get_local_resource_map
  unpack_resource_map tar local_storage_dir local_file = do
    unpack os tar local_file local_storage_dir
    delete_dir_or_file os local_file
    get_local_resource_map local_storage_dir

  unfoldable pub transform_local_to_resource_tree :
      Archives os → Json → String → String → KubernetesRoot → Act W (KubernetesRoot × Option String)
  unfolding unpack_resource_map build_resource_tree
  transform_local_to_resource_tree tar json local_storage_dir local_file root = do
    read ← attempt (unpack_resource_map tar local_storage_dir local_file)
    elim read [
      | error e ↦ return (root, some e)
      | value resource_map ↦ return (build_resource_tree json root resource_map)
    ]
