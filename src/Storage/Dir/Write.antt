-- ===== src/Storage/Dir/Write.antt =====
-- The files of a stored tree: `TransformResourceTreeToLocal` of kubernetes/storage/dir/dir.go and
-- the functions below it.
pub mod Located
pub mod Disk
use boxroom_cloud_native.Base.{
  String, ◌<>◌, Bool, true, false, not, Option, none, some, List, [], ◌∷◌, ◌==◌, if◌then◌else◌,
}
use boxroom_cloud_native.Base.Outcome.{Outcome, done, panic}
use boxroom_cloud_native.Base.Dict.{Dict, set}
use boxroom_cloud_native.Base.Action.{
  Act, Result, value, error, return, fail, nil_dereference, attempt, reraise, logged, deferred,
  observe, for_each, ◌>>=◌, ◌>>◌,
}
use boxroom_cloud_native.Util.DirPath.{generate_dir_path, generate_object_name}
use boxroom_cloud_native.Util.System.{Os, Archives}
use boxroom_cloud_native.Util.FileOperator.{
  check_dir_is_valid, check_file_is_valid, create_dir, create_file, write_file, delete_dir_or_file,
}
use boxroom_cloud_native.Util.TgzPacker.{pack}
use boxroom_cloud_native.Tree.Object.{Object}
use boxroom_cloud_native.Tree.Namespace.{Namespace}
use boxroom_cloud_native.Tree.Resource.{Resource}
use boxroom_cloud_native.Tree.Version.{Version}
use boxroom_cloud_native.Tree.Group.{Group}
use boxroom_cloud_native.Tree.Root.{KubernetesRoot}
use boxroom_cloud_native.Tree.Json.{Json, object_to_json, metadata_to_json}
use boxroom_cloud_native.Storage.Dir.{
  json_storage_kind, yaml_storage_kind, object_metadata_file_name, upload_storage_kind,
  root_work_dir, timestamp_format, Upload,
}
use boxroom_cloud_native.Storage.Dir.Names.{get_local_storage_dir, get_remote_storage_dir}

-- A conversion that may panic.
abbrev pub converted : {W A : Type 0} → Outcome (Result A) → Act W A
converted panic = nil_dereference
converted (done r) = reraise r

module _ {W : Type 0} (os : Os W) (json : Json) where
  -- The switch on the kind of storage, which does nothing for a kind that it does not name.
  unfoldable pub write_definition : os.File → String → String → Act W (Unit {0})
  unfolding write_file
  write_definition object_file json_definition storage_kind =
      if storage_kind == json_storage_kind
      then write_file os object_file json_definition
      else if storage_kind == yaml_storage_kind
      then (do
        yaml_definition ← reraise (json.json_to_yaml json_definition)
        write_file os object_file yaml_definition)
      else return tt

  -- What is written once both files are made.
  unfoldable pub write_object : os.File → os.File → Object → String → Act W (Unit {0})
  unfolding object_to_json metadata_to_json write_definition write_file
  write_object object_file metadata_file object storage_kind = do
    json_definition ← converted (object_to_json json object)
    metadata_definition ← reraise (metadata_to_json json object.metadata)
    write_definition object_file json_definition storage_kind
    write_file os metadata_file metadata_definition

  -- A nil file's deferred `Close` does nothing.
  unfoldable pub store_object_local : String → Object → String → Act W (Unit {0})
  unfolding generate_dir_path generate_object_name create_dir create_file write_object
  store_object_local parents_dir object storage_kind = do
    let object_dir = generate_dir_path (parents_dir ∷ object.name ∷ [])
    create_dir os object_dir
    object_file ←
        create_file os
          (generate_object_name (generate_dir_path (object_dir ∷ object.name ∷ [])) storage_kind)
    deferred (os.close object_file) do
      metadata_file ←
          create_file os (generate_dir_path (object_dir ∷ object_metadata_file_name ∷ []))
      deferred (os.close metadata_file) (write_object object_file metadata_file object storage_kind)

  unfoldable pub create_object_dir : String → Namespace → String → Act W (Unit {0})
  unfolding store_object_local
  create_object_dir parents_dir namespace storage_kind =
      for_each (λ e. store_object_local parents_dir e.1 storage_kind) namespace.objects

  unfoldable pub create_s3_namespace_dir : String → Resource → String → Act W (Unit {0})
  unfolding create_object_dir generate_dir_path
  create_s3_namespace_dir parents_dir resource storage_kind =
      for_each
        (λ e. create_object_dir (generate_dir_path (parents_dir ∷ e.1.name ∷ [])) e.1 storage_kind)
        resource.namespaces

  unfoldable pub create_s3_resource_dir : String → Version → String → Act W (Unit {0})
  unfolding create_s3_namespace_dir generate_dir_path
  create_s3_resource_dir parents_dir version storage_kind =
      for_each
        (λ e.
          create_s3_namespace_dir (generate_dir_path (parents_dir ∷ e.1.name ∷ [])) e.1
            storage_kind)
        version.resources

  unfoldable pub create_s3_version_dir : String → Group → String → Act W (Unit {0})
  unfolding create_s3_resource_dir
  create_s3_version_dir parents_dir group storage_kind =
      for_each (λ e. create_s3_resource_dir (parents_dir <> e.1.name) e.1 storage_kind)
        group.versions

  unfoldable pub create_s3_group_dir : String → KubernetesRoot → String → Act W (Unit {0})
  unfolding create_s3_version_dir generate_dir_path
  create_s3_group_dir parents_dir root storage_kind =
      for_each
        (λ e.
          create_s3_version_dir (generate_dir_path (parents_dir ∷ (e.1.name <> "_") ∷ [])) e.1
            storage_kind)
        root.groups

module _ {W : Type 0} (os : Os W) (tar : Archives os) where
  -- `a && b`, which looks at the second file only where the first is valid.
  unfoldable pub both_files_are_valid : String → String → Act W Bool
  unfolding check_file_is_valid
  both_files_are_valid first second = do
    valid ← check_file_is_valid os first
    if valid then check_file_is_valid os second else return false

  unfoldable pub create_storage_map : String → String → Act W (Dict String)
  unfolding generate_dir_path generate_object_name pack both_files_are_valid delete_dir_or_file
  create_storage_map local_storage_dir remote_storage_dir = do
    let json_local_path = generate_dir_path (local_storage_dir ∷ json_storage_kind ∷ [])
    let json_local_file = generate_object_name json_local_path upload_storage_kind
    let json_remote_file =
        generate_dir_path
          (remote_storage_dir ∷ generate_object_name json_storage_kind upload_storage_kind ∷ [])
    let yaml_local_path = generate_dir_path (local_storage_dir ∷ yaml_storage_kind ∷ [])
    let yaml_local_file = generate_object_name yaml_local_path upload_storage_kind
    let yaml_remote_file =
        generate_dir_path
          (remote_storage_dir ∷ generate_object_name yaml_storage_kind upload_storage_kind ∷ [])
    pack os tar json_local_path json_local_file
    pack os tar yaml_local_path yaml_local_file
    valid ← both_files_are_valid json_local_file yaml_local_file
    if not valid
        then fail ("there is no upload file in this localPath: " <> local_storage_dir)
        else deferred
            (do
              logged (delete_dir_or_file os json_local_path)
              delete_dir_or_file os yaml_local_path)
            (return
              (set yaml_local_file yaml_remote_file (set json_local_file json_remote_file [])))

  -- The name that a tree without one is given.
  unfoldable pub name_tree : KubernetesRoot → W → KubernetesRoot × W
  name_tree root w =
      if root.tree_name == ""
      then (let (stamp, w') = os.now timestamp_format w in
          (record root { tree_name = root.tree_kind <> stamp }, w'))
      else (root, w)

  unfoldable pub create_root_work_dir : Act W (Unit {0})
  unfolding check_dir_is_valid create_dir
  create_root_work_dir = do
    exist ← check_dir_is_valid os root_work_dir
    if not exist then create_dir os root_work_dir else return tt

  unfoldable pub transform_resource_tree_to_local : Json → KubernetesRoot → Act W Upload
  unfolding create_root_work_dir name_tree get_local_storage_dir get_remote_storage_dir
      generate_dir_path create_s3_group_dir create_storage_map
  transform_resource_tree_to_local json root = do
    create_root_work_dir
    named ← observe (name_tree root)
    dirs ← observe (get_local_storage_dir os named)
    let remote_storage_dir = get_remote_storage_dir named
    create_s3_group_dir os json (generate_dir_path (dirs.1 ∷ json_storage_kind ∷ [])) named
        json_storage_kind
    create_s3_group_dir os json (generate_dir_path (dirs.1 ∷ yaml_storage_kind ∷ [])) named
        yaml_storage_kind
    storage_map ← create_storage_map dirs.1 remote_storage_dir
    return (record { storage_map = storage_map; work_dir = dirs.0; root = named })
