-- ===== src/Storage/Dir/Names.antt =====
-- The paths of kubernetes/storage/dir/dir.go: working directories, keys of the object store, and
-- names of logs.
use boxroom_cloud_native.Base.{String, ◌<>◌, [], ◌∷◌, ◌==◌, if◌then◌else◌}
use boxroom_cloud_native.Base.Dict.{set}
use boxroom_cloud_native.Base.Action.{Act, return, ◌>>◌}
use boxroom_cloud_native.Util.DirPath.{generate_dir_path, generate_object_name}
use boxroom_cloud_native.Util.FilePath.{base_name}
use boxroom_cloud_native.Util.System.{Os, Archives}
use boxroom_cloud_native.Util.FileOperator.{rand_str}
use boxroom_cloud_native.Util.TgzPacker.{pack}
use boxroom_cloud_native.Tree.Immobile.{tree_restore_kind}
use boxroom_cloud_native.Tree.Root.{KubernetesRoot}
use boxroom_cloud_native.Storage.Dir.{
  json_storage_kind, upload_storage_kind, root_work_dir, timestamp_format, Download,
}

unfoldable pub get_remote_storage_dir : KubernetesRoot → String
unfolding generate_dir_path
get_remote_storage_dir root = generate_dir_path (root.name ∷ root.tree_kind ∷ root.tree_name ∷ [])

unfoldable pub get_logger_file_name : KubernetesRoot → String × String
unfolding generate_object_name
get_logger_file_name root = (
  generate_object_name root.tree_name "log",
  generate_object_name (root.tree_name <> ("-" <> "status")) "log",
)

unfoldable pub get_assist_log_remote_dir : KubernetesRoot → String × String
unfolding generate_dir_path generate_object_name get_remote_storage_dir get_logger_file_name
get_assist_log_remote_dir root =
    let (logger_name, status_name) = get_logger_file_name root in
    let remote = λ (name : String).
      generate_dir_path
        (get_remote_storage_dir root ∷ generate_object_name name upload_storage_kind ∷ []) in
    (remote logger_name, remote status_name)

unfoldable pub get_remote_storage_prefix_and_delimiter : KubernetesRoot → String × String
unfolding generate_dir_path
get_remote_storage_prefix_and_delimiter root =
    (generate_dir_path (root.name ∷ root.tree_kind ∷ []) <> "/", "/")

unfoldable pub parse_common_prefix : String → String
unfolding base_name
parse_common_prefix prefix = base_name prefix

module _ {W : Type 0} (os : Os W) where
  unfoldable pub pre_handle_restore_root : KubernetesRoot → W → KubernetesRoot × W
  pre_handle_restore_root root w =
      if root.tree_kind == tree_restore_kind
      then (let (stamp, w') = os.now timestamp_format w in
          (record root { tree_name = tree_restore_kind <> (stamp <> ("-" <> root.tree_name)) }, w'))
      else (root, w)

  unfoldable pub get_local_work_dir : W → String × W
  unfolding rand_str generate_dir_path
  get_local_work_dir w =
      let (random, w') = rand_str os 30 w in (generate_dir_path (root_work_dir ∷ random ∷ []), w')

  unfoldable pub get_local_storage_dir : KubernetesRoot → W → (String × String) × W
  unfolding get_local_work_dir generate_dir_path
  get_local_storage_dir root w =
      let (work_dir, w') = get_local_work_dir w in
      (
        (work_dir, generate_dir_path (work_dir ∷ root.name ∷ root.tree_kind ∷ root.tree_name ∷ [])),
        w',
      )

  unfoldable pub get_assist_log_local_dir : KubernetesRoot → W → (String × (String × String)) × W
  unfolding get_local_work_dir get_logger_file_name generate_dir_path
  get_assist_log_local_dir root w =
      let (work_dir, w') = get_local_work_dir w in
      let (logger_name, status_name) = get_logger_file_name root in
      (
        (
          work_dir,
          (
            generate_dir_path (work_dir ∷ logger_name ∷ []),
            generate_dir_path (work_dir ∷ status_name ∷ []),
          ),
        ),
        w',
      )

  unfoldable pub get_download_dir_map : KubernetesRoot → W → Download × W
  unfolding get_remote_storage_dir get_local_storage_dir generate_dir_path generate_object_name
  get_download_dir_map root w =
      let remote_storage_dir = get_remote_storage_dir root in
      let (dirs, w') = get_local_storage_dir root w in
      let archive = generate_object_name json_storage_kind upload_storage_kind in
      let remote_file = generate_dir_path (remote_storage_dir ∷ archive ∷ []) in
      let local_file = generate_dir_path (dirs.1 ∷ archive ∷ []) in
      (
        record {
          download_map = set remote_file local_file [];
          work_dir = dirs.0;
          local_storage_dir = dirs.1;
        },
        w',
      )

  unfoldable pub get_assist_log_local_zip_dir :
      Archives os → String → String → Act W (String × String)
  unfolding generate_object_name pack
  get_assist_log_local_zip_dir tar local_log_dir local_status_log_dir = do
    let tgz_log_dir = generate_object_name local_log_dir upload_storage_kind
    let tgz_status_log_dir = generate_object_name local_status_log_dir upload_storage_kind
    pack os tar local_log_dir tgz_log_dir
    pack os tar local_status_log_dir tgz_status_log_dir
    return (tgz_log_dir, tgz_status_log_dir)
