-- ===== src/Storage/Dir/Default.antt =====
-- `DefaultStorageDirDefinition` of kubernetes/storage/dir/dir.go.
use boxroom_cloud_native.Util.System.{Os, Archives}
use boxroom_cloud_native.Tree.Json.{Json}
use boxroom_cloud_native.Storage.Dir.{DirDefinition}
use boxroom_cloud_native.Storage.Dir.Names.{
  get_assist_log_local_dir, get_assist_log_remote_dir, get_assist_log_local_zip_dir,
  get_remote_storage_prefix_and_delimiter, get_download_dir_map, parse_common_prefix,
  pre_handle_restore_root,
}
use boxroom_cloud_native.Storage.Dir.Write.{transform_resource_tree_to_local}
use boxroom_cloud_native.Storage.Dir.Load.{transform_local_to_resource_tree}

abbrev pub default_dir_definition : {W : Type 0} (os : Os W) → Archives os → Json → DirDefinition W
default_dir_definition os tar json = record {
  transform_resource_tree_to_local = transform_resource_tree_to_local os tar json;
  transform_local_to_resource_tree = transform_local_to_resource_tree os tar json;
  get_assist_log_local_dir = get_assist_log_local_dir os;
  get_assist_log_remote_dir = get_assist_log_remote_dir;
  get_assist_log_local_zip_dir = get_assist_log_local_zip_dir os tar;
  get_remote_storage_prefix_and_delimiter = get_remote_storage_prefix_and_delimiter;
  get_download_dir_map = get_download_dir_map os;
  parse_common_prefix = parse_common_prefix;
  pre_handle_restore_root = pre_handle_restore_root os;
}
