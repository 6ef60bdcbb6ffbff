-- ===== src/Storage/Dir.antt =====
-- kubernetes/storage/dir: the interface `StorageDirDefinition` and the constants. `Names` gives the
-- paths, `Write` the files of a tree, `Load` the tree of the files, and `Default` the
-- implementation of the interface.
pub mod Names
pub mod Write
pub mod Load
pub mod Default
pub mod RoundTrip
pub mod Keys
pub mod Stored
use boxroom_cloud_native.Base.{String, Option}
use boxroom_cloud_native.Base.Dict.{Dict}
use boxroom_cloud_native.Base.Action.{Act}
use boxroom_cloud_native.Tree.Root.{KubernetesRoot}

abbrev pub json_storage_kind : String
json_storage_kind = "json"

abbrev pub yaml_storage_kind : String
yaml_storage_kind = "yaml"

abbrev pub object_metadata_file_name : String
object_metadata_file_name = "metadata"

abbrev pub upload_storage_kind : String
upload_storage_kind = "tar.gz"

-- kubernetes/util/globle-immobile
abbrev pub root_work_dir : String
root_work_dir = "/root/work"

abbrev pub timestamp_format : String
timestamp_format = "20060102150405"

-- The files to upload, by their local paths, and the directory to delete after it. The tree comes
-- back since it may have been given a name.
pub record Upload : Type 0 where
  pub storage_map : Dict String
  pub work_dir : String
  pub root : KubernetesRoot

-- The local paths to download to, by the keys.
pub record Download : Type 0 where
  pub download_map : Dict String
  pub work_dir : String
  pub local_storage_dir : String

-- `GetDownLoadDirMap` is without its error, which the only caller overwrites.
pub record DirDefinition (W : Type 0) : Type 0 where
  pub transform_resource_tree_to_local : KubernetesRoot → Act W Upload
  -- The tree as it is left, and the error.
  pub transform_local_to_resource_tree :
      String → String → KubernetesRoot → Act W (KubernetesRoot × Option String)
  pub get_assist_log_local_dir : KubernetesRoot → W → (String × (String × String)) × W
  pub get_assist_log_remote_dir : KubernetesRoot → String × String
  pub get_assist_log_local_zip_dir : String → String → Act W (String × String)
  pub get_remote_storage_prefix_and_delimiter : KubernetesRoot → String × String
  pub get_download_dir_map : KubernetesRoot → W → Download × W
  pub parse_common_prefix : String → String
  pub pre_handle_restore_root : KubernetesRoot → W → KubernetesRoot × W
