-- ===== src/StoreAgent/Core.antt =====
-- `CoreStoreAgent` of kubernetes/storage/store-agent/core_agent.go, and its configuration in
-- core_config.go.
pub mod Laws
pub mod Safety
use boxroom_cloud_native.Base.{
  String, ◌<>◌, Bool, true, false, not, Option, none, some, List, [], ◌∷◌, if◌then◌else◌,
}
use boxroom_cloud_native.Base.Outcome.{Outcome, done, panic}
use boxroom_cloud_native.Base.Dict.{Dict, is_empty}
use boxroom_cloud_native.Base.Action.{
  Act, Result, value, error, return, fail, nil_dereference, attempt, deferred, observe, for_each,
  ◌>>=◌, ◌>>◌,
}
use boxroom_cloud_native.Util.System.{Os}
use boxroom_cloud_native.Util.FileOperator.{create_file, write_file, open_file, delete_dir_or_file}
use boxroom_cloud_native.Tree.Immobile.{tree_backup_kind}
use boxroom_cloud_native.Tree.Root.{KubernetesRoot}
use boxroom_cloud_native.Tree.Status.{MissionStatus}
use boxroom_cloud_native.Filter.{MapSet, KubernetesResourceFilter}
use boxroom_cloud_native.Storage.Client.{StoreClient}
use boxroom_cloud_native.Storage.Dir.{DirDefinition, Upload, Download}
use boxroom_cloud_native.StoreAgent.{Agent, Context}
use boxroom_cloud_native.StoreAgent.Filtrate.{filtrate_resources}

abbrev pub no_file_logger : String
no_file_logger = "there is no file logger which is request when get resource tree"

-- A function that may panic.
abbrev pub run_pure : {W A : Type 0} → Outcome A → Act W A
run_pure panic = nil_dereference
run_pure (done a) = return a

module _ {W : Type 0} (os : Os W) where
  pub record CoreStoreAgent : Type 0 where
    pub client : StoreClient os
    pub dir_definition : DirDefinition W

  -- A pointer or an interface may be nil.
  pub record StorageConfig : Type 0 where
    pub client : Option (StoreClient os)
    pub dir_definition : Option (DirDefinition W)

  unfoldable pub agent_init : StorageConfig → Result CoreStoreAgent
  agent_init config = elim config.client [
    | none ↦ error "config do not contains enough parameter"
    | some client ↦ elim config.dir_definition [
      | none ↦ error "config do not contains enough parameter"
      | some dir_definition ↦ value (record { client = client; dir_definition = dir_definition })
    ]
  ]

  -- The file to write to, which is nil where it could not be made: the error is not looked at.
  abbrev made_file : Result os.File → os.File
  made_file (value file) = file
  made_file (error e) = os.nil_file

  module _ (agent : CoreStoreAgent) where
    unfoldable pub get_remote_storage : String → String → Act W (Unit {0})
    unfolding create_file write_file
    get_remote_storage remote_file local_file = do
      remote_file_reader ← agent.client.get_object remote_file
      buff ← remote_file_reader
      made ← attempt (create_file os local_file)
      write_file os (made_file made) buff
      deferred (os.close (made_file made)) (return tt)

    -- The first entry of the map: the loop ends after it. An error of the transformation is only
    -- logged, and the tree stays as it is then.
    unfoldable pub download_tree : Dict String → String → KubernetesRoot → Act W KubernetesRoot
    unfolding get_remote_storage
    download_tree [] local_storage_dir root = return root
    download_tree ((remote_file, local_file) ∷ files) local_storage_dir root = do
      get_remote_storage remote_file local_file
      transformed ←
          agent.dir_definition.transform_local_to_resource_tree local_storage_dir local_file root
      return transformed.0

    unfoldable pub upload_file : String × String → Act W (Unit {0})
    unfolding open_file
    upload_file (local_file, remote_file) = do
      file_reader ← open_file os local_file
      agent.client.upload_object remote_file file_reader

    -- What follows the transformation. The deferred function deletes the directory that was
    -- returned: after an error, the empty path.
    unfoldable pub upload_tree :
        Result Upload → MissionStatus → Act W (KubernetesRoot × MissionStatus)
    unfolding upload_file delete_dir_or_file
    upload_tree (error e) status = deferred (delete_dir_or_file os "") (fail e)
    upload_tree (value upload) status =
        deferred (delete_dir_or_file os upload.work_dir)
          (do for_each upload_file upload.storage_map; return (upload.root, status))

    module _ (M : MapSet) where
      abbrev pub add_prefixes : M.Set → List String → M.Set
      add_prefixes set [] = set
      add_prefixes set (prefix_dir ∷ list) =
          add_prefixes (M.add set (agent.dir_definition.parse_common_prefix prefix_dir)) list

      unfoldable pub list_remote_storage : KubernetesRoot → Act W M.Set
      list_remote_storage root = do
        let (prefix, delimiter) = agent.dir_definition.get_remote_storage_prefix_and_delimiter root
        list ← agent.client.list_common_prefix prefix delimiter
        return (add_prefixes M.new_set list)

      unfoldable pub check_remote_storage_exist : KubernetesRoot → Act W Bool
      unfolding list_remote_storage
      check_remote_storage_exist root = do
        set ← list_remote_storage root
        return (M.contains set root.tree_name)

      unfoldable pub get_resource_tree :
          KubernetesRoot → Dict (KubernetesResourceFilter M) → Context → Act W KubernetesRoot
      unfolding check_remote_storage_exist download_tree delete_dir_or_file filtrate_resources
      get_resource_tree root filters ctx = if not ctx.file_logger then fail no_file_logger else (do
        let asked = record root { tree_kind = tree_backup_kind }
        exist ← check_remote_storage_exist asked
        if not exist
            then fail (
                "there is no such "
                <> (asked.tree_kind
                    <> (" for cluster "
                        <> (asked.name
                            <> (", " <> (asked.tree_kind <> (" name is: " <> asked.tree_name)))))))
            else (do
              download ← observe (agent.dir_definition.get_download_dir_map asked)
              fetched ← download_tree download.download_map download.local_storage_dir asked
              deferred (delete_dir_or_file os download.work_dir)
                  (run_pure (filtrate_resources M fetched filters))))

      unfoldable pub apply_resource_tree :
          KubernetesRoot → Context → Act W (KubernetesRoot × MissionStatus)
      unfolding check_remote_storage_exist upload_tree
      apply_resource_tree root ctx = if not ctx.file_logger then fail no_file_logger else (do
        handled ← observe (agent.dir_definition.pre_handle_restore_root root)
        if is_empty handled.groups then return (handled, ctx.mission_status) else (do
          exist ← check_remote_storage_exist handled
          if exist
              then fail (
                  "the storage has already exist: storage kind: "
                  <> (handled.tree_kind <> (" storage name: " <> handled.tree_name)))
              else (do
                transformed ←
                    attempt (agent.dir_definition.transform_resource_tree_to_local handled)
                upload_tree transformed ctx.mission_status)))

      -- The agent as a `tree.Agent`
      abbrev pub core_agent : Agent W M
      core_agent = record {
        get_resource_tree = get_resource_tree;
        apply_resource_tree = apply_resource_tree;
      }
