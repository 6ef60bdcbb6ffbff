-- ===== src/StoreAgent/Assist.antt =====
-- `AssistLogStoreAgent` of kubernetes/storage/store-agent/assist_agent.go, and `GetFileLogger` of
-- kubernetes/util/util-log/log.go. What a logger writes is left out: a logger is its file.
use boxroom_cloud_native.Base.{String, Option, none, some, []}
use boxroom_cloud_native.Base.Action.{
  Act, value, error, return, attempt, reraise, observe, logged, ◌>>=◌, ◌>>◌,
}
use boxroom_cloud_native.Util.System.{Os}
use boxroom_cloud_native.Util.FileOperator.{create_file, write_file, open_file}
use boxroom_cloud_native.Tree.Root.{KubernetesRoot}
use boxroom_cloud_native.Tree.Status.{MissionStatus, status_success}
use boxroom_cloud_native.Tree.Json.{Json, status_to_json}
use boxroom_cloud_native.Storage.Client.{StoreClient}
use boxroom_cloud_native.Storage.Dir.{DirDefinition}

module _ {W : Type 0} (os : Os W) where
  -- `none` is a nil logger and a nil file. A file that could not be made is nil, and the error of
  -- closing it takes the place of the first one.
  unfoldable pub get_file_logger : String → Act W (Option os.File)
  unfolding create_file
  get_file_logger file = do
    made ← attempt (create_file os file)
    elim made [
      | value file_writer ↦ return (some file_writer)
      | error e ↦ (do os.close os.nil_file; return none)
    ]

  -- `none` is nil: the agent as `getStorageAgent` makes it has neither a file nor a status.
  pub record AssistLogStoreAgent : Type 0 where
    pub client : StoreClient os
    pub dir_definition : DirDefinition W
    pub work_dir : String
    pub log_local_dir : String
    pub log_file : Option os.File
    pub status_logger : Option MissionStatus
    pub status_local_dir : String

  -- After an error the agent is as it was.
  unfoldable pub init_logger_agent :
      AssistLogStoreAgent → KubernetesRoot → Act W AssistLogStoreAgent
  unfolding get_file_logger
  init_logger_agent agent root = do
    dirs ← observe (agent.dir_definition.get_assist_log_local_dir root)
    let (local_work_dir, log_dirs) = dirs
    let (logger_local_dir, status_logger_local_dir) = log_dirs
    log_file ← get_file_logger logger_local_dir
    return (record agent {
      work_dir = local_work_dir;
      log_local_dir = logger_local_dir;
      log_file = log_file;
      status_local_dir = status_logger_local_dir;
      status_logger =
          some (record {
            mission_kind = root.tree_kind;
            status = status_success;
            failed_objects = [];
          });
    })

  -- The logger's file and the working directory.
  unfoldable pub get_logger : AssistLogStoreAgent → Option os.File × String
  get_logger agent = (agent.log_file, agent.work_dir)

  -- The status is what the agents left of `agent.StatusLogger`. The error of the last upload is
  -- dropped.
  unfoldable pub upload_local_logger :
      Json → AssistLogStoreAgent → MissionStatus → KubernetesRoot → Act W (Unit {0})
  unfolding create_file write_file open_file status_to_json
  upload_local_logger json agent status root = do
    status_logger_local_file ← create_file os agent.status_local_dir
    status_logger_json ← reraise (status_to_json json status)
    write_file os status_logger_local_file status_logger_json
    os.close status_logger_local_file
    let (remote_logger_dir, remote_status_logger_dir) =
        agent.dir_definition.get_assist_log_remote_dir root
    zipped ←
        agent.dir_definition.get_assist_log_local_zip_dir agent.log_local_dir agent.status_local_dir
    local_zip_log_file ← open_file os zipped.0
    local_zip_status_log_file ← open_file os zipped.1
    agent.client.upload_object remote_logger_dir local_zip_log_file
    logged (agent.client.upload_object remote_status_logger_dir local_zip_status_log_file)
