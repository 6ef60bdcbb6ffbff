-- ===== src/Controller.antt =====
-- `AgentController` of kubernetes/controller/controller.go, and the functions of
-- kubernetes/api/service/store_service.go, which call it.
pub mod Cluster
pub mod Laws
pub mod Backup
use boxroom_cloud_native.Base.{String, Bool, true, false, Option, none, some, [], ◌∷◌}
use boxroom_cloud_native.Base.Dict.{Dict}
use boxroom_cloud_native.Base.Action.{
  Act, Result, value, error, return, fail, attempt, reraise, logged, deferred, ◌>>=◌, ◌>>◌,
}
use boxroom_cloud_native.Util.System.{Os}
use boxroom_cloud_native.Util.FileOperator.{delete_dir_or_file}
use boxroom_cloud_native.Tree.Immobile.{tree_restore_kind}
use boxroom_cloud_native.Tree.Root.{KubernetesRoot}
use boxroom_cloud_native.Tree.Status.{MissionStatus}
use boxroom_cloud_native.Tree.Json.{Json}
use boxroom_cloud_native.Filter.{MapSet, KubernetesResourceFilter}
use boxroom_cloud_native.Storage.Client.{StoreClient}
use boxroom_cloud_native.Storage.Dir.{DirDefinition}
use boxroom_cloud_native.StoreAgent.{Agent, Context}
use boxroom_cloud_native.StoreAgent.Core
use boxroom_cloud_native.StoreAgent.Core.{CoreStoreAgent, agent_init, core_agent}
use boxroom_cloud_native.StoreAgent.Assist.{
  AssistLogStoreAgent, init_logger_agent, get_logger, upload_local_logger,
}

-- The status of an agent that was initialised.
abbrev pub status_of : Option MissionStatus → MissionStatus
status_of (some status) = status
status_of none = record { mission_kind = ""; status = ""; failed_objects = [] }

module _ {W : Type 0} (os : Os W) where
  pub record StorageAgents : Type 0 where
    pub core : CoreStoreAgent os
    pub assist : AssistLogStoreAgent os

  abbrev agents_of : Result (CoreStoreAgent os) → Result StorageAgents
  agents_of (error e) = error e
  agents_of (value core) = value (record {
    core = core;
    assist = record {
      client = core.client;
      dir_definition = core.dir_definition;
      work_dir = "";
      log_local_dir = "";
      log_file = none;
      status_logger = none;
      status_local_dir = "";
    };
  })

  unfoldable pub get_storage_agent :
      Option (StoreClient os) → Option (DirDefinition W) → Result StorageAgents
  unfolding agent_init
  get_storage_agent storage_client dir_definition =
      agents_of
        (agent_init os (record { client = storage_client; dir_definition = dir_definition }))

  -- The agent after `InitLoggerAgent`, which leaves it as it was after an error.
  abbrev pub initialised :
      AssistLogStoreAgent os → Result (AssistLogStoreAgent os) → AssistLogStoreAgent os
  initialised agent (value a) = a
  initialised agent (error e) = agent

  abbrev pub close_log : Option os.File → Act W (Unit {0})
  close_log none = os.close os.nil_file
  close_log (some file) = os.close file

  -- The deferred function of `Backup` and of `Restore`.
  unfoldable pub clean_up : AssistLogStoreAgent os → Act W (Unit {0})
  unfolding get_logger delete_dir_or_file
  clean_up agent = do
    let (log_file, work_dir) = get_logger os agent
    logged (close_log log_file)
    delete_dir_or_file os work_dir

  module _ (M : MapSet) where
    pub record AgentController : Type 0 where
      pub kubernetes_agent : Agent W M
      pub storage_client : Option (StoreClient os)
      pub dir_definition : Option (DirDefinition W)

    module _ (json : Json) (controller : AgentController) where
      -- The part of `Backup` after the agents are set up.
      unfoldable pub run_backup :
          StorageAgents → KubernetesRoot → Dict (KubernetesResourceFilter M) → Act W (Unit {0})
      unfolding Core.apply_resource_tree upload_local_logger
      run_backup agents root filters = do
        let ctx : Context = record {
          file_logger = true;
          mission_status = status_of agents.assist.status_logger;
        }
        collected ← controller.kubernetes_agent.get_resource_tree root filters ctx
        applied ← (core_agent os agents.core M).apply_resource_tree collected ctx
        upload_local_logger os json agents.assist applied.1 applied.0

      -- The part of `Restore` after the agents are set up.
      unfoldable pub run_restore :
          StorageAgents → KubernetesRoot → Dict (KubernetesResourceFilter M) → Act W (Unit {0})
      unfolding Core.get_resource_tree Core.apply_resource_tree upload_local_logger
      run_restore agents root filters = do
        let ctx : Context = record {
          file_logger = true;
          mission_status = status_of agents.assist.status_logger;
        }
        stored ← (core_agent os agents.core M).get_resource_tree root filters ctx
        applied ← controller.kubernetes_agent.apply_resource_tree stored ctx
        recorded ←
            (core_agent os agents.core M).apply_resource_tree
              (record applied.0 { tree_kind = tree_restore_kind })
              (record ctx { mission_status = applied.1 })
        upload_local_logger os json agents.assist recorded.1 recorded.0

      -- What `Backup` and `Restore` share: the agents are set up, and cleaned up at the end.
      unfoldable pub with_agents :
          (StorageAgents → KubernetesRoot → Dict (KubernetesResourceFilter M) → Act W (Unit {0}))
          → KubernetesRoot
          → Dict (KubernetesResourceFilter M)
          → Act W (Unit {0})
      unfolding get_storage_agent init_logger_agent clean_up
      with_agents run root filters = do
        agents ← reraise (get_storage_agent controller.storage_client controller.dir_definition)
        init ← attempt (init_logger_agent os agents.assist root)
        deferred (clean_up (initialised agents.assist init)) (elim init [
          | error e ↦ fail e
          | value assist ↦ run (record agents { assist = assist }) root filters
        ])

      unfoldable pub backup : KubernetesRoot → Dict (KubernetesResourceFilter M) → Act W (Unit {0})
      unfolding with_agents run_backup
      backup root filters = with_agents run_backup root filters

      unfoldable pub restore : KubernetesRoot → Dict (KubernetesResourceFilter M) → Act W (Unit {0})
      unfolding with_agents run_restore
      restore root filters = with_agents run_restore root filters

      unfoldable pub backup_service :
          KubernetesRoot → Dict (KubernetesResourceFilter M) → Act W (Unit {0})
      unfolding backup
      backup_service root filters = backup root filters

      unfoldable pub restore_service :
          KubernetesRoot → Dict (KubernetesResourceFilter M) → Act W (Unit {0})
      unfolding restore
      restore_service root filters = restore root filters
