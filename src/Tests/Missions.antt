-- ===== src/Tests/Missions.antt =====
-- The theorems on the agents, at small machines.
use boxroom_cloud_native.Base.{String, true, [], ◌∷◌, ◌≡◌, refl}
use boxroom_cloud_native.Base.Action.{ok, err}
use boxroom_cloud_native.Util.DirPath.Plain.{has_slash}
use boxroom_cloud_native.Storage.Client.{StoreClient}
use boxroom_cloud_native.Storage.Dir.Names
use boxroom_cloud_native.StoreAgent.{Context}
use boxroom_cloud_native.StoreAgent.Core.{
  CoreStoreAgent, check_remote_storage_exist, apply_resource_tree,
}
use boxroom_cloud_native.StoreAgent.Core.Laws.{check_remote_storage_exist-listed}
use boxroom_cloud_native.StoreAgent.Core.Safety.{default_agent, apply_resource_tree-keeps_stored}
use boxroom_cloud_native.KubeAgent.Config.{
  ClientGo, ApiServerConfig, agent_init, agent_init-refuses,
}
use boxroom_cloud_native.Tests.Data.{list_set, list_set-IsLawful}
use boxroom_cloud_native.Tests.Machines.{web_json, calm_os, no_archives}
use boxroom_cloud_native.Tests.Shop.{web_root}

-- A store with one backup, of which nothing can be read.
abbrev pub one_backup : StoreClient calm_os
one_backup = record {
  list_bucket = λ w. ok [] w;
  list_objects = λ prefix w. ok [] w;
  list_common_prefix = λ prefix delimiter w. ok ("k8s-cluster-a-1/backup/tuesday/" ∷ []) w;
  create_bucket = λ name w. ok tt w;
  get_object = λ key w. err "no such key" w;
  upload_object = λ name file w. ok tt w;
  storage_plugin_health_check = λ w. ok tt w;
}

abbrev pub logging : Context
logging = record {
  file_logger = true;
  mission_status = record { mission_kind = "backup"; status = "Success"; failed_objects = [] };
}

abbrev refusing : CoreStoreAgent calm_os
refusing = default_agent calm_os (no_archives calm_os) web_json one_backup

check_remote_storage_exist-listed_example :
    check_remote_storage_exist calm_os refusing list_set web_root tt ≡ ok true tt
unfolding Names.parse_common_prefix
check_remote_storage_exist-listed_example =
    check_remote_storage_exist-listed calm_os refusing list_set list_set-IsLawful web_root
      ("k8s-cluster-a-1/backup/tuesday/" ∷ []) tt tt refl

apply_resource_tree-keeps_stored_example :
    apply_resource_tree calm_os refusing list_set web_root logging tt
    ≡ err "the storage has already exist: storage kind: backup storage name: tuesday" tt
unfolding has_slash Names.get_remote_storage_dir Names.pre_handle_restore_root
apply_resource_tree-keeps_stored_example =
    apply_resource_tree-keeps_stored calm_os (no_archives calm_os) web_json one_backup list_set
      list_set-IsLawful web_root web_root logging ("k8s-cluster-a-1/backup/tuesday/" ∷ []) tt tt tt
      refl refl refl (record { slashless = refl; nonempty = refl; no_dot = refl; no_dots = refl })
      (record { slashless = refl; nonempty = refl; no_dot = refl; no_dots = refl })
      (record { slashless = refl; nonempty = refl; no_dot = refl; no_dots = refl }) refl refl

abbrev pub work_dir : String
work_dir = "/root/work/aaaaaaaaaaaaaaaaaaaaaaaaaaaaaa"

abbrev go : ClientGo (Unit {0})
go = record {
  Config = String;
  token_config = λ host token insecure. host;
  build_config_from_flags = λ url path w. ok url w;
  in_cluster_config = λ w. ok "in cluster" w;
  DynamicClient = String;
  DiscoveryClient = String;
  ClientSet = String;
  new_dynamic_client = λ c w. ok c w;
  new_discovery_client = λ c w. ok c w;
  new_client_set = λ c w. ok c w;
}

abbrev no_token : ApiServerConfig
no_token = record {
  url = "https://localhost:6443";
  kubernetes_config = "/root/.kube/config";
  service_account_token = "";
  access_type = "ServiceAccountTokenConfigType";
}

agent_init-refuses_example : (e : String) × (agent_init go no_token tt ≡ err e tt)
agent_init-refuses_example = agent_init-refuses go no_token tt refl
