-- ===== src/Tests/Controllers.antt =====
-- The theorems on the controller, at small machines and a small cluster.
use boxroom_cloud_native.Base.{
  String, ◌<>◌, false, none, some, sym, subst, [], ◌∷◌, ◌≡◌, refl, ◌∙◌, arith, eq_refl,
}
use boxroom_cloud_native.Base.Dict.{Dict, lookup, contains, set, delete, contains-delete}
use boxroom_cloud_native.Base.Action.{ok, err}
use boxroom_cloud_native.Tree.Root.{KubernetesRoot}
use boxroom_cloud_native.Tree.Paths.{find}
use boxroom_cloud_native.Filter
use boxroom_cloud_native.Filter.{KubernetesResourceFilter}
use boxroom_cloud_native.KubeAgent.Cluster.{Cluster}
use boxroom_cloud_native.KubeAgent.Restore.{Client}
use boxroom_cloud_native.Storage.Client.{StoreClient}
use boxroom_cloud_native.Storage.Dir.Default.{default_dir_definition}
use boxroom_cloud_native.Storage.Dir.Names
use boxroom_cloud_native.Storage.Dir.Load
use boxroom_cloud_native.Storage.Dir.Load.{Files, build_resource_tree}
use boxroom_cloud_native.Storage.Dir.Write.Located.{in_root}
use boxroom_cloud_native.Storage.Dir.RoundTrip.Maps.{files_below}
use boxroom_cloud_native.Storage.Dir.RoundTrip.AnyOrder.{SameFiles}
use boxroom_cloud_native.Util.DirPath
use boxroom_cloud_native.Util.FilePath
use boxroom_cloud_native.Util.DirPath.{join_parts}
use boxroom_cloud_native.StoreAgent.{Agent}
use boxroom_cloud_native.StoreAgent.Assist
use boxroom_cloud_native.StoreAgent.Assist.{AssistLogStoreAgent}
use boxroom_cloud_native.StoreAgent.Core
use boxroom_cloud_native.Controller
use boxroom_cloud_native.Controller.{AgentController, StorageAgents, backup, restore}
use boxroom_cloud_native.Controller.Laws.{Removes, backup-cleans_up, restore-cleans_up}
use boxroom_cloud_native.Controller.Cluster.{kubernetes_agent}
use boxroom_cloud_native.Controller.Backup.{collected-build_resource_tree}
use boxroom_cloud_native.Tests.Data.{list_set, shop_cluster, deployments}
use boxroom_cloud_native.Tests.Machines.{kinded, web_json, web_json-IsLawful, disk_os, no_archives}
use boxroom_cloud_native.Tests.Shop.{web_root, web-IsStorable, shop_names, json_dir-ArePlain}
use boxroom_cloud_native.Tests.Missions.{logging, work_dir}

-- A cluster that can neither be read nor written.
abbrev down : {W : Type 0} → Agent W list_set
down = record {
  get_resource_tree = λ root filters ctx w. err "no cluster" w;
  apply_resource_tree = λ root ctx w. err "no cluster" w;
}

abbrev disk_store : StoreClient disk_os
disk_store = record {
  list_bucket = λ w. ok [] w;
  list_objects = λ prefix w. ok [] w;
  list_common_prefix = λ prefix delimiter w. ok [] w;
  create_bucket = λ name w. ok tt w;
  get_object = λ key w. err "no such key" w;
  upload_object = λ name file w. ok tt w;
  storage_plugin_health_check = λ w. ok tt w;
}

abbrev disk_controller : AgentController disk_os list_set
disk_controller = record {
  kubernetes_agent = down;
  storage_client = some disk_store;
  dir_definition = some (default_dir_definition disk_os (no_archives disk_os) web_json);
}

abbrev disk_agents : StorageAgents disk_os
disk_agents = record {
  core = record {
    client = disk_store;
    dir_definition = default_dir_definition disk_os (no_archives disk_os) web_json;
  };
  assist = record {
    client = disk_store;
    dir_definition = default_dir_definition disk_os (no_archives disk_os) web_json;
    work_dir = "";
    log_local_dir = "";
    log_file = none;
    status_logger = none;
    status_local_dir = "";
  };
}

abbrev log_path : String
log_path = work_dir <> "/tuesday.log"

abbrev disk_assist : AssistLogStoreAgent disk_os
disk_assist = record disk_agents.assist {
  work_dir = work_dir;
  log_local_dir = log_path;
  log_file = some log_path;
  status_logger = some logging.mission_status;
  status_local_dir = work_dir <> "/tuesday-status.log";
}

disk_removes : Removes disk_os (λ w path. contains path w)
disk_removes path w =
    (delete path w, refl, contains-delete path path w ∙ ground (arith, eq_refl path))

backup-cleans_up_example : contains {V = String} work_dir ((log_path, "") ∷ []) ≡ false
unfolding backup Assist.init_logger_agent Controller.get_storage_agent Controller.clean_up
    Names.get_assist_log_local_dir set delete
backup-cleans_up_example =
    backup-cleans_up disk_os (λ w path. contains path w) list_set web_json disk_controller
      disk_removes web_root [] disk_agents disk_assist ((work_dir, "of an earlier run") ∷ [])
      ((work_dir, "of an earlier run") ∷ (log_path, "") ∷ []) ((log_path, "") ∷ []) refl refl refl

restore-cleans_up_example : contains {V = String} work_dir ((log_path, "") ∷ []) ≡ false
unfolding restore Assist.init_logger_agent Controller.get_storage_agent Controller.clean_up
    Names.get_assist_log_local_dir Core.get_resource_tree
    Names.get_remote_storage_prefix_and_delimiter set delete
restore-cleans_up_example =
    restore-cleans_up disk_os (λ w path. contains path w) list_set web_json disk_controller
      disk_removes web_root [] disk_agents disk_assist ((work_dir, "of an earlier run") ∷ [])
      ((work_dir, "of an earlier run") ∷ (log_path, "") ∷ []) ((log_path, "") ∷ []) refl refl refl

-- A cluster with one deployment, which has a kind only.
abbrev web_cluster : Cluster
web_cluster = record shop_cluster { list_objects = λ gvr. some (kinded "Deployment" ∷ []) }

abbrev bare : KubernetesRoot
bare = record web_root { groups = [] }

abbrev silent : Client
silent = record {
  World = Unit {0};
  apply_namespace = λ name w. (none, w);
  apply = λ gvr name item w. (none, w);
  create = λ gvr name item w. (none, w);
}

abbrev web_files : Dict Files
web_files =
    (
      "/root/work/a/json/apps_v1/deployments/shop/web/",
      ("web.json", "Deployment") ∷ ("metadata", "web") ∷ [],
    )
    ∷ []

web_files_test : files_below web_json (in_root "/root/work/a/json" web_root) ≡ web_files
unfolding DirPath.generate_dir_path DirPath.generate_object_name FilePath.split_file Load.add_file
    set lookup
web_files_test = refl

collected-build_resource_tree_example :
    let built = build_resource_tree web_json bare web_files in
    (built.1 ≡ none)
    × (find built.0 "apps" "v1" "deployments" "shop" "web"
        ≡ find web_root "apps" "v1" "deployments" "shop" "web")
unfolding kubernetes_agent lookup set Filter.add_flag contains join_parts
collected-build_resource_tree_example =
    collected-build_resource_tree silent list_set (λ w. web_cluster) web_json web_json-IsLawful bare
      web_root bare [] deployments ("shop" ∷ []) logging tt tt "root" ("work" ∷ "a" ∷ "json" ∷ [])
      web_files "apps" "v1" "deployments" "shop" "web" (refl, tt, tt) refl refl refl
      ((record { group = "apps"; version = "v1" }, refl), tt) refl json_dir-ArePlain shop_names
      (((((web-IsStorable, tt), tt), tt), tt), tt) (refl, tt)
      (subst (SameFiles web_files) (sym web_files_test) (λ k. refl, λ k f. refl))
