-- ===== src/Tests/Reconciler.antt =====
-- The reconciler against servers of one answer each.
use boxroom_cloud_native.Base.{
  ℕ, String, Bool, true, false, ◌&&◌, none, some, List, [], ◌∷◌, ◌==◌, ◌≡◌, refl, arith,
}
use boxroom_cloud_native.Base.Outcome.{done}
use boxroom_cloud_native.StorageLocation.{
  pos, no_meta, OwnerReference, StorageLocations, StoragePluginContainerSpec,
  StoragePluginConfigSpec, StorageLocationSpecConfig, Pod, pod_of, get_pod, get_service,
  workload_labels, owner_of,
}
use boxroom_cloud_native.KubeAgent.Restore.{ApiError}
use boxroom_cloud_native.Reconciler.Progress.{ended, panicked, running}
use boxroom_cloud_native.Reconciler.Server.{Server, State}
use boxroom_cloud_native.Reconciler.Sort.{sort_pod_list}
use boxroom_cloud_native.Reconciler.Children.{is_child, get_storage_location_child_pod_list}
use boxroom_cloud_native.Reconciler.Sync.{create_pods, delete_pods}
use boxroom_cloud_native.Reconciler.Reconcile.{reconcile}
use boxroom_cloud_native.Reconciler.Laws.{
  remove_first, reconcile-deleted, delete_pods-removes_first, create_pods-runs_on,
}
use boxroom_cloud_native.Reconciler.Laws.Order.{count, IsSorted, sort_pod_list-IsSorted}
use boxroom_cloud_native.Reconciler.Laws.Recognition.{get_pod-get_service-belong}
use boxroom_cloud_native.Reconciler.Laws.Selection.{
  wanted, get_storage_location_child_pod_list-returns_wanted,
}

abbrev pub container : StoragePluginContainerSpec
container = record { replicas = pos 1; image = ""; port = pos 8082; protocol = "TCP" }

abbrev pub storage : StorageLocationSpecConfig
storage = record {
  storage_url = "http://s3";
  region = "r";
  bucket = "b";
  access_key = "a";
  secret_key = "s";
  disable_ssl = true;
  s3_force_path_style = false;
}

abbrev pub config : StoragePluginConfigSpec
config = record { storage_kind = "s3"; storage_config = some storage }

abbrev pub location : StorageLocations
location = record {
  type_meta = record { kind = "StorageLocations"; api_version = "boxroom.io/v1" };
  meta = record no_meta { name = "s3"; namespace = "boxroom"; uid = "u1" };
  spec = record { container_spec = some container; config_spec = some config };
  status = record {
    replicas = pos 0;
    pods = none;
    service = "";
    service_ip = "";
    service_port = "";
  };
}

abbrev pub pod_at : String → ℕ → Pod
pod_at name t = record {
  type_meta = record { kind = "Pod"; api_version = "v1" };
  meta = record no_meta {
    name = name;
    namespace = "boxroom";
    creation_timestamp = t;
    labels = workload_labels "s3";
    owner_references = owner_of location;
  };
  spec = record { containers = []; restart_policy = "Always" };
  status = record { phase = "Running"; pod_ip = "10.0.0.1" };
}

abbrev pub three_pods : List Pod
three_pods = pod_at "c" 30 ∷ pod_at "a" 10 ∷ pod_at "b" 20 ∷ []

abbrev pub refused : ApiError
refused = record { text = "not found"; reason = some "NotFound" }

-- The world logs the deleted pods, and the cache is a list.
abbrev pub server : Server
server = record {
  World = List String;
  get = λ request w. ((location, some refused), w);
  list_pods = λ namespace w. ((three_pods, none), w);
  list_services = λ namespace w. (([], none), w);
  create_pod = λ pod w. (some refused, w);
  delete_pod = λ pod w. (none, pod.meta.name ∷ w);
  create_service = λ service w. (none, w);
  delete_service = λ service w. (none, w);
  update = λ l w. (none, w);
  Cache = String;
  add_deleted = λ name cache. name;
  is_deleted = λ name cache. (name == cache, cache);
}

abbrev at_start : State server
at_start = record { world = []; deleted_pods = "a" }

reconcile-deleted_example :
    reconcile server 1 1 (record { namespace = "boxroom"; name = "s3" }) at_start ≡ panicked
reconcile-deleted_example =
    reconcile-deleted server 1 1 (record { namespace = "boxroom"; name = "s3" }) at_start refl

sort_pod_list-IsSorted_example :
    IsSorted (sort_pod_list three_pods)
    × ((test : Pod → Bool) → count test (sort_pod_list three_pods) ≡ count test three_pods)
sort_pod_list-IsSorted_example = sort_pod_list-IsSorted three_pods

delete_pods-removes_first_example :
    delete_pods server 3 2 three_pods at_start
    ≡ ended (tt, remove_first server 2 three_pods at_start)
delete_pods-removes_first_example =
    delete_pods-removes_first server (λ pod w. refl) 3 2 three_pods at_start (omega arith)
      (omega arith)

create_pods-runs_on_example : create_pods server 5 1 location at_start ≡ running
unfolding get_pod
create_pods-runs_on_example =
    create_pods-runs_on server (λ pod w. (refused, refl)) 5 0 location
      (pod_of location container config storage) at_start refl

get_storage_location_child_pod_list-returns_wanted_example :
    (mine : List Pod) × (s' : State server) × (get_storage_location_child_pod_list server location
        at_start
      ≡ ended ((mine, none), s'))
    × IsSorted mine
    × ((test : Pod → Bool)
        → count test mine ≡ count (λ p. wanted server location "a" p && test p) three_pods)
get_storage_location_child_pod_list-returns_wanted_example =
    get_storage_location_child_pod_list-returns_wanted server (λ k j cache. refl) location at_start
      refl ((owner, [], refl), ((owner, [], refl), ((owner, [], refl), tt)))
  where
    owner : OwnerReference
    owner = record {
      api_version = "boxroom.io/v1";
      kind = "StorageLocations";
      name = "s3";
      uid = "u1";
    }

get_pod-get_service-belong_example :
    ((pod : Pod) × (get_pod location ≡ done pod)
      × (pod.meta.namespace ≡ location.meta.namespace)
      × (is_child location pod.meta at_start ≡ ended (true, at_start)))
    × ((get_service location).meta.namespace ≡ location.meta.namespace)
    × (is_child location (get_service location).meta at_start ≡ ended (true, at_start))
get_pod-get_service-belong_example =
    get_pod-get_service-belong at_start location container config storage refl refl refl
