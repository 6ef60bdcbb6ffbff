-- ===== src/Tests/Filters.antt =====
-- The filters of a backup, the tree that it builds, and a definition before it is applied.
use boxroom_cloud_native.Base.{
  List, map, ◌++◌, String, true, false, not, ◌&&◌, none, some, [], ◌∷◌, ◌==◌, ◌≡◌, refl,
  if◌then◌else◌,
}
use boxroom_cloud_native.Base.Dict.{lookup}
use boxroom_cloud_native.Base.Slice.{length, select}
use boxroom_cloud_native.KubeAgent.Cluster.{ApiResourceList}
use boxroom_cloud_native.Tree.Immobile.{root_kind, namespace_kind, resource_kind}
use boxroom_cloud_native.Tree.Definition.{get_field}
use boxroom_cloud_native.Tree.Root.{KubernetesRoot}
use boxroom_cloud_native.Filter.{KubernetesResourceFilter, add_flag, any_eq}
use boxroom_cloud_native.KubeAgent.Filters.{
  filtrate_namespace, pre_handle_namespace_filter, pre_handle_resource_filter,
}
use boxroom_cloud_native.KubeAgent.Filters.Laws.{
  caller_flag, filtrate_namespace-eq-select, pre_handle_namespace_filter_lem,
  pre_handle_resource_filter_lem,
}
use boxroom_cloud_native.KubeAgent.Prepare.{
  pre_handle_object_before_create, part, others, pre_handle_object_before_create_lem,
}
use boxroom_cloud_native.KubeAgent.Build.{build_group_and_version_tree}
use boxroom_cloud_native.KubeAgent.Build.Invariant.{BuiltRoot}
use boxroom_cloud_native.KubeAgent.Build.Laws.Versions.{build_group_and_version_tree-BuiltRoot}
use boxroom_cloud_native.KubeAgent.ResourceTree.{get_resource_tree, filtrate_resource}
use boxroom_cloud_native.KubeAgent.ResourceTree.Emptied.{
  has_resources, passing, filtrate_resource-starts_with_passing,
}
use boxroom_cloud_native.KubeAgent.ResourceTree.Laws.{get_resource_tree-BuiltRoot}
use boxroom_cloud_native.Tests.Data.{list_set, list_set-IsLawful, stored, shop_cluster, deployments}

abbrev no_dev : KubernetesResourceFilter list_set
no_dev = record {
  kind = namespace_kind;
  resource_include = false;
  resource_filter_set = "dev" ∷ [];
}

filtrate_namespace-eq-select_example :
    filtrate_namespace list_set ("dev" ∷ "shop" ∷ "dev" ∷ []) no_dev
    ≡ select (add_flag list_set no_dev) ("dev" ∷ "shop" ∷ "dev" ∷ [])
filtrate_namespace-eq-select_example =
    filtrate_namespace-eq-select list_set ("dev" ∷ "shop" ∷ "dev" ∷ []) no_dev

pre_handle_namespace_filter_lem_example :
    (filter : KubernetesResourceFilter list_set) × (lookup namespace_kind
        (pre_handle_namespace_filter list_set ((namespace_kind, no_dev) ∷ []))
      ≡ some filter)
    × (add_flag list_set filter "kube-system" ≡ (
        not (any_eq "kube-system" ("kube-system" ∷ "kube-public" ∷ "kube-node-lease" ∷ []))
        && caller_flag list_set list_set-IsLawful namespace_kind
            ((namespace_kind, no_dev) ∷ [])
            "kube-system"))
pre_handle_namespace_filter_lem_example =
    pre_handle_namespace_filter_lem list_set list_set-IsLawful ((namespace_kind, no_dev) ∷ [])
      "kube-system"

pre_handle_resource_filter_lem_example :
    (filter : KubernetesResourceFilter list_set) × (lookup resource_kind
        (pre_handle_resource_filter list_set ((namespace_kind, no_dev) ∷ []))
      ≡ some filter)
    × (add_flag list_set filter "deployments" ≡ (
        not (any_eq "deployments" ("events" ∷ "pods" ∷ "endpointslices" ∷ []))
        && caller_flag list_set list_set-IsLawful resource_kind
            ((namespace_kind, no_dev) ∷ [])
            "deployments"))
pre_handle_resource_filter_lem_example =
    pre_handle_resource_filter_lem list_set list_set-IsLawful ((namespace_kind, no_dev) ∷ [])
      "deployments"

pre_handle_object_before_create_lem_example :
    let prepared = pre_handle_object_before_create stored in
    (get_field "status" prepared ≡ none)
    × ((k : String)
        → get_field k (part "metadata" prepared) ≡ (
            if any_eq k (
              "managedFields" ∷ "uid" ∷ "resourceVersion" ∷ "creationTimestamp" ∷ "selfLink"
              ∷ "generation" ∷ "ownerReferences" ∷ [])
            then none
            else get_field k (part "metadata" stored)))
    × ((k : String)
        → get_field k (part "spec" prepared)
          ≡ (if "claimRef" == k then none else get_field k (part "spec" stored)))
    × ((k : String) → others k (get_field k prepared) ≡ others k (get_field k stored))
pre_handle_object_before_create_lem_example = pre_handle_object_before_create_lem stored

abbrev bare_root : KubernetesRoot
bare_root = record {
  kind = root_kind;
  name = "k8s-cluster-a-1";
  tree_kind = "backup";
  tree_name = "tuesday";
  groups = [];
}

build_group_and_version_tree-BuiltRoot_example :
    (root' : KubernetesRoot) × (build_group_and_version_tree list_set shop_cluster bare_root
        deployments
        ("shop" ∷ [])
        false
      ≡ some root')
    × BuiltRoot root'
build_group_and_version_tree-BuiltRoot_example =
    build_group_and_version_tree-BuiltRoot list_set shop_cluster ("shop" ∷ []) false bare_root
      deployments (refl, tt, tt) ((record { group = "apps"; version = "v1" }, refl), tt)

get_resource_tree-BuiltRoot_example :
    (root' : KubernetesRoot) × ((get_resource_tree list_set shop_cluster true bare_root
        ((namespace_kind, no_dev) ∷ [])).0
      ≡ some root')
    × BuiltRoot root'
get_resource_tree-BuiltRoot_example =
    get_resource_tree-BuiltRoot list_set shop_cluster bare_root ((namespace_kind, no_dev) ∷ [])
      deployments ("shop" ∷ []) (refl, tt, tt) refl refl
      ((record { group = "apps"; version = "v1" }, refl), tt)

abbrev no_events : KubernetesResourceFilter list_set
no_events = record {
  kind = resource_kind;
  resource_include = false;
  resource_filter_set = "events" ∷ [];
}

abbrev two_lists : List ApiResourceList
two_lists =
    record {
      group_version = "events.k8s.io/v1";
      api_resources = record { name = "events"; namespaced = true } ∷ [];
    }
    ∷ record {
      group_version = "apps/v1";
      api_resources =
          record { name = "deployments"; namespaced = true }
          ∷ record { name = "events"; namespaced = true }
          ∷ [];
    }
    ∷ []

filtrate_resource-starts_with_passing_example :
    (length (filtrate_resource list_set two_lists no_events) ≡ length two_lists)
    × ((rest : List ApiResourceList) × (filtrate_resource list_set two_lists no_events
          ≡ select has_resources (map (passing list_set no_events) two_lists) ++ rest))
filtrate_resource-starts_with_passing_example =
    filtrate_resource-starts_with_passing list_set two_lists no_events
