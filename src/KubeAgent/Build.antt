-- ===== src/KubeAgent/Build.antt =====
-- The tree of what a cluster holds: `buildGroupAndVersionTree`, `buildResourceTree`,
-- `buildNamespaceTree` and `buildObjectTree` of kubernetes/kubernetes/k8s-agent/agent.go. A write
-- through a child's pointer is a write of the child back into its parent.
pub mod Invariant
pub mod Laws
use boxroom_cloud_native.Base.{
  String, Bool, true, false, not, ◌&&◌, ◌||◌, Option, none, some, List, [], ◌∷◌, if◌then◌else◌,
}
use boxroom_cloud_native.Base.Dict.{Dict, lookup, contains, keys, is_empty}
use boxroom_cloud_native.Base.Prune.{prune_children}
use boxroom_cloud_native.Tree.Immobile.{cluster_level_namespace}
use boxroom_cloud_native.Tree.Definition.{Fields}
use boxroom_cloud_native.Tree.Object.{Object, Gvr, ObjectMetadata}
use boxroom_cloud_native.Tree.Namespace
use boxroom_cloud_native.Tree.Namespace.{Namespace}
use boxroom_cloud_native.Tree.Resource
use boxroom_cloud_native.Tree.Resource.{Resource}
use boxroom_cloud_native.Tree.Version
use boxroom_cloud_native.Tree.Version.{Version}
use boxroom_cloud_native.Tree.Group
use boxroom_cloud_native.Tree.Group.{Group}
use boxroom_cloud_native.Tree.Root
use boxroom_cloud_native.Tree.Root.{KubernetesRoot}
use boxroom_cloud_native.Filter.{MapSet}
use boxroom_cloud_native.KubeAgent.Cluster.{Cluster, ApiResource, ApiResourceList, GroupVersion}
use boxroom_cloud_native.KubeAgent.Filters.{
  default_object_filter, default_include_cluster_resource, pre_handle_object_filter,
}

-- `m >>= f` of the results in which `none` is an error.
abbrev pub and_then : {A B : Type 0} → Option A → (A → Option B) → Option B
and_then none f = none
and_then (some a) f = f a

-- The children that the code calls empty.
abbrev pub empty_namespace : Namespace → Bool
empty_namespace namespace = is_empty namespace.objects

abbrev pub empty_resource : Resource → Bool
empty_resource resource = is_empty resource.namespaces

abbrev pub empty_group : Group → Bool
empty_group group = is_empty group.versions

-- The fields that the loop sets on the object of an item.
abbrev pub filled : Object → Gvr → Fields → Namespace → Resource → Object
filled object gvr item namespace resource = record object {
  gvr = some gvr;
  definition = some item;
  metadata = some (record {
    kind = object.kind;
    name = object.name;
    group = gvr.group;
    version = gvr.version;
    resource = gvr.resource;
    namespace = namespace.name;
    is_cluster = resource.is_cluster;
  });
}

unfoldable pub add_namespaces : Resource → List String → Resource
unfolding Resource.add_children
add_namespaces resource [] = resource
add_namespaces resource (n ∷ ns) = add_namespaces (Resource.add_children resource n).0 ns

-- A version with no resource deletes itself from its group, and that it is not there is an error.
unfoldable pub close_version : Group → Version → Option Group
unfolding Group.delete_children Group.put_children
close_version group version =
    let written = Group.put_children group version.name version in
    if is_empty version.resources
    then (let (left, deleted) =
          Group.delete_children written (record { kind = version.kind; name = version.name }) in
        if deleted then some left else none)
    else some written

module _ (M : MapSet) (cluster : Cluster) where
  -- The object of an item is added to its namespace and filled in.
  unfoldable pub fill_object : Resource → Gvr → Fields → Namespace → Namespace
  unfolding Namespace.add_children Namespace.put_children
  fill_object resource gvr item namespace =
      let name = cluster.name_of item in
      let (grown, object) = Namespace.add_children namespace name in
      Namespace.put_children grown name (filled object gvr item namespace resource)

  -- The body of the loop over the items, after the test on `filtFlag`.
  unfoldable pub add_object : Resource → Gvr → Fields → Resource
  unfolding fill_object Resource.put_children Resource.contains_children
  add_object resource gvr item =
      let namespace_name =
        if resource.is_cluster then cluster_level_namespace else cluster.namespace_of item in
      if Resource.contains_children resource namespace_name
      then elim (lookup namespace_name resource.namespaces) [
        | none ↦ resource
        | some namespace ↦
            Resource.put_children resource namespace_name (fill_object resource gvr item namespace)
      ]
      else resource

  unfoldable pub add_objects : Bool → Resource → Gvr → List Fields → Resource
  unfolding add_object
  add_objects filt_flag resource gvr [] = resource
  add_objects filt_flag resource gvr (item ∷ items) =
      add_objects filt_flag
        (if filt_flag && not (pre_handle_object_filter M cluster item gvr)
          then resource
          else add_object resource gvr item)
        gvr items

  -- The caller ignores the error of a list that fails, which leaves the resource as it is.
  unfoldable pub build_object_tree : Resource → Gvr → Resource
  unfolding add_objects default_object_filter
  build_object_tree resource gvr = elim (cluster.list_objects gvr) [
    | none ↦ resource
    | some items ↦ add_objects (contains gvr.resource (default_object_filter M)) resource gvr items
  ]

  unfoldable pub build_namespace_tree : Resource → Gvr → List String → Option Resource
  unfolding add_namespaces build_object_tree Resource.add_children prune_children
  build_namespace_tree resource gvr namespaces =
      let placed =
        if resource.is_cluster
        then (Resource.add_children resource cluster_level_namespace).0
        else add_namespaces resource namespaces in
      let built = build_object_tree placed gvr in
      and_then
        (prune_children empty_namespace (λ n. n.name) (keys built.namespaces) built.namespaces)
        λ left. some (record built { namespaces = left })

  -- The test that skips a cluster-level resource.
  unfoldable pub skips : Bool → ApiResource → Bool
  unfolding default_include_cluster_resource
  skips cluster_include api =
      not cluster_include
      && not api.namespaced
      && not (M.contains (default_include_cluster_resource M) api.name)

  unfoldable pub build_resources :
      Version → GroupVersion → List ApiResource → List String → Bool → Option Version
  unfolding build_namespace_tree skips Version.add_children Version.put_children
  build_resources version gv [] namespaces cluster_include = some version
  build_resources version gv (api ∷ apis) namespaces cluster_include =
      let rest = λ (v : Version). build_resources v gv apis namespaces cluster_include in
      elim (skips cluster_include api) [
        | true ↦ rest version
        | false ↦
            let (grown, resource) = Version.add_children version api.name (not api.namespaced) in
            let gvr : Gvr = record {
              group = gv.group;
              version = gv.version;
              resource = api.name;
            } in
            and_then (build_namespace_tree resource gvr namespaces)
              λ r. rest (Version.put_children grown api.name r)
      ]

  unfoldable pub build_resource_tree :
      Version → GroupVersion → ApiResourceList → List String → Bool → Option Version
  unfolding build_resources
  build_resource_tree version gv list namespaces cluster_include =
      and_then (build_resources version gv list.api_resources namespaces cluster_include) λ built.
        and_then
          (prune_children empty_resource (λ r. r.name) (keys built.resources) built.resources)
          λ left. some (record built { resources = left })

  unfoldable pub build_versions :
      KubernetesRoot → List ApiResourceList → List String → Bool → Option KubernetesRoot
  unfolding build_resource_tree close_version Root.add_children Root.put_children Group.add_children
  build_versions root [] namespaces cluster_include = some root
  build_versions root (list ∷ lists) namespaces cluster_include =
      let rest = λ (r : KubernetesRoot). build_versions r lists namespaces cluster_include in
      and_then (cluster.parse_group_version list.group_version) λ gv.
        let (grown, group) = Root.add_children root gv.group in
        let (grown_group, version) = Group.add_children group gv.version in
        and_then (build_resource_tree version gv list namespaces cluster_include) λ built.
          and_then (close_version grown_group built) λ g. rest (Root.put_children grown gv.group g)

  unfoldable pub build_group_and_version_tree :
      KubernetesRoot → List ApiResourceList → List String → Bool → Option KubernetesRoot
  unfolding build_versions prune_children
  build_group_and_version_tree root lists namespaces cluster_include =
      and_then (build_versions root lists namespaces cluster_include) λ built.
        and_then (prune_children empty_group (λ g. g.name) (keys built.groups) built.groups)
          λ left. some (record built { groups = left })
