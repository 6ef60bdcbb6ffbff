-- ===== src/StoreAgent/Filtrate.antt =====
-- The filters that a restore puts on a stored tree: `filtrateResources` and
-- `deepFiltrateResources` of kubernetes/storage/store-agent/core_agent.go.
pub mod Level
pub mod Paths
pub mod Laws
use boxroom_cloud_native.Base.{String, Bool, true, false, not, List, [], ◌∷◌, ◌==◌, if◌then◌else◌}
use boxroom_cloud_native.Base.Outcome.{Outcome, done, panic, bind, Run, pure, ◌>>=◌}
use boxroom_cloud_native.Base.Dict.{Dict}
use boxroom_cloud_native.Base.Walk.{visit_children}
use boxroom_cloud_native.Tree.Object
use boxroom_cloud_native.Tree.Object.{Object}
use boxroom_cloud_native.Tree.Namespace
use boxroom_cloud_native.Tree.Namespace.{Namespace}
use boxroom_cloud_native.Tree.Resource
use boxroom_cloud_native.Tree.Resource.{Resource}
use boxroom_cloud_native.Tree.Version
use boxroom_cloud_native.Tree.Version.{Version}
use boxroom_cloud_native.Tree.Group
use boxroom_cloud_native.Tree.Group.{Group}
use boxroom_cloud_native.Tree.Root
use boxroom_cloud_native.Tree.Root.{KubernetesRoot}
use boxroom_cloud_native.Filter.{MapSet, KubernetesResourceFilter, add_flag}

-- `len(resources.ListChildren()) == 0`
abbrev pub no_children : List String → Bool
no_children [] = true
no_children (k ∷ ks) = false

module _ (M : MapSet) (filter : KubernetesResourceFilter M) where
  -- The body of `deepFiltrateResources` over one kind of node. The result says whether the node
  -- deleted itself from its parent. `each` is the loop over the children.
  unfoldable pub deep_filtrate_resources :
      {N : Type 0}
      → (N → String)
      → (N → String)
      → (N → List String)
      → (N → Run (Unit {0}) N)
      → N
      → Run (Unit {0}) (N × Bool)
  deep_filtrate_resources get_kind get_name list_children each resources =
      if get_kind resources == filter.kind
      then pure (resources, not (add_flag M filter (get_name resources)))
      else do visited ← each resources; pure (visited, no_children (list_children visited))

  unfoldable pub deep_filtrate_object : String → Object → Run (Unit {0}) (Object × Bool)
  unfolding deep_filtrate_resources Object.get_kind Object.get_name Object.list_children
  deep_filtrate_object key =
      deep_filtrate_resources Object.get_kind Object.get_name Object.list_children pure

  unfoldable pub deep_filtrate_namespace : String → Namespace → Run (Unit {0}) (Namespace × Bool)
  unfolding deep_filtrate_resources Namespace.get_kind Namespace.get_name Namespace.list_children
      Object.get_name
  deep_filtrate_namespace key =
      deep_filtrate_resources Namespace.get_kind Namespace.get_name Namespace.list_children
        λ namespace. do
          objects ←
              visit_children deep_filtrate_object Object.get_name panic
                (Namespace.list_children namespace) namespace.objects
          pure (record namespace { objects = objects })

  unfoldable pub deep_filtrate_resource : String → Resource → Run (Unit {0}) (Resource × Bool)
  unfolding deep_filtrate_resources Resource.get_kind Resource.get_name Resource.list_children
      Namespace.get_name
  deep_filtrate_resource key =
      deep_filtrate_resources Resource.get_kind Resource.get_name Resource.list_children λ resource.
        do
          namespaces ←
              visit_children deep_filtrate_namespace Namespace.get_name panic
                (Resource.list_children resource) resource.namespaces
          pure (record resource { namespaces = namespaces })

  unfoldable pub deep_filtrate_version : String → Version → Run (Unit {0}) (Version × Bool)
  unfolding deep_filtrate_resources Version.get_kind Version.get_name Version.list_children
      Resource.get_name
  deep_filtrate_version key =
      deep_filtrate_resources Version.get_kind Version.get_name Version.list_children λ version. do
        resources ←
            visit_children deep_filtrate_resource Resource.get_name panic
              (Version.list_children version) version.resources
        pure (record version { resources = resources })

  unfoldable pub deep_filtrate_group : String → Group → Run (Unit {0}) (Group × Bool)
  unfolding deep_filtrate_resources Group.get_kind Group.get_name Group.list_children
      Version.get_name
  deep_filtrate_group key =
      deep_filtrate_resources Group.get_kind Group.get_name Group.list_children λ group. do
        versions ←
            visit_children deep_filtrate_version Version.get_name panic (Group.list_children group)
              group.versions
        pure (record group { versions = versions })

  unfoldable pub deep_filtrate_root :
      String → KubernetesRoot → Run (Unit {0}) (KubernetesRoot × Bool)
  unfolding deep_filtrate_resources Root.get_kind Root.get_name Root.list_children Group.get_name
  deep_filtrate_root key =
      deep_filtrate_resources Root.get_kind Root.get_name Root.list_children λ root. do
        groups ←
            visit_children deep_filtrate_group Group.get_name panic (Root.list_children root)
              root.groups
        pure (record root { groups = groups })

-- `filtrateResources`, over the filters in the order of the loop. A root that would delete itself
-- calls a method of its nil parent.
unfoldable pub filtrate_resources :
    (M : MapSet) → KubernetesRoot → Dict (KubernetesResourceFilter M) → Outcome KubernetesRoot
filtrate_resources M root [] = done root
filtrate_resources M root ((key, filter) ∷ filters) =
    bind (deep_filtrate_root M filter root.name root tt)
      λ r. if r.0.1 then panic else filtrate_resources M r.0.0 filters
