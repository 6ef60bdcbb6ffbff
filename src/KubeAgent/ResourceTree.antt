-- ===== src/KubeAgent/ResourceTree.antt =====
-- `filtrateResource`, `GetResourceTree` and `ApplyResourceTree` of
-- kubernetes/kubernetes/k8s-agent/agent.go.
pub mod Laws
pub mod Emptied
use boxroom_cloud_native.Base.{
  ℕ, zero, suc, ◌+◌, String, Bool, true, false, ◌&&◌, Option, none, some, List, [], ◌∷◌, ◌++◌, map,
  ◌==◌, if◌then◌else◌,
}
use boxroom_cloud_native.Base.Outcome.{Run, pure, ◌>>=◌}
use boxroom_cloud_native.Base.Dict.{Dict, delete}
use boxroom_cloud_native.Base.Slice.{length, get_elem?, remove_at}
use boxroom_cloud_native.Tree.Immobile.{
  root_kind, root_name, tree_backup_kind, cluster_kind, resource_kind, namespace_kind,
}
use boxroom_cloud_native.Tree.Root.{KubernetesRoot}
use boxroom_cloud_native.Filter.{MapSet, KubernetesResourceFilter, get_cluster_resource_filter}
use boxroom_cloud_native.KubeAgent.Cluster.{Cluster, ApiResource, ApiResourceList}
use boxroom_cloud_native.KubeAgent.Filters.{
  filtrate_items, filtrate_namespace, pre_handle_namespace_filter, pre_handle_resource_filter,
}
use boxroom_cloud_native.KubeAgent.Build.{build_group_and_version_tree}
use boxroom_cloud_native.KubeAgent.Restore.{Client, Mission, compare_group_tree}

-- The last element, as a list.
abbrev pub last_of : {A : Type 0} → List A → List A
last_of [] = []
last_of (x ∷ []) = x ∷ []
last_of (x ∷ y ∷ xs) = last_of (y ∷ xs)

abbrev pub no_resources : List ApiResource → Bool
no_resources [] = true
no_resources (x ∷ xs) = false

-- The outer loop of `filtrateResource`, on the caller's slice: `append` moves the later lists one
-- place up, and the last place keeps what it held, behind the part that the loop still looks at.
unfoldable pub remove_emptied :
    ℕ → ℕ → List ApiResourceList → List ApiResourceList → List ApiResourceList
remove_emptied zero j lists stale = lists ++ stale
remove_emptied (suc fuel) j lists stale = elim (get_elem? lists j) [
  | none ↦ lists ++ stale
  | some list ↦ elim (no_resources list.api_resources) [
    | true ↦ remove_emptied fuel j (remove_at j lists) (last_of lists ++ stale)
    | false ↦ remove_emptied fuel (j + 1) lists stale
  ]
]

module _ (M : MapSet) where
  -- The inner loop. Each list is cut down once, through its pointer.
  unfoldable pub filtrate_list : KubernetesResourceFilter M → ApiResourceList → ApiResourceList
  unfolding filtrate_items
  filtrate_list filter list = record list {
    api_resources =
        filtrate_items M (λ (api : ApiResource). api.name) filter (length list.api_resources) 0
          list.api_resources;
  }

  -- The caller's slice after the call, whose length does not change. The outer loop reaches every
  -- list once, so each is cut down whatever the loop removes.
  unfoldable pub filtrate_resource :
      List ApiResourceList → KubernetesResourceFilter M → List ApiResourceList
  unfolding filtrate_list remove_emptied
  filtrate_resource lists filter =
      let cut = map (filtrate_list filter) lists in remove_emptied (length cut) 0 cut []

  pub record Selection : Type 0 where
    pub lists : List ApiResourceList
    pub namespaces : List String
    pub cluster_include : Bool

  -- The switch on the key of one filter.
  unfoldable pub apply_filter : String → KubernetesResourceFilter M → Selection → Selection
  unfolding filtrate_resource filtrate_namespace
  apply_filter key f s =
      if key == resource_kind
      then record s { lists = filtrate_resource s.lists f }
      else if key == namespace_kind
      then record s { namespaces = filtrate_namespace M s.namespaces f }
      else if key == cluster_kind && (f.kind == cluster_kind && f.resource_include)
      then record s { cluster_include = true }
      else s

  -- The loop over the filters, in any order of the map.
  unfoldable pub apply_filters : Dict (KubernetesResourceFilter M) → Selection → Selection
  unfolding apply_filter
  apply_filters [] s = s
  apply_filters ((key, f) ∷ fs) s = apply_filters fs (apply_filter key f s)

  -- The filters after both are joined with the defaults, which the loop reads.
  abbrev pub handled : Dict (KubernetesResourceFilter M) → Dict (KubernetesResourceFilter M)
  handled filters = pre_handle_resource_filter M (pre_handle_namespace_filter M filters)

  module _ (cluster : Cluster) where
    -- The tree, or `none` for an error, and the caller's map of filters. `logger` says whether the
    -- context has a file logger.
    unfoldable pub get_resource_tree :
        Bool
        → KubernetesRoot
        → Dict (KubernetesResourceFilter M)
        → Option KubernetesRoot × Dict (KubernetesResourceFilter M)
    unfolding apply_filters pre_handle_resource_filter pre_handle_namespace_filter
        build_group_and_version_tree delete
    get_resource_tree false root filters = (none, filters)
    get_resource_tree true root filters = elim cluster.groups_and_resources [
      | none ↦ (none, filters)
      | some lists ↦ elim cluster.list_namespaces [
        | none ↦ (none, filters)
        | some namespaces ↦
            let all : Selection = record {
              lists = lists;
              namespaces = namespaces;
              cluster_include = false;
            } in
            let s = apply_filters (handled filters) all in
            (
              build_group_and_version_tree M cluster root s.lists s.namespaces s.cluster_include,
              delete namespace_kind (delete resource_kind (handled filters)),
            )
      ]
    ]

    -- The root of the tree that a restore compares with.
    abbrev pub compare_root : KubernetesRoot
    compare_root = record {
      kind = root_kind;
      name = root_name;
      tree_kind = tree_backup_kind;
      tree_name = "compare";
      groups = [];
    }

    -- What is left of the tree, and whether the call returned without an error.
    unfoldable pub apply_resource_tree :
        (client : Client) → Bool → KubernetesRoot → Run (Mission client) (KubernetesRoot × Bool)
    unfolding get_resource_tree compare_group_tree get_cluster_resource_filter
    apply_resource_tree client logger root =
        let filters = (cluster_kind, get_cluster_resource_filter M true) ∷ [] in
        elim (get_resource_tree logger compare_root filters).0 [
          | none ↦ pure (root, false)
          | some current ↦ do left ← compare_group_tree client root current; pure (left, true)
        ]
