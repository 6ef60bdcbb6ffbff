-- ===== src/KubeAgent/ResourceTree/Laws.antt =====
-- `GetResourceTree` and `ApplyResourceTree` as a whole.
use boxroom_cloud_native.Base.{
  ℕ, zero, suc, ◌+◌, String, true, false, not, ◌&&◌, Option, some, List, [], ◌∷◌, ◌++◌, map, ◌==◌,
  ◌≡◌, refl, inl, inr, Bool-cases, Option-cases,
}
use boxroom_cloud_native.Base.Dict.{Dict}
use boxroom_cloud_native.Base.Slice.{length, get_elem?, remove_at}
use boxroom_cloud_native.Tree.Immobile.{resource_kind, namespace_kind, cluster_kind}
use boxroom_cloud_native.Tree.Root.{KubernetesRoot}
use boxroom_cloud_native.Filter.{MapSet, KubernetesResourceFilter, get_cluster_resource_filter}
use boxroom_cloud_native.Base.Outcome.{done}
use boxroom_cloud_native.Tree.Paths.{find}
use boxroom_cloud_native.KubeAgent.Restore.{Client, Mission, compare_group_tree}
use boxroom_cloud_native.KubeAgent.Restore.Level.{present}
use boxroom_cloud_native.KubeAgent.Restore.Laws.{compare_group_tree-leaves_missing}
use boxroom_cloud_native.KubeAgent.Restore.Laws.Objects.{Answers, IsStoredRoot, IsTold}
use boxroom_cloud_native.KubeAgent.Cluster.{Cluster, ApiResourceList}
use boxroom_cloud_native.KubeAgent.Build.Invariant.{BuiltRoot}
use boxroom_cloud_native.KubeAgent.Build.Laws.Versions.{
  Parses, build_group_and_version_tree-BuiltRoot,
}
use boxroom_cloud_native.KubeAgent.Build.{build_group_and_version_tree}
use boxroom_cloud_native.KubeAgent.ResourceTree.{
  last_of, no_resources, remove_emptied, filtrate_list, filtrate_resource, Selection, apply_filter,
  apply_filters, handled, get_resource_tree, compare_root, apply_resource_tree,
}

module _ (M : MapSet) (cluster : Cluster) where
  append-Parses :
      (a b : List ApiResourceList) → Parses cluster a → Parses cluster b → Parses cluster (a ++ b)
  append-Parses [] b h k = k
  append-Parses (l ∷ a) b h k = (h.0, append-Parses a b h.1 k)

  remove_at-Parses :
      (i : ℕ) (a : List ApiResourceList) → Parses cluster a → Parses cluster (remove_at i a)
  remove_at-Parses i [] h = h
  remove_at-Parses zero (l ∷ a) h = h.1
  remove_at-Parses (suc i) (l ∷ a) h = (h.0, remove_at-Parses i a h.1)

  last_of-Parses : (a : List ApiResourceList) → Parses cluster a → Parses cluster (last_of a)
  last_of-Parses [] h = h
  last_of-Parses (l ∷ []) h = h
  last_of-Parses (l ∷ k ∷ a) h = last_of-Parses (k ∷ a) h.1

  remove_emptied-Parses :
      (fuel j : ℕ) (a stale : List ApiResourceList)
      → Parses cluster a
      → Parses cluster stale
      → Parses cluster (remove_emptied fuel j a stale)
  unfolding remove_emptied
  remove_emptied-Parses zero j a stale h k = append-Parses a stale h k
  remove_emptied-Parses (suc fuel) j a stale h k = elim (Option-cases (get_elem? a j)) [
    | inl past ↦ rw (past, remove_emptied) (append-Parses a stale h k)
    | inr (list, found) ↦ elim (Bool-cases (no_resources list.api_resources)) [
      | inl e ↦
          rw (found, remove_emptied)
            (rw e (
              remove_emptied-Parses fuel j (remove_at j a) (last_of a ++ stale)
                (remove_at-Parses j a h) (append-Parses (last_of a) stale (last_of-Parses a h) k)))
      | inr e ↦ rw (found, remove_emptied) (rw e (remove_emptied-Parses fuel (j + 1) a stale h k))
    ]
  ]

  filtrate_list-Parses :
      (f : KubernetesResourceFilter M) (a : List ApiResourceList)
      → Parses cluster a
      → Parses cluster (map (filtrate_list M f) a)
  unfolding filtrate_list
  filtrate_list-Parses f [] h = tt
  filtrate_list-Parses f (l ∷ a) h = (h.0, filtrate_list-Parses f a h.1)

  apply_filter-Parses :
      (key : String) (f : KubernetesResourceFilter M) (s : Selection M)
      → Parses cluster s.lists
      → Parses cluster (apply_filter M key f s).lists
  unfolding apply_filter filtrate_resource
  apply_filter-Parses key f s h = elim (Bool-cases (key == resource_kind)) [
    | inl e ↦ rw e (
        remove_emptied-Parses (length (map (filtrate_list M f) s.lists)) 0
          (map (filtrate_list M f) s.lists) [] (filtrate_list-Parses f s.lists h) tt)
    | inr e ↦ elim (Bool-cases (key == namespace_kind)) [
      | inl n ↦ rw e (rw n h)
      | inr n ↦
          elim (Bool-cases
            (key == cluster_kind && (f.kind == cluster_kind && f.resource_include))) [
              | inl c ↦ rw e (rw n (rw c h))
              | inr c ↦ rw e (rw n (rw c h))
            ]
    ]
  ]

  apply_filters-Parses :
      (fs : Dict (KubernetesResourceFilter M)) (s : Selection M)
      → Parses cluster s.lists
      → Parses cluster (apply_filters M fs s).lists
  unfolding apply_filters
  apply_filters-Parses [] s h = h
  apply_filters-Parses ((key, f) ∷ fs) s h =
      apply_filters-Parses fs (apply_filter M key f s) (apply_filter-Parses key f s h)

  get_resource_tree-runs :
      (root : KubernetesRoot) (filters : Dict (KubernetesResourceFilter M))
      (lists : List ApiResourceList) (namespaces : List String) (built : Option KubernetesRoot)
      → cluster.groups_and_resources ≡ some lists
      → cluster.list_namespaces ≡ some namespaces
      → (let all : Selection M = record {
        lists = lists;
        namespaces = namespaces;
        cluster_include = false;
      } in
          let s = apply_filters M (handled M filters) all in
          build_group_and_version_tree M cluster root s.lists s.namespaces s.cluster_include
          ≡ built)
      → (get_resource_tree M cluster true root filters).0 ≡ built
  unfolding get_resource_tree
  get_resource_tree-runs root filters lists namespaces built l n ran =
      rw (l, get_resource_tree) (rw n ran)

  -- If the context has a logger and the cluster answers with lists whose group and version can be
  -- parsed and with its namespaces, then `GetResourceTree` on a tree that satisfies the invariant returns
  -- a tree that satisfies it, whatever the filters and their order.
  pub get_resource_tree-BuiltRoot :
      (root : KubernetesRoot) (filters : Dict (KubernetesResourceFilter M))
      (lists : List ApiResourceList) (namespaces : List String)
      → BuiltRoot root
      → cluster.groups_and_resources ≡ some lists
      → cluster.list_namespaces ≡ some namespaces
      → Parses cluster lists
      → (root' : KubernetesRoot) × ((get_resource_tree M cluster true root filters).0 ≡ some root')
        × BuiltRoot root'
  get_resource_tree-BuiltRoot root filters lists namespaces built l n parsed =
      let all : Selection M = record {
        lists = lists;
        namespaces = namespaces;
        cluster_include = false;
      } in
      let s = apply_filters M (handled M filters) all in
      let (root', ran, b) =
        build_group_and_version_tree-BuiltRoot M cluster s.namespaces s.cluster_include root s.lists
          built (apply_filters-Parses (handled M filters) all parsed) in
      (root', get_resource_tree-runs root filters lists namespaces (some root') l n ran, b)

  -- The filters that `ApplyResourceTree` reads the cluster with.
  abbrev pub everything : Dict (KubernetesResourceFilter M)
  everything = (cluster_kind, get_cluster_resource_filter M true) ∷ []

  apply_resource_tree-runs :
      (client : Client) (root current : KubernetesRoot) (s : Mission client) {left : KubernetesRoot}
      {s' : Mission client}
      → (get_resource_tree M cluster true (compare_root M cluster) everything).0 ≡ some current
      → compare_group_tree client root current s ≡ done (left, s')
      → apply_resource_tree M cluster client true root s ≡ done ((left, true), s')
  unfolding apply_resource_tree
  apply_resource_tree-runs client root current s read ran =
      rw (read, apply_resource_tree) (rw ran refl)

  -- If the context has a logger, the cluster answers with lists whose group and version can be parsed
  -- and with its namespaces, every error on a creation is an answer of the API server, and every
  -- object of the backup has its metadata and its resource, then `ApplyResourceTree` ends without an
  -- error. It compares with a tree of the cluster that satisfies the invariant of built trees, and
  -- leaves in the backup the objects at exactly the paths where that tree has none.
  pub apply_resource_tree-leaves_missing :
      (client : Client)
      → Answers client
      → (root : KubernetesRoot) (s : Mission client) (lists : List ApiResourceList)
        (namespaces : List String)
      → IsStoredRoot root
      → IsTold client s
      → cluster.groups_and_resources ≡ some lists
      → cluster.list_namespaces ≡ some namespaces
      → Parses cluster lists
      → (current : KubernetesRoot) × ((get_resource_tree M cluster true
            (compare_root M cluster)
            everything).0
          ≡ some current)
        × BuiltRoot current
        × ((left : KubernetesRoot) × (s' : Mission client) × (apply_resource_tree M cluster client
                true root s
              ≡ done ((left, true), s'))
            × ((g v r n o : String)
                → present (find left g v r n o)
                  ≡ (present (find root g v r n o) && not (present (find current g v r n o)))))
  apply_resource_tree-leaves_missing client answers root s lists namespaces stored told l n parsed =
      let (current, read, built) =
        get_resource_tree-BuiltRoot (compare_root M cluster) everything lists namespaces
          (refl, tt, tt) l n parsed in
      let (left, s', ran, kept, inv, found) =
        compare_group_tree-leaves_missing client answers root current s stored told in
      (
        current,
        read,
        built,
        (left, s', apply_resource_tree-runs client root current s read ran, found),
      )
