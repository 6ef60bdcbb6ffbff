-- ===== src/KubeAgent/Build/Laws/Versions.antt =====
-- `buildGroupAndVersionTree` keeps the invariant of the tree.
use boxroom_cloud_native.Base.{
  String, Bool, true, some, List, [], ◌∷◌, ◌≡◌, refl, sym, ◌∙◌, subst, inl, inr, eq_refl,
  Bool-cases,
}
use boxroom_cloud_native.Base.Dict.{contains, set, delete, is_empty, contains-set}
use boxroom_cloud_native.Base.Prune.{
  drop_empty, prune_children-eq-drop_empty, drop_empty-IsDict, drop_empty-Named,
}
use boxroom_cloud_native.Tree.Immobile.{root_kind, group_kind}
use boxroom_cloud_native.Tree.Version.{Version}
use boxroom_cloud_native.Tree.Group
use boxroom_cloud_native.Tree.Group.{Group}
use boxroom_cloud_native.Tree.Root
use boxroom_cloud_native.Tree.Root.{KubernetesRoot}
use boxroom_cloud_native.Tree.Paths.{group_shape, root_shape}
use boxroom_cloud_native.Tree.Grow.{
  put-IsNode, add_child-IsNode, name-add_child, delete-IsDict, delete-Named,
}
use boxroom_cloud_native.Filter.{MapSet}
use boxroom_cloud_native.KubeAgent.Cluster.{Cluster, ApiResourceList, GroupVersion}
use boxroom_cloud_native.KubeAgent.Build.{
  empty_group, build_resource_tree, close_version, build_versions, build_group_and_version_tree,
}
use boxroom_cloud_native.KubeAgent.Build.Invariant.{
  BuiltVersion, OwnVersion, BuiltGroup, OwnGroup, BuiltRoot,
}
use boxroom_cloud_native.KubeAgent.Build.Laws.Resources.{build_resource_tree-Built}

-- Every list names a group and version that can be parsed.
abbrev pub Parses : Cluster → List ApiResourceList → Type 0
Parses cluster [] = Unit
Parses cluster (l ∷ ls) =
    ((x : GroupVersion) × (cluster.parse_group_version l.group_version ≡ some x))
    × Parses cluster ls

module _ (M : MapSet) (cluster : Cluster) (namespaces : List String) (include : Bool) where
  module _ (g : String) where
    put_version :
        (group : Group) (v : Version)
        → OwnVersion g v
        → BuiltGroup g group
        → BuiltGroup g (record group { versions = set v.name v group.versions })
    put_version group v b h = (
      h.0,
      put-IsNode group_shape group_kind (λ v. v.name) (OwnVersion g) group v.name v refl b h.1,
    )

    -- The version was just written, so that it deletes itself never fails.
    close_version-Built :
        (group : Group) (v : Version)
        → OwnVersion g v
        → BuiltGroup g group
        → (group' : Group) × (close_version group v ≡ some group') × BuiltGroup g group'
    unfolding close_version
    close_version-Built group v b h =
        let written = put_version group v b h in
        let there : contains v.name (set v.name v group.versions) ≡ true =
          contains-set v.name v.name v group.versions ∙ rw eq_refl in
        elim (Bool-cases (is_empty v.resources)) [
          | inl e ↦ (
            record group { versions = delete v.name (set v.name v group.versions) },
            rw (e, close_version) (rw there),
            (
              h.0,
              (
                h.1.0,
                delete-IsDict v.name _ written.1.1,
                delete-Named (λ v. v.name) (OwnVersion g) v.name _ written.1.2,
              ),
            ),
          )
          | inr e ↦ (
            record group { versions = set v.name v group.versions },
            rw (e, close_version),
            written,
          )
        ]

  add_group :
      (root : KubernetesRoot) (k : String)
      → BuiltRoot root
      → BuiltRoot (Root.add_children root k).0
        × ((Root.add_children root k).1.name ≡ k)
        × OwnGroup (Root.add_children root k).1
  unfolding Root.add_children
  add_group root k h =
      add_child-IsNode root_shape root_kind (λ g. g.name) OwnGroup root k (Root.new_child k) refl
        (refl, (refl, tt, tt)) h

  add_version :
      (g : String) (group : Group) (k : String)
      → BuiltGroup g group
      → BuiltGroup g (Group.add_children group k).0
        × ((Group.add_children group k).1.name ≡ k)
        × OwnVersion g (Group.add_children group k).1
  unfolding Group.add_children
  add_version g group k h =
      let new = Group.new_child k in
      let (node, named, built) =
        add_child-IsNode group_shape group_kind (λ v. v.name) (OwnVersion g) group k new refl
          (refl, (refl, tt, tt)) h.1 in
      (
        (
          name-add_child group_shape group_kind (λ v. v.name) (OwnVersion g) group k new ∙ h.0,
          node,
        ),
        named,
        built,
      )

  -- One list: its group and version, with the tree after it.
  build_list :
      (root : KubernetesRoot) (list : ApiResourceList) (x : GroupVersion)
      → BuiltRoot root
      → let (grown, group) = Root.add_children root x.group in
        let (grown_group, version) = Group.add_children group x.version in
        (v' : Version) × (g' : Group) × (build_resource_tree M cluster version x list namespaces
            include
          ≡ some v')
        × (close_version grown_group v' ≡ some g')
        × BuiltRoot (Root.put_children grown x.group g')
  unfolding Root.put_children
  build_list root list x h =
      let (grown, group_name, group_built) = add_group root x.group h in
      let group = (Root.add_children root x.group).1 in
      let named = subst (λ k. BuiltGroup k group) group_name group_built in
      let (kept, version_name, version_built) = add_version x.group group x.version named in
      let version = (Group.add_children group x.version).1 in
      let (v', ran, b) =
        build_resource_tree-Built M cluster namespaces include x.group x.version version list
          (subst (λ k. BuiltVersion x.group k version) version_name version_built) in
      let (g', closed, c) =
        close_version-Built x.group (Group.add_children group x.version).0 v'
          (subst (λ k. BuiltVersion x.group k v') (sym b.0) b) kept in
      (
        v',
        g',
        ran,
        closed,
        put-IsNode root_shape root_kind (λ g. g.name) OwnGroup (Root.add_children root x.group).0
            x.group g' c.0 (subst (λ k. BuiltGroup k g') (sym c.0) c) grown,
      )

  build_versions-Built :
      (root : KubernetesRoot) (lists : List ApiResourceList)
      → BuiltRoot root
      → Parses cluster lists
      → (root' : KubernetesRoot) × (build_versions M cluster root lists namespaces include
          ≡ some root')
        × BuiltRoot root'
  unfolding build_versions
  build_versions-Built root [] h p = (root, refl, h)
  build_versions-Built root (list ∷ lists) h ((x, parsed), p) =
      let (v', g', ran, closed, b) = build_list root list x h in
      rw parsed (
        rw ran (
          rw closed (
            build_versions-Built (Root.put_children (Root.add_children root x.group).0 x.group g')
              lists b p)))

  -- If the given tree satisfies the invariant and every group and version can be parsed, then
  -- `buildGroupAndVersionTree` returns a tree, with no failed deletion of an empty node, and the tree
  -- satisfies the invariant: every node stands under its name, and every object has a definition and
  -- the resource and metadata of its own path.
  pub build_group_and_version_tree-BuiltRoot :
      (root : KubernetesRoot) (lists : List ApiResourceList)
      → BuiltRoot root
      → Parses cluster lists
      → (root' : KubernetesRoot) × (build_group_and_version_tree M cluster root lists namespaces
            include
          ≡ some root')
        × BuiltRoot root'
  unfolding build_group_and_version_tree
  build_group_and_version_tree-BuiltRoot root lists h p =
      let (built, ran, b) = build_versions-Built root lists h p in
      let left = drop_empty empty_group (λ g. g.name) built.groups in
      (
        record built { groups = left },
        rw ran (
            rw (
              prune_children-eq-drop_empty empty_group (λ g. g.name) OwnGroup built.groups b.1
                b.2)),
        (
          b.0,
          drop_empty-IsDict empty_group (λ g. g.name) built.groups b.1,
          drop_empty-Named empty_group (λ g. g.name) OwnGroup built.groups b.2,
        ),
      )
