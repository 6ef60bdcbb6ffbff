-- ===== src/KubeAgent/Build/Laws/Resources.antt =====
-- `buildResourceTree` keeps the invariant.
use boxroom_cloud_native.Base.{
  String, Bool, not, some, List, [], ◌∷◌, ◌≡◌, refl, sym, ◌∙◌, subst, inl, inr, Bool-cases,
}
use boxroom_cloud_native.Base.Dict.{set}
use boxroom_cloud_native.Base.Prune.{
  drop_empty, prune_children-eq-drop_empty, drop_empty-IsDict, drop_empty-Named,
}
use boxroom_cloud_native.Tree.Immobile.{version_kind}
use boxroom_cloud_native.Tree.Resource.{Resource}
use boxroom_cloud_native.Tree.Version
use boxroom_cloud_native.Tree.Version.{Version}
use boxroom_cloud_native.Tree.Paths.{version_shape}
use boxroom_cloud_native.Tree.Grow.{put-IsNode, add_child-IsNode, name-add_child}
use boxroom_cloud_native.Filter.{MapSet}
use boxroom_cloud_native.KubeAgent.Cluster.{Cluster, ApiResource, ApiResourceList, GroupVersion}
use boxroom_cloud_native.KubeAgent.Build.{
  empty_resource, skips, build_resources, build_resource_tree,
}
use boxroom_cloud_native.KubeAgent.Build.Invariant.{BuiltResource, OwnResource, BuiltVersion}
use boxroom_cloud_native.KubeAgent.Build.Laws.Objects.{build_namespace_tree_total}

own : (g v k : String) (c : Bool) (r : Resource) → BuiltResource g v k c r → OwnResource g v r
own g v k c r h =
    subst (λ x. BuiltResource g v x r.is_cluster r) (sym h.0)
      (subst (λ x. BuiltResource g v k x r) (sym h.1) h)

own_name :
    (g v k : String) (r : Resource)
    → r.name ≡ k
    → OwnResource g v r
    → BuiltResource g v k r.is_cluster r
own_name g v k r e h = subst (λ x. BuiltResource g v x r.is_cluster r) e h

module _ (M : MapSet) (cluster : Cluster) (namespaces : List String) (include : Bool) where
  module _ (g name : String) where
    abbrev gv : GroupVersion
    gv = record { group = g; version = name }

    put_resource :
        (v : Version) (k : String) (r : Resource)
        → r.name ≡ k
        → OwnResource g name r
        → BuiltVersion g name v
        → BuiltVersion g name (record v { resources = set k r v.resources })
    put_resource v k r e b h = (
      h.0,
      put-IsNode version_shape version_kind (λ r. r.name) (OwnResource g name) v k r e b h.1,
    )

    add_resource :
        (v : Version) (k : String) (c : Bool)
        → BuiltVersion g name v
        → BuiltVersion g name (Version.add_children v k c).0
          × ((Version.add_children v k c).1.name ≡ k)
          × OwnResource g name (Version.add_children v k c).1
    unfolding Version.add_children
    add_resource v k c h =
        let (node, named, built) =
          add_child-IsNode version_shape version_kind (λ r. r.name) (OwnResource g name) v k
            (Version.new_child k c) refl (refl, refl, (refl, tt, tt)) h.1 in
        (
          (
            name-add_child version_shape version_kind (λ r. r.name) (OwnResource g name) v k
                  (Version.new_child k c)
                ∙ h.0,
            node,
          ),
          named,
          built,
        )

    build_resources-Built :
        (v : Version) (apis : List ApiResource)
        → BuiltVersion g name v
        → (v' : Version) × (build_resources M cluster v gv apis namespaces include ≡ some v')
          × BuiltVersion g name v'
    unfolding build_resources
    build_resources-Built v [] h = (v, refl, h)
    build_resources-Built v (api ∷ apis) h = elim (Bool-cases (skips M cluster include api)) [
      | inl skip ↦ rw (skip, build_resources) (build_resources-Built v apis h)
      | inr go ↦
          let (grown, named, built) = add_resource v api.name (not api.namespaced) h in
          let (v', r) = Version.add_children v api.name (not api.namespaced) in
          let (r', ran, result) =
            build_namespace_tree_total M cluster g name api.name r.is_cluster r namespaces
              (own_name g name api.name r named built) in
          rw (go, build_resources)
            (rw ran (
              build_resources-Built (Version.put_children v' api.name r') apis (
                put_resource v' api.name r' result.0 (own g name api.name r.is_cluster r' result)
                  grown)))
    ]

    -- No deletion of an empty resource fails.
    pub build_resource_tree-Built :
        (v : Version) (list : ApiResourceList)
        → BuiltVersion g name v
        → (v' : Version) × (build_resource_tree M cluster v gv list namespaces include ≡ some v')
          × BuiltVersion g name v'
    unfolding build_resource_tree
    build_resource_tree-Built v list h =
        let (built, ran, b) = build_resources-Built v list.api_resources h in
        let left = drop_empty empty_resource (λ r. r.name) built.resources in
        (
          record built { resources = left },
          rw ran (
              rw (
                prune_children-eq-drop_empty empty_resource (λ r. r.name) (OwnResource g name)
                  built.resources b.1.1 b.1.2)),
          (
            b.0,
            (
              b.1.0,
              drop_empty-IsDict empty_resource (λ r. r.name) built.resources b.1.1,
              drop_empty-Named empty_resource (λ r. r.name) (OwnResource g name) built.resources
                  b.1.2,
            ),
          ),
        )
