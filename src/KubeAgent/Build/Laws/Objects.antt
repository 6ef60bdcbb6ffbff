-- ===== src/KubeAgent/Build/Laws/Objects.antt =====
-- `buildObjectTree` and `buildNamespaceTree` keep the invariant of a resource.
use boxroom_cloud_native.Base.{
  String, Bool, true, false, not, ◌&&◌, some, List, [], ◌∷◌, ◌==◌, ◌≡◌, refl, ap, ◌∙◌, inl, inr,
  eq_refl, if◌then◌else◌, Bool-cases, Option-cases,
}
use boxroom_cloud_native.Base.Dict.{Dict, lookup, contains, set}
use boxroom_cloud_native.Base.Walk.{Named}
use boxroom_cloud_native.Base.Sweep.{lookup-Named}
use boxroom_cloud_native.Base.Prune.{
  drop_empty, prune_children-eq-drop_empty, drop_empty-IsDict, drop_empty-Named,
}
use boxroom_cloud_native.Tree.Immobile.{
  cluster_level_namespace, object_kind, namespace_kind, resource_kind,
}
use boxroom_cloud_native.Tree.Definition.{Fields}
use boxroom_cloud_native.Tree.Object.{Object, Gvr}
use boxroom_cloud_native.Tree.Namespace
use boxroom_cloud_native.Tree.Namespace.{Namespace, new_child}
use boxroom_cloud_native.Tree.Resource.{Resource}
use boxroom_cloud_native.Tree.Resource
use boxroom_cloud_native.Tree.Paths.{IsObject, namespace_shape, resource_shape}
use boxroom_cloud_native.Tree.Grow.{put-IsNode}
use boxroom_cloud_native.Filter.{MapSet}
use boxroom_cloud_native.KubeAgent.Cluster.{Cluster}
use boxroom_cloud_native.KubeAgent.Filters.{pre_handle_object_filter, default_object_filter}
use boxroom_cloud_native.KubeAgent.Build.{
  filled, fill_object, add_object, add_objects, build_object_tree, add_namespaces,
  build_namespace_tree, empty_namespace,
}
use boxroom_cloud_native.KubeAgent.Build.Invariant.{BuiltObject, BuiltNamespace, BuiltResource}

pub set-set : {C : Type 0} (k : String) (a b : C) (d : Dict C) → set k b (set k a d) ≡ set k b d
unfolding set
set-set k a b [] = rw eq_refl
set-set k a b ((j, v) ∷ d) = elim (Bool-cases (j == k)) [
  | inl e ↦ rw e (rw e)
  | inr e ↦ rw e (rw e (ap (◌∷◌ (j, v)) (set-set k a b d)))
]

module _ (M : MapSet) (cluster : Cluster) (g v name : String) (clu : Bool) where
  abbrev gvr : Gvr
  gvr = record { group = g; version = v; resource = name }

  abbrev IsNamespaceOf : Namespace → Type 0
  IsNamespaceOf n = Named (λ (o : Object). o.name) IsObject n.objects

  Named-kinds :
      (n : String) (d : Dict Object)
      → Named (λ (o : Object). o.name) (BuiltObject g v name clu n) d
      → Named (λ (o : Object). o.name) IsObject d
  Named-kinds n [] h = tt
  Named-kinds n ((k, o) ∷ d) h = (h.0, h.1.0, Named-kinds n d h.2)

  fill_object-eq :
      (r : Resource) (item : Fields) (n : Namespace)
      → IsNamespaceOf n
      → (o : Object) × (o.name ≡ cluster.name_of item)
        × (o.kind ≡ object_kind)
        × (fill_object M cluster r gvr item n
            ≡ record n { objects = set (cluster.name_of item) (filled o gvr item n r) n.objects })
  unfolding fill_object
  fill_object-eq r item n h = elim (Option-cases (lookup (cluster.name_of item) n.objects)) [
    | inl e ↦ (
      new_child (cluster.name_of item),
      refl,
      refl,
      rw (e, Namespace.add_children)
          (ap (λ (d : Dict Object). record n { objects = d })
            (set-set (cluster.name_of item) _ _ n.objects)),
    )
    | inr (o, e) ↦
        let (named, built) =
          lookup-Named (λ o. o.name) IsObject n.objects (cluster.name_of item) h e in
        (o, named, built, rw (e, Namespace.add_children))
  ]

  filled-Built :
      (r : Resource) (item : Fields) (n : Namespace) (o : Object)
      → r.is_cluster ≡ clu
      → o.kind ≡ object_kind
      → BuiltObject g v name clu n.name (filled o gvr item n r)
  filled-Built r item n o c k = (k, refl, (item, refl), cc)

  fill_object-Built :
      (r : Resource) (item : Fields) (n : Namespace)
      → r.is_cluster ≡ clu
      → BuiltNamespace g v name clu n
      → ((fill_object M cluster r gvr item n).name ≡ n.name)
        × BuiltNamespace g v name clu (fill_object M cluster r gvr item n)
  fill_object-Built r item n c h =
      let (o, named, kind, e) = fill_object-eq r item n (Named-kinds n.name n.objects h.2) in
      rw e (
        refl,
        put-IsNode namespace_shape namespace_kind (λ o. o.name) (BuiltObject g v name clu n.name) n
            (cluster.name_of item) (filled o gvr item n r) named (filled-Built r item n o c kind) h,
      )

  -- A namespace written back into its resource.
  put_namespace :
      (r : Resource) (k : String) (n : Namespace)
      → n.name ≡ k
      → BuiltNamespace g v name clu n
      → BuiltResource g v name clu r
      → BuiltResource g v name clu (record r { namespaces = set k n r.namespaces })
  put_namespace r k n e b h = (
    h.0,
    h.1,
    put-IsNode resource_shape resource_kind (λ n. n.name) (BuiltNamespace g v name clu) r k n e b
        h.2,
  )

  add_object-Built :
      (r : Resource) (item : Fields)
      → BuiltResource g v name clu r
      → BuiltResource g v name clu (add_object M cluster r gvr item)
  unfolding add_object
  add_object-Built r item h =
      let key = if r.is_cluster then cluster_level_namespace else cluster.namespace_of item in
      elim (Bool-cases (contains key r.namespaces)) [
        | inl present ↦ elim (Option-cases (lookup key r.namespaces)) [
          | inl e ↦ rw present (rw e h)
          | inr (n, e) ↦
              let (named, built) =
                lookup-Named (λ n. n.name) (BuiltNamespace g v name clu) r.namespaces key h.2.2 e in
              let (kept, filled_built) = fill_object-Built r item n h.1 built in
              rw present (
                rw e (
                  put_namespace r key (fill_object M cluster r gvr item n) (kept ∙ named)
                    filled_built h))
        ]
        | inr absent ↦ rw absent h
      ]

  choose :
      (b : Bool) (x y : Resource)
      → BuiltResource g v name clu x
      → BuiltResource g v name clu y
      → BuiltResource g v name clu (if b then x else y)
  choose true x y hx hy = hx
  choose false x y hx hy = hy

  add_objects-Built :
      (b : Bool) (r : Resource) (items : List Fields)
      → BuiltResource g v name clu r
      → BuiltResource g v name clu (add_objects M cluster b r gvr items)
  unfolding add_objects
  add_objects-Built b r [] h = h
  add_objects-Built b r (item ∷ items) h =
      let skip = b && not (pre_handle_object_filter M cluster item gvr) in
      let next = add_object M cluster r gvr item in
      add_objects-Built b (if skip then r else next) items
        (choose skip r next h (add_object-Built r item h))

  build_object_tree-Built :
      (r : Resource)
      → BuiltResource g v name clu r
      → BuiltResource g v name clu (build_object_tree M cluster r gvr)
  unfolding build_object_tree
  build_object_tree-Built r h = elim (Option-cases (cluster.list_objects gvr)) [
    | inl e ↦ rw (e, build_object_tree) h
    | inr (items, e) ↦
        rw (e, build_object_tree)
          (add_objects-Built (contains gvr.resource (default_object_filter M)) r items h)
  ]

  add_namespace-Built :
      (r : Resource) (n : String)
      → BuiltResource g v name clu r
      → BuiltResource g v name clu (Resource.add_children r n).0
  unfolding Resource.add_children
  add_namespace-Built r n h = elim (Option-cases (lookup n r.namespaces)) [
    | inl e ↦
        rw (e, Resource.add_children)
          (put_namespace r n (Resource.new_child n) refl (refl, tt, tt) h)
    | inr (c, e) ↦ rw (e, Resource.add_children) h
  ]

  add_namespaces-Built :
      (r : Resource) (ns : List String)
      → BuiltResource g v name clu r
      → BuiltResource g v name clu (add_namespaces r ns)
  unfolding add_namespaces
  add_namespaces-Built r [] h = h
  add_namespaces-Built r (n ∷ ns) h =
      add_namespaces-Built (Resource.add_children r n).0 ns (add_namespace-Built r n h)

  -- The resource that `buildNamespaceTree` lists objects into.
  abbrev placed : Resource → List String → Resource
  placed r namespaces =
      if r.is_cluster
      then (Resource.add_children r cluster_level_namespace).0
      else add_namespaces r namespaces

  placed-Built :
      (r : Resource) (namespaces : List String)
      → BuiltResource g v name clu r
      → BuiltResource g v name clu (placed r namespaces)
  placed-Built r namespaces h =
      choose r.is_cluster (Resource.add_children r cluster_level_namespace).0
        (add_namespaces r namespaces) (add_namespace-Built r cluster_level_namespace h)
        (add_namespaces-Built r namespaces h)

  -- No deletion of an empty namespace fails: the result is the listed resource without them.
  pub build_namespace_tree-Built :
      (r : Resource) (namespaces : List String)
      → BuiltResource g v name clu r
      → let built = build_object_tree M cluster (placed r namespaces) gvr in
        let left = drop_empty empty_namespace (λ n. n.name) built.namespaces in
        (build_namespace_tree M cluster r gvr namespaces
          ≡ some (record built { namespaces = left }))
        × BuiltResource g v name clu (record built { namespaces = left })
  unfolding build_namespace_tree
  build_namespace_tree-Built r namespaces h =
      let built = build_object_tree M cluster (placed r namespaces) gvr in
      let b : BuiltResource g v name clu built =
        build_object_tree-Built (placed r namespaces) (placed-Built r namespaces h) in
      (
        rw (
            prune_children-eq-drop_empty empty_namespace (λ n. n.name) (BuiltNamespace g v name clu)
              built.namespaces b.2.1 b.2.2),
        (
          b.0,
          b.1,
          (
            b.2.0,
            drop_empty-IsDict empty_namespace (λ n. n.name) built.namespaces b.2.1,
            drop_empty-Named empty_namespace (λ n. n.name) (BuiltNamespace g v name clu)
                built.namespaces b.2.2,
          ),
        ),
      )

  -- The same, with the result not written out.
  pub build_namespace_tree_total :
      (r : Resource) (namespaces : List String)
      → BuiltResource g v name clu r
      → (r' : Resource) × (build_namespace_tree M cluster r gvr namespaces ≡ some r')
        × BuiltResource g v name clu r'
  build_namespace_tree_total r namespaces h =
      let (ran, built) = build_namespace_tree-Built r namespaces h in (_, ran, built)
