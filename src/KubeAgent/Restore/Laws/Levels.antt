-- ===== src/KubeAgent/Restore/Laws/Levels.antt =====
-- The loops over the namespaces and the resources of a backup.
use boxroom_cloud_native.Base.{
  String, Bool, true, false, not, ◌&&◌, ◌≡◌, refl, sym, ◌∙◌, ◌==◌, arith, Bool-cases, Option-cases,
  inl, inr,
}
use boxroom_cloud_native.Base.Outcome.{done}
use boxroom_cloud_native.Base.Dict.{lookup, lookup_of_not-contains, contains}
use boxroom_cloud_native.Base.Sweep.{Visited}
use boxroom_cloud_native.Tree.Immobile.{resource_kind, namespace_kind, cluster_level_namespace}
use boxroom_cloud_native.Tree.Object
use boxroom_cloud_native.Tree.Object.{Object, Gvr, ObjectMetadata}
use boxroom_cloud_native.Tree.Namespace
use boxroom_cloud_native.Tree.Namespace.{Namespace}
use boxroom_cloud_native.Tree.Resource
use boxroom_cloud_native.Tree.Resource.{Resource}
use boxroom_cloud_native.Tree.Version
use boxroom_cloud_native.Tree.Version.{Version}
use boxroom_cloud_native.Tree.Paths.{
  object_at, namespace_shape, namespace_at, resource_shape, resource_at, version_shape,
}
use boxroom_cloud_native.KubeAgent.Restore.{
  Client, Mission, apply_namespace, restore_object, restore_object_tree, restore_below,
  restore_namespace, restore_namespace_tree, compare_resource,
}
use boxroom_cloud_native.KubeAgent.Restore.Level.{
  present, Left, has_below, Restored, restore_level-Restored, Done-Visited,
}
use boxroom_cloud_native.KubeAgent.Restore.Laws.Objects.{
  IsStored, IsStoredNamespace, IsStoredResource, Answers, IsTold, restore_object-Visited,
}

module _ (client : Client) (answers : Answers client) where
  -- Namespaces.
  abbrev RestoredNamespace : Namespace → Namespace → Mission client → Type 0
  RestoredNamespace =
      Restored namespace_shape namespace_kind (λ object. object.name) object_at IsStored
        (IsTold client) (restore_object client)

  abbrev VisitedNamespace : Resource → String → Namespace → Mission client → Type 0
  VisitedNamespace current =
      Visited (restore_namespace client current) (λ namespace. namespace.name) IsStoredNamespace
        (IsTold client) (λ k. Left namespace_at (has_below resource_shape namespace_at current k))

  restore_object_tree-Restored :
      (backup current : Namespace) (s : Mission client)
      → IsStoredNamespace backup
      → IsTold client s
      → RestoredNamespace backup current s
  restore_object_tree-Restored =
      restore_level-Restored namespace_shape namespace_kind (λ object. object.name) object_at
        IsStored (IsTold client) (restore_object client) (restore_object-Visited client answers)

  restore_below-Visited :
      (current : Resource) (k : String) (n : Namespace) (s : Mission client)
      → IsStoredNamespace n
      → IsTold client s
      → Visited
          (restore_below client current)
          (λ namespace. namespace.name)
          IsStoredNamespace
          (IsTold client)
          (λ k. Left namespace_at (has_below resource_shape namespace_at current k))
          k
          n
          s
  unfolding restore_object_tree Resource.add_children Object.get_name lookup
  restore_below-Visited current k n s stored i =
      Done-Visited namespace_shape namespace_kind (λ object. object.name) object_at IsStored
        (IsTold client) (restore_object client) resource_shape (restore_below client current)
        current k n (Resource.new_child k) s (λ p. refl) refl
        (restore_object_tree-Restored n (Resource.add_children current k).1 s stored i)

  rerun :
      (current : Resource) (k : String) (n : Namespace) (s s' : Mission client)
      → restore_namespace client current k n s ≡ restore_below client current k n s'
      → Visited
          (restore_below client current)
          (λ namespace. namespace.name)
          IsStoredNamespace
          (IsTold client)
          (λ k. Left namespace_at (has_below resource_shape namespace_at current k))
          k
          n
          s'
      → VisitedNamespace current k n s
  rerun current k n s s' same v = record {
    child = v.child;
    gone = v.gone;
    state = v.state;
    runs = same ∙ v.runs;
    named = v.named;
    kept = v.kept;
    inv = v.inv;
    related = v.related;
  }

  -- A namespace that could not be made: nothing below it is in the cluster, and all of it stays.
  skipped :
      (current : Resource) (k : String) (n : Namespace) (s s' : Mission client)
      → contains k current.namespaces ≡ false
      → IsStoredNamespace n
      → IsTold client s'
      → restore_namespace client current k n s ≡ done ((n, false), s')
      → VisitedNamespace current k n s
  skipped current k n s s' missing stored i same = record {
    child = n;
    gone = false;
    state = s';
    runs = same;
    named = refl;
    kept = λ _. stored;
    inv = i;
    related = λ p.
        rw (lookup_of_not-contains k current.namespaces missing)
          (sym (and_true (present (namespace_at n p))));
  }
    where
      and_true : (b : Bool) → (b && true) ≡ b
      and_true true = refl
      and_true false = refl

  restore_namespace-Visited :
      (current : Resource) (k : String) (n : Namespace) (s : Mission client)
      → n.name ≡ k
      → IsStoredNamespace n
      → IsTold client s
      → VisitedNamespace current k n s
  unfolding restore_namespace apply_namespace
  restore_namespace-Visited current k n s e stored i =
      let there = not (contains k current.namespaces) && not (k == cluster_level_namespace) in
      elim (Bool-cases there) [
        | inl missing ↦
            let (err, w) = client.apply_namespace n.name s.world in
            let s' : Mission client = record s { world = w } in
            elim (Option-cases err) [
              | inl ok ↦
                  rerun current k n s s' (rw (missing, ok) refl)
                    (restore_below-Visited current k n s' stored i)
              | inr (x, failed) ↦
                  skipped current k n s s' (ground (arith, missing)) stored i
                    (rw (missing, failed) refl)
            ]
        | inr known ↦
            rerun current k n s s (rw known refl) (restore_below-Visited current k n s stored i)
      ]

  -- Resources.
  abbrev RestoredResource : Resource → Resource → Mission client → Type 0
  RestoredResource =
      Restored resource_shape resource_kind (λ namespace. namespace.name) namespace_at
        IsStoredNamespace (IsTold client) (restore_namespace client)

  restore_namespace_tree-Restored :
      (backup current : Resource) (s : Mission client)
      → IsStoredResource backup
      → IsTold client s
      → RestoredResource backup current s
  restore_namespace_tree-Restored =
      restore_level-Restored resource_shape resource_kind (λ namespace. namespace.name) namespace_at
        IsStoredNamespace (IsTold client) (restore_namespace client) restore_namespace-Visited

  abbrev VisitedResource : Version → String → Resource → Mission client → Type 0
  VisitedResource current =
      Visited (compare_resource client current) (λ resource. resource.name) IsStoredResource
        (IsTold client) (λ k. Left resource_at (has_below version_shape resource_at current k))

  pub compare_resource-Visited :
      (current : Version) (k : String) (r : Resource) (s : Mission client)
      → r.name ≡ k
      → IsStoredResource r
      → IsTold client s
      → VisitedResource current k r s
  unfolding compare_resource restore_namespace_tree Version.add_children Namespace.get_name lookup
  compare_resource-Visited current k r s e stored i =
      Done-Visited resource_shape resource_kind (λ namespace. namespace.name) namespace_at
        IsStoredNamespace (IsTold client) (restore_namespace client) version_shape
        (compare_resource client current) current k r (Version.new_child k r.is_cluster) s
        (λ p. refl) refl
        (restore_namespace_tree-Restored r (Version.add_children current k r.is_cluster).1 s stored
          i)
