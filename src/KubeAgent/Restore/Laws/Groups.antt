-- ===== src/KubeAgent/Restore/Laws/Groups.antt =====
-- The loops over the versions and the groups of a backup.
use boxroom_cloud_native.Base.{String, ◌≡◌, refl}
use boxroom_cloud_native.Base.Dict.{lookup}
use boxroom_cloud_native.Base.Sweep.{Visited}
use boxroom_cloud_native.Tree.Immobile.{root_kind, group_kind, version_kind}
use boxroom_cloud_native.Tree.Resource
use boxroom_cloud_native.Tree.Resource.{Resource}
use boxroom_cloud_native.Tree.Version
use boxroom_cloud_native.Tree.Version.{Version}
use boxroom_cloud_native.Tree.Group
use boxroom_cloud_native.Tree.Group.{Group}
use boxroom_cloud_native.Tree.Root
use boxroom_cloud_native.Tree.Root.{KubernetesRoot}
use boxroom_cloud_native.Tree.Paths.{
  resource_at, version_shape, version_at, group_shape, group_at, root_shape,
}
use boxroom_cloud_native.KubeAgent.Restore.{
  Client, Mission, compare_resource, compare_resource_tree, compare_version, compare_version_tree,
  compare_group,
}
use boxroom_cloud_native.KubeAgent.Restore.Level.{
  Left, has_below, Restored, restore_level-Restored, Done-Visited,
}
use boxroom_cloud_native.KubeAgent.Restore.Laws.Objects.{
  IsStoredResource, IsStoredVersion, IsStoredGroup, IsStoredRoot, Answers, IsTold,
}
use boxroom_cloud_native.KubeAgent.Restore.Laws.Levels.{compare_resource-Visited}

module _ (client : Client) (answers : Answers client) where
  -- Versions.
  abbrev RestoredVersion : Version → Version → Mission client → Type 0
  RestoredVersion =
      Restored version_shape version_kind (λ resource. resource.name) resource_at IsStoredResource
        (IsTold client) (compare_resource client)

  compare_resource_tree-Restored :
      (backup current : Version) (s : Mission client)
      → IsStoredVersion backup
      → IsTold client s
      → RestoredVersion backup current s
  compare_resource_tree-Restored =
      restore_level-Restored version_shape version_kind (λ resource. resource.name) resource_at
        IsStoredResource (IsTold client) (compare_resource client)
        (compare_resource-Visited client answers)

  abbrev VisitedVersion : Group → String → Version → Mission client → Type 0
  VisitedVersion current =
      Visited (compare_version client current) (λ version. version.name) IsStoredVersion
        (IsTold client) (λ k. Left version_at (has_below group_shape version_at current k))

  compare_version-Visited :
      (current : Group) (k : String) (v : Version) (s : Mission client)
      → v.name ≡ k
      → IsStoredVersion v
      → IsTold client s
      → VisitedVersion current k v s
  unfolding compare_version compare_resource_tree Group.add_children Resource.get_name lookup
  compare_version-Visited current k v s e stored i =
      Done-Visited version_shape version_kind (λ resource. resource.name) resource_at
        IsStoredResource (IsTold client) (compare_resource client) group_shape
        (compare_version client current) current k v (Group.new_child k) s (λ p. refl) refl
        (compare_resource_tree-Restored v (Group.add_children current k).1 s stored i)

  -- Groups.
  abbrev RestoredGroup : Group → Group → Mission client → Type 0
  RestoredGroup =
      Restored group_shape group_kind (λ version. version.name) version_at IsStoredVersion
        (IsTold client) (compare_version client)

  compare_version_tree-Restored :
      (backup current : Group) (s : Mission client)
      → IsStoredGroup backup
      → IsTold client s
      → RestoredGroup backup current s
  compare_version_tree-Restored =
      restore_level-Restored group_shape group_kind (λ version. version.name) version_at
        IsStoredVersion (IsTold client) (compare_version client) compare_version-Visited

  abbrev VisitedGroup : KubernetesRoot → String → Group → Mission client → Type 0
  VisitedGroup current =
      Visited (compare_group client current) (λ group. group.name) IsStoredGroup (IsTold client)
        (λ k. Left group_at (has_below root_shape group_at current k))

  compare_group-Visited :
      (current : KubernetesRoot) (k : String) (g : Group) (s : Mission client)
      → g.name ≡ k
      → IsStoredGroup g
      → IsTold client s
      → VisitedGroup current k g s
  unfolding compare_group compare_version_tree Root.add_children Version.get_name lookup
  compare_group-Visited current k g s e stored i =
      Done-Visited group_shape group_kind (λ version. version.name) version_at IsStoredVersion
        (IsTold client) (compare_version client) root_shape (compare_group client current) current k
        g (Root.new_child k) s (λ p. refl) refl
        (compare_version_tree-Restored g (Root.add_children current k).1 s stored i)

  -- The root.
  pub compare_group_tree-Restored :
      (backup current : KubernetesRoot) (s : Mission client)
      → IsStoredRoot backup
      → IsTold client s
      → Restored root_shape root_kind
          (λ group. group.name)
          group_at
          IsStoredGroup
          (IsTold client)
          (compare_group client)
          backup
          current
          s
  compare_group_tree-Restored =
      restore_level-Restored root_shape root_kind (λ group. group.name) group_at IsStoredGroup
        (IsTold client) (compare_group client) compare_group-Visited
