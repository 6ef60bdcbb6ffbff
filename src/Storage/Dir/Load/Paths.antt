-- ===== src/Storage/Dir/Load/Paths.antt =====
-- The chain of `AddChildren` of `buildResourceTree`, as a change of the object at one path.
use boxroom_cloud_native.Base.{
  String, Bool, ◌&&◌, Option, none, some, ◌==◌, ◌≡◌, refl, ap, ◌∙◌, if◌then◌else◌, Option-cases,
  inl, inr,
}
use boxroom_cloud_native.Base.Dict.{lookup}
use boxroom_cloud_native.Tree.Object.{Object, ObjectMetadata}
use boxroom_cloud_native.Tree.Namespace
use boxroom_cloud_native.Tree.Namespace.{Namespace}
use boxroom_cloud_native.Tree.Resource
use boxroom_cloud_native.Tree.Resource.{Resource}
use boxroom_cloud_native.Tree.Version
use boxroom_cloud_native.Tree.Version.{Version}
use boxroom_cloud_native.Tree.Group
use boxroom_cloud_native.Tree.Group.{Group}
use boxroom_cloud_native.Tree.Root
use boxroom_cloud_native.Tree.Root.{KubernetesRoot}
use boxroom_cloud_native.Tree.Grow.{add_child}
use boxroom_cloud_native.Tree.Paths.{
  object_at, namespace_shape, namespace_at, resource_shape, resource_at, version_shape, version_at,
  group_shape, group_at, root_shape, find,
}
use boxroom_cloud_native.Tree.Deepen.{deepen-changes, at_child-deepen, at-add_child}
use boxroom_cloud_native.Storage.Dir.Load.{
  add_to_namespace, add_to_resource, add_to_version, add_to_group, add_to_root,
}

-- The object that `AddChildren` returns for what stands at the path.
abbrev pub object_before : String → Option Object → Object
object_before name none = Namespace.new_child name
object_before name (some object) = object

module _ (m : ObjectMetadata) (write : Object → Object × Option String) where
  abbrev pub written : Option Object → Object
  written before = (write (object_before m.name before)).0

  abbrev pub failure : Option Object → Option String
  failure before = (write (object_before m.name before)).1

  abbrev in_namespace : String × Unit {0} → Bool
  in_namespace p = m.name == p.0

  abbrev in_resource : String × (String × Unit {0}) → Bool
  in_resource p = m.namespace == p.0 && in_namespace p.1

  abbrev in_version : String × (String × (String × Unit {0})) → Bool
  in_version p = m.resource == p.0 && in_resource p.1

  abbrev in_group : String × (String × (String × (String × Unit {0}))) → Bool
  in_group p = m.version == p.0 && in_version p.1

  abbrev pub in_root : String × (String × (String × (String × (String × Unit {0})))) → Bool
  in_root p = m.group == p.0 && in_group p.1

  -- The object that the last `AddChildren` returns.
  added_object :
      (c : Namespace)
      → (add_child namespace_shape c m.name (Namespace.new_child m.name)).1
        ≡ object_before m.name (namespace_at c (m.name, tt))
  added_object c = elim (Option-cases (lookup m.name c.objects)) [
    | inl e ↦ rw (e, add_child) refl
    | inr (o, e) ↦ rw (e, add_child) refl
  ]

  namespace_changes :
      (c : Namespace) (p : String × Unit {0})
      → namespace_at (add_to_namespace c m write).0 p ≡ (
          if in_namespace p then some (written (namespace_at c (m.name, tt))) else namespace_at c p)
  unfolding add_to_namespace Namespace.add_children Namespace.put_children
  namespace_changes c p =
      at_child-deepen namespace_shape object_at m.name (Namespace.new_child m.name)
        (λ o. (write o).0) c p.0 p.1
      ∙ ap (λ (o : Object). if m.name == p.0 then some (write o).0 else namespace_at c p)
          (added_object c)

  resource_changes :
      (c : Resource) (p : String × (String × Unit {0}))
      → resource_at (add_to_resource c m write).0 p ≡ (
          if in_resource p
          then some (written (resource_at c (m.namespace, (m.name, tt))))
          else resource_at c p)
  unfolding add_to_resource Resource.add_children Resource.put_children lookup
  resource_changes c p =
      deepen-changes resource_shape namespace_at m.namespace (Resource.new_child m.namespace)
        in_namespace (m.name, tt) written (λ n. (add_to_namespace n m write).0) namespace_changes
        (λ p. refl) c p.0 p.1

  version_changes :
      (c : Version) (p : String × (String × (String × Unit {0})))
      → version_at (add_to_version c m write).0 p ≡ (
          if in_version p
          then some (written (version_at c (m.resource, (m.namespace, (m.name, tt)))))
          else version_at c p)
  unfolding add_to_version Version.add_children Version.put_children lookup
  version_changes c p =
      deepen-changes version_shape resource_at m.resource
        (Version.new_child m.resource m.is_cluster) in_resource (m.namespace, (m.name, tt)) written
        (λ n. (add_to_resource n m write).0) resource_changes (λ p. refl) c p.0 p.1

  group_changes :
      (c : Group) (p : String × (String × (String × (String × Unit {0}))))
      → group_at (add_to_group c m write).0 p ≡ (
          if in_group p
          then some (written (group_at c (m.version, (m.resource, (m.namespace, (m.name, tt))))))
          else group_at c p)
  unfolding add_to_group Group.add_children Group.put_children lookup
  group_changes c p =
      deepen-changes group_shape version_at m.version (Group.new_child m.version) in_version
        (m.resource, (m.namespace, (m.name, tt))) written (λ n. (add_to_version n m write).0)
        version_changes (λ p. refl) c p.0 p.1

  -- The object at the path of the metadata is what is written for the one that stood there, and
  -- every other path keeps its object.
  pub find-add_to_root :
      (root : KubernetesRoot) (g v r n o : String)
      → find (add_to_root root m write).0 g v r n o ≡ (
          if in_root (g, (v, (r, (n, (o, tt)))))
          then some (written (find root m.group m.version m.resource m.namespace m.name))
          else find root g v r n o)
  unfolding add_to_root Root.add_children Root.put_children lookup
  find-add_to_root root g v r n o =
      deepen-changes root_shape group_at m.group (Root.new_child m.group) in_group
        (m.version, (m.resource, (m.namespace, (m.name, tt)))) written
        (λ c. (add_to_group c m write).0) group_changes (λ p. refl) root g (v, (r, (n, (o, tt))))

  namespace_fails :
      (c : Namespace) → (add_to_namespace c m write).1 ≡ failure (namespace_at c (m.name, tt))
  unfolding add_to_namespace Namespace.add_children
  namespace_fails c = ap (λ (o : Object). (write o).1) (added_object c)

  resource_fails :
      (c : Resource)
      → (add_to_resource c m write).1 ≡ failure (resource_at c (m.namespace, (m.name, tt)))
  unfolding add_to_resource Resource.add_children lookup
  resource_fails c =
      namespace_fails _
      ∙ ap failure (
          at-add_child resource_shape namespace_at m.namespace (Resource.new_child m.namespace) c
            (m.name, tt) refl)

  version_fails :
      (c : Version)
      → (add_to_version c m write).1
        ≡ failure (version_at c (m.resource, (m.namespace, (m.name, tt))))
  unfolding add_to_version Version.add_children lookup
  version_fails c =
      resource_fails _
      ∙ ap failure (
          at-add_child version_shape resource_at m.resource
            (Version.new_child m.resource m.is_cluster) c (m.namespace, (m.name, tt)) refl)

  group_fails :
      (c : Group)
      → (add_to_group c m write).1
        ≡ failure (group_at c (m.version, (m.resource, (m.namespace, (m.name, tt)))))
  unfolding add_to_group Group.add_children lookup
  group_fails c =
      version_fails _
      ∙ ap failure (
          at-add_child group_shape version_at m.version (Group.new_child m.version) c
            (m.resource, (m.namespace, (m.name, tt))) refl)

  -- The error is that of the write to the object.
  pub add_to_root-fails :
      (root : KubernetesRoot)
      → (add_to_root root m write).1
        ≡ failure (find root m.group m.version m.resource m.namespace m.name)
  unfolding add_to_root Root.add_children lookup
  add_to_root-fails root =
      group_fails _
      ∙ ap failure (
          at-add_child root_shape group_at m.group (Root.new_child m.group) root
            (m.version, (m.resource, (m.namespace, (m.name, tt)))) refl)
