-- ===== src/Tree/Paths.antt =====
-- Well-formed trees, and the object at a path of a tree.
use boxroom_cloud_native.Base.{String, Option, some, ◌≡◌, refl}
use boxroom_cloud_native.Tree.Immobile.{
  root_kind, group_kind, version_kind, resource_kind, namespace_kind, object_kind,
}
use boxroom_cloud_native.Tree.Object.{Object}
use boxroom_cloud_native.Tree.Namespace.{Namespace}
use boxroom_cloud_native.Tree.Resource.{Resource}
use boxroom_cloud_native.Tree.Version.{Version}
use boxroom_cloud_native.Tree.Group.{Group}
use boxroom_cloud_native.Tree.Root.{KubernetesRoot}
use boxroom_cloud_native.Tree.Shape.{Shape, IsNode, at_child}

abbrev pub IsObject : Object → Type 0
IsObject o = o.kind ≡ object_kind

abbrev pub object_at : Object → Unit {0} → Option Object
object_at o u = some o

abbrev pub namespace_shape : Shape Namespace Object
namespace_shape = record {
  kind = λ namespace. namespace.kind;
  name = λ namespace. namespace.name;
  children = λ namespace. namespace.objects;
  write = λ namespace d. record namespace { objects = d };
  children-write = λ namespace d. refl;
  kind-write = λ namespace d. refl;
  name-write = λ namespace d. refl;
}

abbrev pub IsNamespace : Namespace → Type 0
IsNamespace = IsNode namespace_shape namespace_kind (λ (object : Object). object.name) IsObject

abbrev pub namespace_at : Namespace → String × Unit {0} → Option Object
namespace_at = at_child namespace_shape object_at

abbrev pub resource_shape : Shape Resource Namespace
resource_shape = record {
  kind = λ resource. resource.kind;
  name = λ resource. resource.name;
  children = λ resource. resource.namespaces;
  write = λ resource d. record resource { namespaces = d };
  children-write = λ resource d. refl;
  kind-write = λ resource d. refl;
  name-write = λ resource d. refl;
}

abbrev pub IsResource : Resource → Type 0
IsResource =
    IsNode resource_shape resource_kind (λ (namespace : Namespace). namespace.name) IsNamespace

abbrev pub resource_at : Resource → String × (String × Unit {0}) → Option Object
resource_at = at_child resource_shape namespace_at

abbrev pub version_shape : Shape Version Resource
version_shape = record {
  kind = λ version. version.kind;
  name = λ version. version.name;
  children = λ version. version.resources;
  write = λ version d. record version { resources = d };
  children-write = λ version d. refl;
  kind-write = λ version d. refl;
  name-write = λ version d. refl;
}

abbrev pub IsVersion : Version → Type 0
IsVersion = IsNode version_shape version_kind (λ (resource : Resource). resource.name) IsResource

abbrev pub version_at : Version → String × (String × (String × Unit {0})) → Option Object
version_at = at_child version_shape resource_at

abbrev pub group_shape : Shape Group Version
group_shape = record {
  kind = λ group. group.kind;
  name = λ group. group.name;
  children = λ group. group.versions;
  write = λ group d. record group { versions = d };
  children-write = λ group d. refl;
  kind-write = λ group d. refl;
  name-write = λ group d. refl;
}

abbrev pub IsGroup : Group → Type 0
IsGroup = IsNode group_shape group_kind (λ (version : Version). version.name) IsVersion

abbrev pub group_at : Group → String × (String × (String × (String × Unit {0}))) → Option Object
group_at = at_child group_shape version_at

abbrev pub root_shape : Shape KubernetesRoot Group
root_shape = record {
  kind = λ root. root.kind;
  name = λ root. root.name;
  children = λ root. root.groups;
  write = λ root d. record root { groups = d };
  children-write = λ root d. refl;
  kind-write = λ root d. refl;
  name-write = λ root d. refl;
}

abbrev pub IsRoot : KubernetesRoot → Type 0
IsRoot = IsNode root_shape root_kind (λ (group : Group). group.name) IsGroup

abbrev pub root_at :
    KubernetesRoot → String × (String × (String × (String × (String × Unit {0})))) → Option Object
root_at = at_child root_shape group_at

-- The object `group/version/resource/namespace/name` of a tree.
abbrev pub find : KubernetesRoot → String → String → String → String → String → Option Object
find root g v r n o = root_at root (g, (v, (r, (n, (o, tt)))))
