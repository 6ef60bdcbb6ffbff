-- ===== src/KubeAgent/Build/Invariant.antt =====
-- The invariant of a tree that the agent builds: nodes stand under their names, and each object
-- carries the metadata of its own path.
use boxroom_cloud_native.Base.{String, Bool, some, ◌≡◌}
use boxroom_cloud_native.Tree.Immobile.{
  root_kind, group_kind, version_kind, resource_kind, namespace_kind, object_kind,
}
use boxroom_cloud_native.Tree.Definition.{Fields}
use boxroom_cloud_native.Tree.Object.{Object}
use boxroom_cloud_native.Tree.Namespace.{Namespace}
use boxroom_cloud_native.Tree.Resource.{Resource}
use boxroom_cloud_native.Tree.Version.{Version}
use boxroom_cloud_native.Tree.Group.{Group}
use boxroom_cloud_native.Tree.Root.{KubernetesRoot}
use boxroom_cloud_native.Tree.Shape.{IsNode}
use boxroom_cloud_native.Tree.Paths.{
  namespace_shape, resource_shape, version_shape, group_shape, root_shape,
}

-- The object of the path `g/v/r/n` has its own name, the resource's level, and the path's parts.
abbrev pub BuiltObject : String → String → String → Bool → String → Object → Type 0
BuiltObject g v r clu n o =
    (o.kind ≡ object_kind)
    × (o.gvr ≡ some (record { group = g; version = v; resource = r }))
    × ((item : Fields) × (o.definition ≡ some item))
    × (o.metadata
        ≡ some (record {
          kind = object_kind;
          name = o.name;
          group = g;
          version = v;
          resource = r;
          namespace = n;
          is_cluster = clu;
        }))

abbrev pub BuiltNamespace : String → String → String → Bool → Namespace → Type 0
BuiltNamespace g v r clu n =
    IsNode namespace_shape namespace_kind (λ (o : Object). o.name) (BuiltObject g v r clu n.name) n

abbrev pub BuiltResource : String → String → String → Bool → Resource → Type 0
BuiltResource g v name clu r =
    (r.name ≡ name)
    × (r.is_cluster ≡ clu)
    × IsNode resource_shape resource_kind (λ (n : Namespace). n.name) (BuiltNamespace g v name clu)
        r

abbrev pub OwnResource : String → String → Resource → Type 0
OwnResource g v r = BuiltResource g v r.name r.is_cluster r

abbrev pub BuiltVersion : String → String → Version → Type 0
BuiltVersion g name v =
    (v.name ≡ name)
    × IsNode version_shape version_kind (λ (r : Resource). r.name) (OwnResource g name) v

abbrev pub OwnVersion : String → Version → Type 0
OwnVersion g v = BuiltVersion g v.name v

abbrev pub BuiltGroup : String → Group → Type 0
BuiltGroup name g =
    (g.name ≡ name) × IsNode group_shape group_kind (λ (v : Version). v.name) (OwnVersion name) g

abbrev pub OwnGroup : Group → Type 0
OwnGroup g = BuiltGroup g.name g

abbrev pub BuiltRoot : KubernetesRoot → Type 0
BuiltRoot root = IsNode root_shape root_kind (λ (g : Group). g.name) OwnGroup root
