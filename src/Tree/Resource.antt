-- ===== src/Tree/Resource.antt =====
-- kubernetes/resource/tree/resource.go. The `Parent` pointer is the place in the tree.
use boxroom_cloud_native.Base.{
  String, Bool, true, false, Option, none, some, List, [], ◌==◌, ◌&&◌, if◌then◌else◌,
}
use boxroom_cloud_native.Base.Dict.{Dict, lookup, contains, set, delete, keys}
use boxroom_cloud_native.Tree.Immobile.{namespace_kind}
use boxroom_cloud_native.Tree.Namespace.{Namespace}
use boxroom_cloud_native.Tree.Resources.{Resources}

pub record Resource : Type 0 where
  pub kind : String
  pub name : String
  pub is_cluster : Bool
  pub namespaces : Dict Namespace

unfoldable pub get_kind : Resource → String
get_kind resource = resource.kind

unfoldable pub get_name : Resource → String
get_name resource = resource.name

unfoldable pub contains_children : Resource → String → Bool
contains_children resource name = contains name resource.namespaces

-- `none` is a nil child.
unfoldable pub get_children : Resource → String → Option Namespace
unfolding contains_children
get_children resource name =
    if contains_children resource name then lookup name resource.namespaces else none

unfoldable pub equals : Resource → Resources → Bool
equals resource other =
    if resource.kind == other.kind && resource.name == other.name then true else false

unfoldable pub delete_children : Resource → Resources → Resource × Bool
unfolding contains_children
delete_children resource other =
    if contains_children resource other.name
    then (record resource { namespaces = delete other.name resource.namespaces }, true)
    else (resource, false)

-- A child that `AddChildren` makes.
abbrev pub new_child : String → Namespace
new_child name = record { kind = namespace_kind; name = name; objects = [] }

-- The tree after the call, and the child that the call returns. The caller writes to the child
-- through a pointer: see `put_children`.
unfoldable pub add_children : Resource → String → Resource × Namespace
add_children resource name = elim (lookup name resource.namespaces) [
  | some child ↦ (resource, child)
  | none ↦
      let child = new_child name in
      (record resource { namespaces = set name child resource.namespaces }, child)
]

-- A write to the child that the key holds, through the pointer that `add_children` returned.
unfoldable pub put_children : Resource → String → Namespace → Resource
put_children resource name child = record resource {
  namespaces = set name child resource.namespaces;
}

-- In the order of the map's `range` loop.
unfoldable pub list_children : Resource → List String
list_children resource = keys resource.namespaces
