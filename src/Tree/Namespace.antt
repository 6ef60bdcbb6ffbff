-- ===== src/Tree/Namespace.antt =====
-- kubernetes/resource/tree/namespace.go. The `Parent` pointer is the place in the tree.
use boxroom_cloud_native.Base.{
  String, Bool, true, false, Option, none, some, List, ◌==◌, ◌&&◌, if◌then◌else◌,
}
use boxroom_cloud_native.Base.Dict.{Dict, lookup, contains, set, delete, keys}
use boxroom_cloud_native.Tree.Immobile.{object_kind}
use boxroom_cloud_native.Tree.Object.{Object}
use boxroom_cloud_native.Tree.Resources.{Resources}

pub record Namespace : Type 0 where
  pub kind : String
  pub name : String
  pub objects : Dict Object

unfoldable pub get_kind : Namespace → String
get_kind namespace = namespace.kind

unfoldable pub get_name : Namespace → String
get_name namespace = namespace.name

unfoldable pub contains_children : Namespace → String → Bool
contains_children namespace name = contains name namespace.objects

-- `none` is a nil child.
unfoldable pub get_children : Namespace → String → Option Object
unfolding contains_children
get_children namespace name =
    if contains_children namespace name then lookup name namespace.objects else none

unfoldable pub equals : Namespace → Resources → Bool
equals namespace other =
    if namespace.kind == other.kind && namespace.name == other.name then true else false

unfoldable pub delete_children : Namespace → Resources → Namespace × Bool
unfolding contains_children
delete_children namespace other =
    if contains_children namespace other.name
    then (record namespace { objects = delete other.name namespace.objects }, true)
    else (namespace, false)

-- A child that `AddChildren` makes.
abbrev pub new_child : String → Object
new_child name = record {
  kind = object_kind;
  name = name;
  gvr = none;
  definition = none;
  metadata = none;
}

-- The tree after the call, and the child that the call returns. The caller writes to the child
-- through a pointer: see `put_children`.
unfoldable pub add_children : Namespace → String → Namespace × Object
add_children namespace name = elim (lookup name namespace.objects) [
  | some child ↦ (namespace, child)
  | none ↦
      let child = new_child name in
      (record namespace { objects = set name child namespace.objects }, child)
]

-- A write to the child that the key holds, through the pointer that `add_children` returned.
unfoldable pub put_children : Namespace → String → Object → Namespace
put_children namespace name child = record namespace { objects = set name child namespace.objects }

-- In the order of the map's `range` loop.
unfoldable pub list_children : Namespace → List String
list_children namespace = keys namespace.objects
