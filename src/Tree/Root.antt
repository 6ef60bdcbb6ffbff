-- ===== src/Tree/Root.antt =====
-- kubernetes/resource/tree/root.go. The `Parent` pointer is the place in the tree.
use boxroom_cloud_native.Base.{
  String, Bool, true, false, Option, none, some, List, [], ◌==◌, ◌&&◌, if◌then◌else◌,
}
use boxroom_cloud_native.Base.Dict.{Dict, lookup, contains, set, delete, keys}
use boxroom_cloud_native.Tree.Immobile.{group_kind}
use boxroom_cloud_native.Tree.Group.{Group}
use boxroom_cloud_native.Tree.Resources.{Resources}

pub record KubernetesRoot : Type 0 where
  pub kind : String
  pub name : String
  pub tree_kind : String
  pub tree_name : String
  pub groups : Dict Group

unfoldable pub get_kind : KubernetesRoot → String
get_kind root = root.kind

unfoldable pub get_name : KubernetesRoot → String
get_name root = root.name

unfoldable pub contains_children : KubernetesRoot → String → Bool
contains_children root name = contains name root.groups

-- `none` is a nil child.
unfoldable pub get_children : KubernetesRoot → String → Option Group
unfolding contains_children
get_children root name = if contains_children root name then lookup name root.groups else none

unfoldable pub equals : KubernetesRoot → Resources → Bool
equals root other = if root.kind == other.kind && root.name == other.name then true else false

unfoldable pub delete_children : KubernetesRoot → Resources → KubernetesRoot × Bool
unfolding contains_children
delete_children root other =
    if contains_children root other.name
    then (record root { groups = delete other.name root.groups }, true)
    else (root, false)

-- A child that `AddChildren` makes.
abbrev pub new_child : String → Group
new_child name = record { kind = group_kind; name = name; versions = [] }

-- The tree after the call, and the child that the call returns. The caller writes to the child
-- through a pointer: see `put_children`.
unfoldable pub add_children : KubernetesRoot → String → KubernetesRoot × Group
add_children root name = elim (lookup name root.groups) [
  | some child ↦ (root, child)
  | none ↦
      let child = new_child name in (record root { groups = set name child root.groups }, child)
]

-- A write to the child that the key holds, through the pointer that `add_children` returned.
unfoldable pub put_children : KubernetesRoot → String → Group → KubernetesRoot
put_children root name child = record root { groups = set name child root.groups }

-- In the order of the map's `range` loop.
unfoldable pub list_children : KubernetesRoot → List String
list_children root = keys root.groups
