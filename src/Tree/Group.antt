-- ===== src/Tree/Group.antt =====
-- kubernetes/resource/tree/group.go. The `Parent` pointer is the place in the tree.
use boxroom_cloud_native.Base.{
  String, Bool, true, false, Option, none, some, List, [], ◌==◌, ◌&&◌, if◌then◌else◌,
}
use boxroom_cloud_native.Base.Dict.{Dict, lookup, contains, set, delete, keys}
use boxroom_cloud_native.Tree.Immobile.{version_kind}
use boxroom_cloud_native.Tree.Version.{Version}
use boxroom_cloud_native.Tree.Resources.{Resources}

pub record Group : Type 0 where
  pub kind : String
  pub name : String
  pub versions : Dict Version

unfoldable pub get_kind : Group → String
get_kind group = group.kind

unfoldable pub get_name : Group → String
get_name group = group.name

unfoldable pub contains_children : Group → String → Bool
contains_children group name = contains name group.versions

-- `none` is a nil child.
unfoldable pub get_children : Group → String → Option Version
unfolding contains_children
get_children group name = if contains_children group name then lookup name group.versions else none

unfoldable pub equals : Group → Resources → Bool
equals group other = if group.kind == other.kind && group.name == other.name then true else false

unfoldable pub delete_children : Group → Resources → Group × Bool
unfolding contains_children
delete_children group other =
    if contains_children group other.name
    then (record group { versions = delete other.name group.versions }, true)
    else (group, false)

-- A child that `AddChildren` makes.
abbrev pub new_child : String → Version
new_child name = record { kind = version_kind; name = name; resources = [] }

-- The tree after the call, and the child that the call returns. The caller writes to the child
-- through a pointer: see `put_children`.
unfoldable pub add_children : Group → String → Group × Version
add_children group name = elim (lookup name group.versions) [
  | some child ↦ (group, child)
  | none ↦
      let child = new_child name in
      (record group { versions = set name child group.versions }, child)
]

-- A write to the child that the key holds, through the pointer that `add_children` returned.
unfoldable pub put_children : Group → String → Version → Group
put_children group name child = record group { versions = set name child group.versions }

-- In the order of the map's `range` loop.
unfoldable pub list_children : Group → List String
list_children group = keys group.versions
