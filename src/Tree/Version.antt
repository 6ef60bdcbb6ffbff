-- ===== src/Tree/Version.antt =====
-- kubernetes/resource/tree/version.go. The `Parent` pointer is the place in the tree.
use boxroom_cloud_native.Base.{
  String, Bool, true, false, Option, none, some, List, [], ◌==◌, ◌&&◌, if◌then◌else◌,
}
use boxroom_cloud_native.Base.Dict.{Dict, lookup, contains, set, delete, keys}
use boxroom_cloud_native.Tree.Immobile.{resource_kind}
use boxroom_cloud_native.Tree.Resource.{Resource}
use boxroom_cloud_native.Tree.Resources.{Resources}

pub record Version : Type 0 where
  pub kind : String
  pub name : String
  pub resources : Dict Resource

unfoldable pub get_kind : Version → String
get_kind version = version.kind

unfoldable pub get_name : Version → String
get_name version = version.name

unfoldable pub contains_children : Version → String → Bool
contains_children version name = contains name version.resources

-- `none` is a nil child.
unfoldable pub get_children : Version → String → Option Resource
unfolding contains_children
get_children version name =
    if contains_children version name then lookup name version.resources else none

unfoldable pub equals : Version → Resources → Bool
equals version other =
    if version.kind == other.kind && version.name == other.name then true else false

unfoldable pub delete_children : Version → Resources → Version × Bool
unfolding contains_children
delete_children version other =
    if contains_children version other.name
    then (record version { resources = delete other.name version.resources }, true)
    else (version, false)

-- A child that `AddChildren` makes.
abbrev pub new_child : String → Bool → Resource
new_child name cluster = record {
  kind = resource_kind;
  name = name;
  is_cluster = cluster;
  namespaces = [];
}

-- The tree after the call, and the child that the call returns. The caller writes to the child
-- through a pointer: see `put_children`.
unfoldable pub add_children : Version → String → Bool → Version × Resource
add_children version name cluster = elim (lookup name version.resources) [
  | some child ↦ (version, child)
  | none ↦
      let child = new_child name cluster in
      (record version { resources = set name child version.resources }, child)
]

-- A write to the child that the key holds, through the pointer that `add_children` returned.
unfoldable pub put_children : Version → String → Resource → Version
put_children version name child = record version { resources = set name child version.resources }

-- In the order of the map's `range` loop.
unfoldable pub list_children : Version → List String
list_children version = keys version.resources
