-- ===== src/Tree/Object.antt =====
-- kubernetes/resource/tree/object.go. A pointer that may be nil is an `Option`. The `Parent`
-- pointer is the place in the tree.
use boxroom_cloud_native.Base.{
  String, Bool, true, false, Option, none, some, List, [], ◌==◌, ◌&&◌, if◌then◌else◌,
}
use boxroom_cloud_native.Base.Outcome.{Outcome, done, panic, bind}
use boxroom_cloud_native.Tree.Definition.{Fields, get_field, delete_field}
use boxroom_cloud_native.Tree.Resources.{Resources}

-- `schema.GroupVersionResource`
pub record Gvr : Type 0 where
  pub group : String
  pub version : String
  pub resource : String

pub record ObjectMetadata : Type 0 where
  pub kind : String
  pub name : String
  pub group : String
  pub version : String
  pub resource : String
  pub namespace : String
  pub is_cluster : Bool

pub record Object : Type 0 where
  pub kind : String
  pub name : String
  pub gvr : Option Gvr
  pub definition : Option Fields
  pub metadata : Option ObjectMetadata

unfoldable pub get_kind : Object → String
get_kind object = object.kind

unfoldable pub get_name : Object → String
get_name object = object.name

unfoldable pub get_children : {C : Type 0} → Object → String → Option C
get_children object name = none

unfoldable pub equals : Object → Resources → Bool
equals object other = if object.kind == other.kind && object.name == other.name then true else false

-- The key of the definition. A nil definition is dereferenced.
unfoldable pub contains_children : Object → String → Outcome Bool
contains_children object kind = elim object.definition [
  | none ↦ panic
  | some definition ↦ elim (get_field kind definition) [ none ↦ done false | some v ↦ done true ]
]

unfoldable pub delete_children : Object → Resources → Outcome (Object × Bool)
unfolding contains_children
delete_children object other = bind (contains_children object other.kind) λ present.
    elim object.definition [
      | none ↦ panic
      | some definition ↦
          if present
          then done (record object { definition = some (delete_field other.kind definition) }, true)
          else done (object, false)
    ]

unfoldable pub list_children : Object → List String
list_children object = []
