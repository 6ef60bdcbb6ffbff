-- ===== src/Storage/Dir/RoundTrip/Loaded.antt =====
-- What a restore reads back: the tree that is built from the map of a tree's files, whatever the
-- order of the map.
use boxroom_cloud_native.Base.{String, ◌<>◌, none, List, ◌∷◌, ◌≡◌, subst, ◌∙◌}
use boxroom_cloud_native.Base.Dict.{Dict}
use boxroom_cloud_native.Base.Walk.{IsDict}
use boxroom_cloud_native.Tree.Root.{KubernetesRoot}
use boxroom_cloud_native.Tree.Paths.{find}
use boxroom_cloud_native.Tree.Json.{Json, IsLawful}
use boxroom_cloud_native.KubeAgent.Build.Invariant.{BuiltRoot}
use boxroom_cloud_native.Storage.Dir.Write.Located.{in_root}
use boxroom_cloud_native.Storage.Dir.Load.{Files, build_resource_tree}
use boxroom_cloud_native.Storage.Dir.Load.Build.{build_resource_tree-finds}
use boxroom_cloud_native.Storage.Dir.RoundTrip.{IsStorable, EachObject, directories}
use boxroom_cloud_native.Storage.Dir.RoundTrip.Trees.{find_stored-in_root, root-IsStored}
use boxroom_cloud_native.Storage.Dir.RoundTrip.Maps.{files_below, files_below-directories}
use boxroom_cloud_native.Storage.Dir.RoundTrip.Placed.{HasPlainNames, root_placed}
use boxroom_cloud_native.Util.DirPath.{join_parts}
use boxroom_cloud_native.Util.DirPath.Plain.{ArePlain}
use boxroom_cloud_native.Storage.Dir.RoundTrip.AnyOrder.{
  SameFiles, directories-IsStoredAt, same-IsStoredAt, IsStoredAt-all_decode, find_stored-same,
}

module _ (json : Json) (L : IsLawful json) where
  -- A tree as the Kubernetes agent builds it, with plain names, no underscore in the name of a group,
  -- and objects that have a kind and are encoded without an error, is stored below a directory that is
  -- a path of plain names from the root. A map holds its files, as `visit_file` adds them, in any
  -- order. The tree that is built from the map has the same object at every path, without an error and
  -- whatever the tree was that it is built into.
  pub build_resource_tree-in_root :
      (part : String) (parts : List String) (root into : KubernetesRoot) (resource_map : Dict Files)
      (g v r n o : String)
      → ArePlain (part ∷ parts)
      → BuiltRoot root
      → HasPlainNames root
      → EachObject (IsStorable json) root
      → IsDict resource_map
      → SameFiles resource_map (files_below json (in_root ("/" <> join_parts (part ∷ parts)) root))
      → let built = build_resource_tree json into resource_map in
        (built.1 ≡ none) × (find built.0 g v r n o ≡ find root g v r n o)
  build_resource_tree-in_root part parts root into resource_map g v r n o plain b names s u same =
      let dir = "/" <> join_parts (part ∷ parts) in
      let objects = in_root dir root in
      let (placed, own) = root_placed json part parts plain root b names in
      let same' : SameFiles resource_map (directories json objects) =
        subst (SameFiles resource_map) (files_below-directories json objects placed own) same in
      let stored = directories-IsStoredAt json dir objects (root-IsStored json L dir root b s) in
      let (ends, finds) = build_resource_tree-finds json into resource_map g v r n o (
        IsStoredAt-all_decode json dir resource_map u
          (same-IsStoredAt json dir resource_map (directories json objects) same' stored)) in
      (
        ends,
        finds
            ∙ find_stored-same json dir g v r n o resource_map (directories json objects) u own
                same' stored
            ∙ find_stored-in_root json L g v r n o dir root b s,
      )
