-- ===== src/Controller/Backup.antt =====
-- A backup of a cluster, read back.
use boxroom_cloud_native.Base.{
  String, ◌<>◌, Bool, true, Option, none, some, List, ◌∷◌, ◌≡◌, sym, ap, subst, ◌∙◌,
}
use mathlib.Core.Option.{some-injective}
use boxroom_cloud_native.Base.Dict.{Dict}
use boxroom_cloud_native.Base.Action.{ok}
use boxroom_cloud_native.Tree.Root.{KubernetesRoot}
use boxroom_cloud_native.Tree.Paths.{find}
use boxroom_cloud_native.Tree.Json.{Json, IsLawful}
use boxroom_cloud_native.Filter.{MapSet, KubernetesResourceFilter}
use boxroom_cloud_native.KubeAgent.Cluster.{Cluster, ApiResourceList}
use boxroom_cloud_native.KubeAgent.Build.Invariant.{BuiltRoot}
use boxroom_cloud_native.KubeAgent.Build.Laws.Versions.{Parses}
use boxroom_cloud_native.KubeAgent.Restore.{Client}
use boxroom_cloud_native.KubeAgent.ResourceTree
use boxroom_cloud_native.KubeAgent.ResourceTree.Laws.{get_resource_tree-BuiltRoot}
use boxroom_cloud_native.Storage.Dir.Write.Located.{in_root}
use boxroom_cloud_native.Storage.Dir.Load.{Files, build_resource_tree}
use boxroom_cloud_native.Storage.Dir.RoundTrip.{IsStorable, EachObject}
use boxroom_cloud_native.Storage.Dir.RoundTrip.Maps.{files_below}
use boxroom_cloud_native.Storage.Dir.RoundTrip.Placed.{HasPlainNames}
use boxroom_cloud_native.Storage.Dir.RoundTrip.Loaded.{build_resource_tree-in_root}
use boxroom_cloud_native.Storage.Dir.RoundTrip.AnyOrder.{SameFiles}
use boxroom_cloud_native.Base.Walk.{IsDict}
use boxroom_cloud_native.Util.DirPath.{join_parts}
use boxroom_cloud_native.Util.DirPath.Plain.{ArePlain}
use boxroom_cloud_native.StoreAgent.{Context}
use boxroom_cloud_native.Controller.Cluster.{collected, kubernetes_agent}

collected-some :
    {W : Type 0} (r : Option KubernetesRoot) (w w' : W) (t : KubernetesRoot)
    → collected r w ≡ ok t w'
    → r ≡ some t
collected-some none w w' t h = cc
collected-some (some t') w w' t h = cc

module _ (client : Client) (M : MapSet) (cluster : client.World → Cluster) (json : Json) where
  -- The Kubernetes agent collects the tree of a cluster that answers, into a tree that satisfies
  -- its invariant, in a context with a logger. The names in the tree are plain, a group's has no
  -- underscore, and each object that it collects has a kind and is encoded without an error. Then
  -- the tree that a restore builds, from any root and from a map of the files of the tree below a
  -- directory of plain names, in any order, has no error and the same object at every path.
  pub collected-build_resource_tree :
      IsLawful json
      → (root tree into : KubernetesRoot) (filters : Dict (KubernetesResourceFilter M))
        (lists : List ApiResourceList) (namespaces : List String) (ctx : Context)
        (w w' : client.World) (part : String) (parts : List String) (resource_map : Dict Files)
        (g v r n o : String)
      → BuiltRoot root
      → ctx.file_logger ≡ true
      → (cluster w).groups_and_resources ≡ some lists
      → (cluster w).list_namespaces ≡ some namespaces
      → Parses (cluster w) lists
      → (kubernetes_agent client M cluster).get_resource_tree root filters ctx w ≡ ok tree w'
      → ArePlain (part ∷ parts)
      → HasPlainNames tree
      → EachObject (IsStorable json) tree
      → IsDict resource_map
      → SameFiles resource_map (files_below json (in_root ("/" <> join_parts (part ∷ parts)) tree))
      → let built = build_resource_tree json into resource_map in
        (built.1 ≡ none) × (find built.0 g v r n o ≡ find tree g v r n o)
  unfolding kubernetes_agent
  collected-build_resource_tree L root tree into filters lists namespaces ctx w w' part parts
        resource_map g v r n o built logger ls ns parsed got plain names storable own same =
      let (t, made, inv) =
        get_resource_tree-BuiltRoot M (cluster w) root filters lists namespaces built ls ns
          parsed in
      let found : (ResourceTree.get_resource_tree M (cluster w) true root filters).0 ≡ some tree =
        ap (λ (b : Bool). (ResourceTree.get_resource_tree M (cluster w) b root filters).0)
          (sym logger)
        ∙ collected-some _ w w' tree got in
      build_resource_tree-in_root json L part parts tree into resource_map g v r n o plain
        (subst BuiltRoot (some-injective t tree (sym made ∙ found)) inv) names storable own same
