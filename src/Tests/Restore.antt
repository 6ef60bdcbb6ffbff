-- ===== src/Tests/Restore.antt =====
-- A restore of two objects to a cluster that has one of them, and refuses the other.
use boxroom_cloud_native.Base.{String, true, not, ◌&&◌, none, some, List, [], ◌∷◌, ◌≡◌, refl, subst}
use boxroom_cloud_native.Base.Outcome.{done}
use boxroom_cloud_native.Base.Dict.{contains}
use boxroom_cloud_native.Tree.Root.{KubernetesRoot}
use boxroom_cloud_native.Tree.Paths.{find}
use boxroom_cloud_native.KubeAgent.Restore.{ApiError, Client, Mission, compare_group_tree}
use boxroom_cloud_native.KubeAgent.Restore.Level.{present}
use boxroom_cloud_native.KubeAgent.Restore.Laws.{compare_group_tree-leaves_missing}
use boxroom_cloud_native.KubeAgent.Restore.Laws.Objects.{Answers, IsStoredRoot, IsTold}
use boxroom_cloud_native.KubeAgent.Build.Invariant.{BuiltRoot}
use boxroom_cloud_native.KubeAgent.ResourceTree.{
  get_resource_tree, compare_root, apply_resource_tree,
}
use boxroom_cloud_native.KubeAgent.ResourceTree.Laws.{
  everything, apply_resource_tree-leaves_missing,
}
use boxroom_cloud_native.Tests.Data.{list_set, shop_root, shop_cluster, deployments}

abbrev forbidden : ApiError
forbidden = record { text = "forbidden"; reason = some "Forbidden" }

-- The world counts the calls.
abbrev refusing : Client
refusing = record {
  World = List String;
  apply_namespace = λ name w. (none, "namespace" ∷ w);
  apply = λ gvr name definition w. (none, "apply" ∷ w);
  create = λ gvr namespace definition w. (some forbidden, "create" ∷ w);
}

refusing-Answers : Answers refusing
refusing-Answers gvr namespace definition w err h =
    let e : forbidden ≡ err = cc in subst (λ x. present x.reason ≡ true) e refl

abbrev at_start : Mission refusing
at_start = record {
  world = [];
  status = record { mission_kind = "restore"; status = "Success"; failed_objects = [] };
}

web_db-IsStoredRoot : IsStoredRoot (shop_root ("web" ∷ "db" ∷ []))
unfolding contains
web_db-IsStoredRoot = (
  refl,
  (refl, tt),
  (
    refl,
    (
      refl,
      (refl, tt),
      (
        refl,
        (
          refl,
          (refl, tt),
          (
            refl,
            (
              refl,
              (refl, tt),
              (
                refl,
                (
                  refl,
                  (refl, (refl, tt)),
                  (refl, (refl, refl, refl), (refl, (refl, refl, refl), tt)),
                ),
                tt,
              ),
            ),
            tt,
          ),
        ),
        tt,
      ),
    ),
    tt,
  ),
)

compare_group_tree-leaves_missing_example :
    (left : KubernetesRoot) × (s' : Mission refusing) × (compare_group_tree refusing
        (shop_root ("web" ∷ "db" ∷ []))
        (shop_root ("web" ∷ []))
        at_start
      ≡ done (left, s'))
    × IsStoredRoot left
    × IsTold refusing s'
    × ((g v r n o : String)
        → present (find left g v r n o) ≡ (
            present (find (shop_root ("web" ∷ "db" ∷ [])) g v r n o)
            && not (present (find (shop_root ("web" ∷ [])) g v r n o))))
compare_group_tree-leaves_missing_example =
    compare_group_tree-leaves_missing refusing refusing-Answers (shop_root ("web" ∷ "db" ∷ []))
      (shop_root ("web" ∷ [])) at_start web_db-IsStoredRoot refl

apply_resource_tree-leaves_missing_example :
    (current : KubernetesRoot) × ((get_resource_tree list_set shop_cluster true
        (compare_root list_set shop_cluster)
        (everything list_set shop_cluster)).0
      ≡ some current)
    × BuiltRoot current
    × ((left : KubernetesRoot) × (s' : Mission refusing) × (apply_resource_tree list_set
            shop_cluster refusing true
            (shop_root ("web" ∷ "db" ∷ []))
            at_start
          ≡ done ((left, true), s'))
        × ((g v r n o : String)
            → present (find left g v r n o) ≡ (
                present (find (shop_root ("web" ∷ "db" ∷ [])) g v r n o)
                && not (present (find current g v r n o)))))
apply_resource_tree-leaves_missing_example =
    apply_resource_tree-leaves_missing list_set shop_cluster refusing refusing-Answers
      (shop_root ("web" ∷ "db" ∷ [])) at_start deployments ("shop" ∷ []) web_db-IsStoredRoot refl
      refl refl ((record { group = "apps"; version = "v1" }, refl), tt)
