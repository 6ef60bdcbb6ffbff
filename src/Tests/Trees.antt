-- ===== src/Tests/Trees.antt =====
-- The filters of a restore at a tree of two objects.
use boxroom_cloud_native.Base.{String, true, none, some, [], ◌∷◌, ◌≡◌, refl, if◌then◌else◌}
use boxroom_cloud_native.Base.Outcome.{done}
use boxroom_cloud_native.Base.Dict.{Dict, lookup, contains, set, delete}
use boxroom_cloud_native.Tree.Immobile.{object_kind}
use boxroom_cloud_native.Tree.Root.{KubernetesRoot}
use boxroom_cloud_native.Tree.Paths.{IsRoot, find}
use boxroom_cloud_native.Filter.{KubernetesResourceFilter, add_flag}
use boxroom_cloud_native.Base.Walk.{visit_children}
use boxroom_cloud_native.StoreAgent.Filtrate.{
  deep_filtrate_object, deep_filtrate_namespace, deep_filtrate_resource, deep_filtrate_version,
  deep_filtrate_group, deep_filtrate_root, filtrate_resources,
}
use boxroom_cloud_native.StoreAgent.Filtrate.Laws.{
  all_keep, filtrate_resources-find, filtrate_resources-returns,
}
use boxroom_cloud_native.Tests.Data.{list_set, object_named, shop_root}

abbrev web_only : Dict (KubernetesResourceFilter list_set)
web_only =
    (
      "objects",
      record { kind = object_kind; resource_include = true; resource_filter_set = "web" ∷ [] },
    )
    ∷ []

web_db-IsRoot : IsRoot (shop_root ("web" ∷ "db" ∷ []))
unfolding contains
web_db-IsRoot = (
  refl,
  (refl, tt),
  (
    refl,
    (
      refl,
      (refl, tt),
      (
        refl,
        (
          refl,
          (refl, tt),
          (
            refl,
            (
              refl,
              (refl, tt),
              (refl, (refl, (refl, (refl, tt)), (refl, refl, (refl, refl, tt))), tt),
            ),
            tt,
          ),
        ),
        tt,
      ),
    ),
    tt,
  ),
)

web_only_run :
    filtrate_resources list_set (shop_root ("web" ∷ "db" ∷ [])) web_only
    ≡ done (shop_root ("web" ∷ []))
unfolding filtrate_resources deep_filtrate_root visit_children lookup deep_filtrate_group
    deep_filtrate_version deep_filtrate_resource deep_filtrate_namespace deep_filtrate_object
    add_flag set delete
web_only_run = refl

filtrate_resources-find_example :
    IsRoot (shop_root ("web" ∷ []))
    × ((g v r n o : String)
        → find (shop_root ("web" ∷ [])) g v r n o ≡ (
            if all_keep list_set web_only "k8s-cluster-a-1" g v r n o
            then find (shop_root ("web" ∷ "db" ∷ [])) g v r n o
            else none))
filtrate_resources-find_example =
    filtrate_resources-find list_set (shop_root ("web" ∷ "db" ∷ [])) web_only
      (shop_root ("web" ∷ [])) web_db-IsRoot web_only_run

filtrate_resources-returns_example :
    (root' : KubernetesRoot) × (filtrate_resources list_set (shop_root ("web" ∷ "db" ∷ [])) web_only
      ≡ done root')
    × (find root' "apps" "v1" "deployments" "shop" "web" ≡ some (object_named "web"))
unfolding lookup add_flag
filtrate_resources-returns_example =
    filtrate_resources-returns list_set (shop_root ("web" ∷ "db" ∷ [])) web_only "apps" "v1"
      "deployments" "shop" "web" (object_named "web") web_db-IsRoot refl refl
