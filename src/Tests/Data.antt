-- ===== src/Tests/Data.antt =====
-- A set as a list of its elements, and a small tree.
use boxroom_cloud_native.Base.{
  true, String, false, some, List, [], ◌∷◌, ◌==◌, ◌≡◌, refl, arith, eq_iff, if◌then◌else◌,
}
use boxroom_cloud_native.KubeAgent.Cluster.{Cluster, ApiResourceList}
use boxroom_cloud_native.Filter.{MapSet, IsLawful, any_eq}
use boxroom_cloud_native.Tree.Immobile.{
  root_kind, group_kind, version_kind, resource_kind, namespace_kind, object_kind,
}
use boxroom_cloud_native.Tree.Definition.{Fields, scalar, obj, end, field}
use boxroom_cloud_native.Tree.Object.{Object}
use boxroom_cloud_native.Tree.Root.{KubernetesRoot}

abbrev without : String → List String → List String
without k [] = []
without k (x ∷ xs) = let rest = without k xs in if k == x then rest else x ∷ rest

abbrev pub list_set : MapSet
list_set = record {
  Set = List String;
  new_set = [];
  add = λ s k. k ∷ s;
  remove = λ s k. without k s;
  contains = λ s k. any_eq k s;
  iter = λ s. s;
}

any_eq-without :
    (s : List String) (k j : String)
    → any_eq j (without k s) ≡ (if k == j then false else any_eq j s)
any_eq-without [] k j = ground arith
any_eq-without (x ∷ s) k j =
    ground (arith, any_eq-without s k j, eq_iff k x, eq_iff x j, eq_iff k j)

pub list_set-IsLawful : IsLawful list_set
list_set-IsLawful = record {
  contains-new = λ k. refl;
  contains-add = λ s k j. refl;
  contains-remove = any_eq-without;
  iter_elements = λ s k. refl;
}

abbrev pub object_named : String → Object
object_named name = record {
  kind = object_kind;
  name = name;
  gvr = some (record { group = "apps"; version = "v1"; resource = "deployments" });
  definition = some end;
  metadata = some (record {
    kind = object_kind;
    name = name;
    group = "apps";
    version = "v1";
    resource = "deployments";
    namespace = "shop";
    is_cluster = false;
  });
}

-- The namespace `shop` of the deployments, with the objects of these names.
abbrev pub objects_named : List String → List (String × Object)
objects_named [] = []
objects_named (name ∷ names) = (name, object_named name) ∷ objects_named names

abbrev pub shop_root : List String → KubernetesRoot
shop_root names = record {
  kind = root_kind;
  name = "k8s-cluster-a-1";
  tree_kind = "backup";
  tree_name = "tuesday";
  groups =
      (
        "apps",
        record {
          kind = group_kind;
          name = "apps";
          versions =
              (
                "v1",
                record {
                  kind = version_kind;
                  name = "v1";
                  resources =
                      (
                        "deployments",
                        record {
                          kind = resource_kind;
                          name = "deployments";
                          is_cluster = false;
                          namespaces =
                              (
                                "shop",
                                record {
                                  kind = namespace_kind;
                                  name = "shop";
                                  objects = objects_named names;
                                },
                              )
                              ∷ [];
                        },
                      )
                      ∷ [];
                },
              )
              ∷ [];
        },
      )
      ∷ [];
}

abbrev pub stored : Fields
stored = field "kind" (scalar "Volume") (
    field "metadata" (obj (field "name" (scalar "v") (field "uid" (scalar "7") end)))
      (field "status" (scalar "Bound") end))

abbrev pub deployments : List ApiResourceList
deployments =
    record {
      group_version = "apps/v1";
      api_resources = record { name = "deployments"; namespaced = true } ∷ [];
    }
    ∷ []

abbrev pub shop_cluster : Cluster
shop_cluster = record {
  parse_group_version = λ text. some (record { group = "apps"; version = "v1" });
  name_of = λ item. "web";
  namespace_of = λ item. "shop";
  list_objects = λ gvr. some (stored ∷ []);
  groups_and_resources = some deployments;
  list_namespaces = some ("shop" ∷ []);
}
