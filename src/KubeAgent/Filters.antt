-- ===== src/KubeAgent/Filters.antt =====
-- The filters of a backup in kubernetes/kubernetes/k8s-agent/agent.go: the default filters, how
-- they join the caller's, and how lists of namespaces and resources are cut down in place.
pub mod Laws
use text.Mathlib.Text.{find?}
use boxroom_cloud_native.Base.{
  String, Bool, true, false, not, ◌&&◌, ◌||◌, ℕ, zero, suc, ◌+◌, Option, none, some, List, [], ◌∷◌,
  ◌==◌, if◌then◌else◌,
}
use boxroom_cloud_native.Base.Dict.{Dict, lookup, set}
use boxroom_cloud_native.Base.Slice.{length, get_elem?, remove_at}
use boxroom_cloud_native.Tree.Immobile.{namespace_kind, resource_kind}
use boxroom_cloud_native.Tree.Definition.{Fields}
use boxroom_cloud_native.Tree.Object.{Gvr}
use boxroom_cloud_native.Filter.{MapSet, KubernetesResourceFilter, add_flag}
use boxroom_cloud_native.KubeAgent.Cluster.{Cluster}

module _ (M : MapSet) where
  abbrev pub add_all : M.Set → List String → M.Set
  add_all s [] = s
  add_all s (x ∷ xs) = add_all (M.add s x) xs

  abbrev pub remove_all : M.Set → List String → M.Set
  remove_all s [] = s
  remove_all s (x ∷ xs) = remove_all (M.remove s x) xs

  unfoldable pub default_namespace_filter : KubernetesResourceFilter M
  default_namespace_filter = record {
    kind = namespace_kind;
    resource_include = false;
    resource_filter_set =
        add_all M.new_set ("kube-system" ∷ "kube-public" ∷ "kube-node-lease" ∷ []);
  }

  unfoldable pub default_resource_filter : KubernetesResourceFilter M
  default_resource_filter = record {
    kind = resource_kind;
    resource_include = false;
    resource_filter_set = add_all M.new_set ("events" ∷ "pods" ∷ "endpointslices" ∷ []);
  }

  unfoldable pub default_object_filter : Dict (KubernetesResourceFilter M)
  default_object_filter =
      (
        "secrets",
        record {
          kind = "secrets";
          resource_include = false;
          resource_filter_set = add_all M.new_set ("default-token" ∷ []);
        },
      )
      ∷ []

  unfoldable pub default_include_cluster_resource : M.Set
  default_include_cluster_resource = add_all M.new_set ("namespaces" ∷ "persistentvolumes" ∷ [])

  -- The names of a default filter join an excluding filter, and leave an including one.
  unfoldable pub join_default :
      KubernetesResourceFilter M → KubernetesResourceFilter M → KubernetesResourceFilter M
  join_default default filter =
      if not filter.resource_include
      then record filter {
        resource_filter_set =
            add_all filter.resource_filter_set (M.iter default.resource_filter_set);
      }
      else record filter {
        resource_filter_set =
            remove_all filter.resource_filter_set (M.iter default.resource_filter_set);
      }

  -- The caller's map after the call: the filter is changed through its pointer.
  unfoldable pub pre_handle_namespace_filter :
      Dict (KubernetesResourceFilter M) → Dict (KubernetesResourceFilter M)
  unfolding join_default default_namespace_filter
  pre_handle_namespace_filter filters = elim (lookup namespace_kind filters) [
    | some filter ↦ set namespace_kind (join_default default_namespace_filter filter) filters
    | none ↦ set namespace_kind default_namespace_filter filters
  ]

  unfoldable pub pre_handle_resource_filter :
      Dict (KubernetesResourceFilter M) → Dict (KubernetesResourceFilter M)
  unfolding join_default default_resource_filter
  pre_handle_resource_filter filters = elim (lookup resource_kind filters) [
    | some filter ↦ set resource_kind (join_default default_resource_filter filter) filters
    | none ↦ set resource_kind default_resource_filter filters
  ]

  -- `strings.Contains`
  abbrev pub contains_text : String → String → Bool
  contains_text s t = elim (find? s t) [ none ↦ false | some i ↦ true ]

  abbrev pub contains_none_of : String → List String → Bool
  contains_none_of s [] = true
  contains_none_of s (t ∷ ts) = not (contains_text s t) && contains_none_of s ts

  unfoldable pub pre_handle_object_filter : Cluster → Fields → Gvr → Bool
  unfolding default_object_filter
  pre_handle_object_filter cluster object gvr = elim (lookup gvr.resource default_object_filter) [
    | none ↦ true
    | some filter ↦ contains_none_of (cluster.name_of object) (M.iter filter.resource_filter_set)
  ]

  module _ {A : Type 0} (name : A → String) (filter : KubernetesResourceFilter M) where
    -- `for i := 0; i < len(items); { if !addflag { remove items[i] } else { i++ } }`
    unfoldable pub filtrate_items : ℕ → ℕ → List A → List A
    filtrate_items zero i items = items
    filtrate_items (suc fuel) i items = elim (get_elem? items i) [
      | none ↦ items
      | some item ↦ elim (add_flag M filter (name item)) [
        | false ↦ filtrate_items fuel i (remove_at i items)
        | true ↦ filtrate_items fuel (i + 1) items
      ]
    ]

  -- The namespaces are their names. A round removes an item or passes it, so the number of items
  -- is enough fuel.
  unfoldable pub filtrate_namespace : List String → KubernetesResourceFilter M → List String
  unfolding filtrate_items
  filtrate_namespace namespaces filter =
      filtrate_items (λ n. n) filter (length namespaces) 0 namespaces
