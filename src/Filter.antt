-- ===== src/Filter.antt =====
-- kubernetes/kubernetes/k8s-filter: filters. The set type is github.com/deckarep/golang-set, which
-- is a parameter: its operations, and what the code relies on of them.
use boxroom_cloud_native.Base.{
  String, Bool, false, not, List, [], ◌∷◌, ◌==◌, ◌&&◌, ◌||◌, ◌≡◌, if◌then◌else◌,
}
use boxroom_cloud_native.Tree.Immobile.{cluster_kind}

pub record MapSet : Type 1 where
  pub Set : Type 0
  pub new_set : Set
  pub add : Set → String → Set
  pub remove : Set → String → Set
  pub contains : Set → String → Bool
  pub iter : Set → List String

abbrev pub any_eq : String → List String → Bool
any_eq k [] = false
any_eq k (x ∷ xs) = x == k || any_eq k xs

-- The documented behaviour: a set of values, and an iterator over its elements.
pub record IsLawful (M : MapSet) : Type 0 where
  pub contains-new : (k : String) → M.contains M.new_set k ≡ false
  pub contains-add :
      (s : M.Set) (k j : String) → M.contains (M.add s k) j ≡ (k == j || M.contains s j)
  pub contains-remove :
      (s : M.Set) (k j : String)
      → M.contains (M.remove s k) j ≡ (if k == j then false else M.contains s j)
  pub iter_elements : (s : M.Set) (k : String) → any_eq k (M.iter s) ≡ M.contains s k

module _ (M : MapSet) where
  pub record KubernetesResourceFilter : Type 0 where
    pub kind : String
    pub resource_include : Bool
    pub resource_filter_set : M.Set

  unfoldable pub get_cluster_resource_filter : Bool → KubernetesResourceFilter
  get_cluster_resource_filter include = record {
    kind = cluster_kind;
    resource_include = include;
    resource_filter_set = M.new_set;
  }

  -- The test `addFlag`, which the code writes out at each place that filters.
  unfoldable pub add_flag : KubernetesResourceFilter → String → Bool
  add_flag filter name =
      filter.resource_include && M.contains filter.resource_filter_set name
      || not filter.resource_include && not (M.contains filter.resource_filter_set name)
