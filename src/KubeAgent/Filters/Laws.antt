-- ===== src/KubeAgent/Filters/Laws.antt =====
-- The in-place loops are filters, and the default filters hold whatever the caller asks for.
use boxroom_cloud_native.Base.{
  String, Bool, true, false, not, ◌&&◌, ◌||◌, ℕ, zero, suc, ◌+◌, ◌≤◌, none, some, List, [], ◌∷◌,
  ◌++◌, ◌==◌, ◌≡◌, refl, sym, ap, ◌∙◌, subst, inl, inr, arith, if◌then◌else◌, Bool-cases,
  Option-cases, eq_refl,
}
use mathlib.Core.List.{append_assoc}
use boxroom_cloud_native.Base.Dict.{Dict, lookup, set, lookup-set}
use boxroom_cloud_native.Base.Slice.{
  length, select, get_elem?-append, remove_at-append, length-append,
}
use boxroom_cloud_native.Tree.Immobile.{namespace_kind, resource_kind}
use boxroom_cloud_native.Filter.{MapSet, IsLawful, KubernetesResourceFilter, add_flag, any_eq}
use boxroom_cloud_native.KubeAgent.Filters.{
  add_all, remove_all, join_default, filtrate_items, filtrate_namespace,
  pre_handle_namespace_filter, pre_handle_resource_filter,
}

or_left_comm : (a b c : Bool) → (a || (b || c)) ≡ (b || a || c)
or_left_comm a b c = ground arith

and_not : (a b c : Bool) → (not a && (if b then false else c)) ≡ (not (b || a) && c)
and_not a b c = ground arith

module _ (M : MapSet) where
  module _ {A : Type 0} (name : A → String) (filter : KubernetesResourceFilter M) where
    passed :
        (xs : List A) (y : A) (ys : List A) (fuel : ℕ)
        → filtrate_items M name filter fuel (length (xs ++ y ∷ [])) ((xs ++ y ∷ []) ++ ys)
          ≡ (xs ++ y ∷ []) ++ select (λ x. add_flag M filter (name x)) ys
        → filtrate_items M name filter fuel (length xs + 1) (xs ++ y ∷ ys)
          ≡ xs ++ y ∷ select (λ x. add_flag M filter (name x)) ys
    passed xs y ys fuel h =
        subst
          (λ n.
            filtrate_items M name filter fuel n (xs ++ y ∷ ys)
            ≡ xs ++ y ∷ select (λ x. add_flag M filter (name x)) ys)
          (length-append xs (y ∷ []))
          (ap (filtrate_items M name filter fuel (length (xs ++ y ∷ [])))
              (sym (append_assoc xs (y ∷ []) ys))
            ∙ h
            ∙ append_assoc xs (y ∷ []) _)

    filtrate_items-append :
        (fuel : ℕ) (xs ys : List A)
        → length ys ≤ fuel
        → filtrate_items M name filter fuel (length xs) (xs ++ ys)
          ≡ xs ++ select (λ x. add_flag M filter (name x)) ys
    unfolding filtrate_items
    filtrate_items-append zero xs [] h = refl
    filtrate_items-append zero xs (y ∷ ys) h = elim h [ ]
    filtrate_items-append (suc fuel) xs [] h = rw (get_elem?-append xs [], filtrate_items)
    filtrate_items-append (suc fuel) xs (y ∷ ys) h =
        elim (Bool-cases (add_flag M filter (name y))) [
          | inl e ↦
              rw (get_elem?-append xs (y ∷ ys), filtrate_items)
                (rw e (
                  passed xs y ys fuel (filtrate_items-append fuel (xs ++ y ∷ []) ys (omega arith))))
          | inr e ↦
              rw (get_elem?-append xs (y ∷ ys), filtrate_items)
                (rw e
                  (rw (remove_at-append xs y ys) (filtrate_items-append fuel xs ys (omega arith))))
        ]

    -- The loop with an index is a filter.
    pub filtrate_items-eq-select :
        (items : List A)
        → filtrate_items M name filter (length items) 0 items
          ≡ select (λ x. add_flag M filter (name x)) items
    filtrate_items-eq-select items = filtrate_items-append (length items) [] items (omega arith)

  -- `filtrateNamespace` leaves the namespaces whose names pass the filter, each of them as often as it
  -- stands in the list, in their order.
  pub filtrate_namespace-eq-select :
      (namespaces : List String) (filter : KubernetesResourceFilter M)
      → filtrate_namespace M namespaces filter ≡ select (add_flag M filter) namespaces
  unfolding filtrate_namespace
  filtrate_namespace-eq-select namespaces filter =
      filtrate_items-eq-select (λ n. n) filter namespaces

  module _ (L : IsLawful M) where
    contains-add_all :
        (s : M.Set) (xs : List String) (k : String)
        → M.contains (add_all M s xs) k ≡ (any_eq k xs || M.contains s k)
    contains-add_all s [] k = refl
    contains-add_all s (x ∷ xs) k =
        contains-add_all (M.add s x) xs k
        ∙ ap (λ b. any_eq k xs || b) (L.contains-add s x k)
        ∙ or_left_comm (any_eq k xs) (x == k) (M.contains s k)

    contains-remove_all :
        (s : M.Set) (xs : List String) (k : String)
        → M.contains (remove_all M s xs) k ≡ (not (any_eq k xs) && M.contains s k)
    contains-remove_all s [] k = refl
    contains-remove_all s (x ∷ xs) k =
        contains-remove_all (M.remove s x) xs k
        ∙ ap (λ b. not (any_eq k xs) && b) (L.contains-remove s x k)
        ∙ and_not (any_eq k xs) (x == k) (M.contains s k)

    -- A name of the default filter passes neither way, and any other name as before.
    add_flag-join_default :
        (default filter : KubernetesResourceFilter M) (name : String)
        → add_flag M (join_default M default filter) name
          ≡ (not (M.contains default.resource_filter_set name) && add_flag M filter name)
    unfolding add_flag join_default
    add_flag-join_default default filter name =
        let s = filter.resource_filter_set in
        let names = M.iter default.resource_filter_set in
        ground (
          arith,
          contains-remove_all s names name,
          contains-add_all s names name,
          L.iter_elements default.resource_filter_set name,
        )

    -- The flag that a name has under the caller's filter of a kind, if there is one.
    abbrev pub caller_flag : String → Dict (KubernetesResourceFilter M) → String → Bool
    caller_flag kind filters name = elim (lookup kind filters) [
      | none ↦ true
      | some filter ↦ add_flag M filter name
    ]

    -- What both `preHandle` functions do with the filter of a kind.
    abbrev joined :
        String
        → KubernetesResourceFilter M
        → Dict (KubernetesResourceFilter M)
        → Dict (KubernetesResourceFilter M)
    joined kind default filters = elim (lookup kind filters) [
      | some filter ↦ set kind (join_default M default filter) filters
      | none ↦ set kind default filters
    ]

    add_flag-excluding :
        (kind : String) (names : List String) (name : String)
        → add_flag M
            (record {
              kind = kind;
              resource_include = false;
              resource_filter_set = add_all M M.new_set names;
            })
            name
          ≡ not (any_eq name names)
    unfolding add_flag
    add_flag-excluding kind names name =
        ground (arith, contains-add_all M.new_set names name, L.contains-new name)

    module _ (kind : String) (names : List String) where
      abbrev excluding : KubernetesResourceFilter M
      excluding = record {
        kind = kind;
        resource_include = false;
        resource_filter_set = add_all M M.new_set names;
      }

      joined_lem :
          (filters : Dict (KubernetesResourceFilter M)) (name : String)
          → (filter : KubernetesResourceFilter M) × (lookup kind (joined kind excluding filters)
              ≡ some filter)
            × (add_flag M filter name ≡ (not (any_eq name names) && caller_flag kind filters name))
      joined_lem filters name = elim (Option-cases (lookup kind filters)) [
        | inl e ↦ (
          excluding,
          rw (e, joined) (lookup-set kind kind excluding filters ∙ rw eq_refl),
          rw (e, caller_flag) (add_flag-excluding kind names name ∙ ground arith),
        )
        | inr (filter, e) ↦
            let result = join_default M excluding filter in
            (
              result,
              rw (e, joined) (lookup-set kind kind result filters ∙ rw eq_refl),
              rw (e, caller_flag)
                  (add_flag-join_default excluding filter name
                    ∙ ap (λ b. not b && add_flag M filter name)
                        (contains-add_all M.new_set names name
                          ∙ ground (arith, L.contains-new name))),
            )
      ]

    -- If the set type behaves as documented, there is a namespace filter after
    -- `preHandleNamespaceFilter`, and it passes a name exactly if the name is none of the three system
    -- namespaces and the caller's namespace filter passes it, if there was one.
    pub pre_handle_namespace_filter_lem :
        (filters : Dict (KubernetesResourceFilter M)) (name : String)
        → (filter : KubernetesResourceFilter M) × (lookup namespace_kind
              (pre_handle_namespace_filter M filters)
            ≡ some filter)
          × (add_flag M filter name ≡ (
              not (any_eq name ("kube-system" ∷ "kube-public" ∷ "kube-node-lease" ∷ []))
              && caller_flag namespace_kind filters name))
    unfolding pre_handle_namespace_filter
    pre_handle_namespace_filter_lem =
        joined_lem namespace_kind ("kube-system" ∷ "kube-public" ∷ "kube-node-lease" ∷ [])

    -- If the set type behaves as documented, there is a resource filter after
    -- `preHandleResourceFilter`, and it passes a name exactly if the name is none of events, pods and
    -- endpointslices and the caller's resource filter passes it, if there was one.
    pub pre_handle_resource_filter_lem :
        (filters : Dict (KubernetesResourceFilter M)) (name : String)
        → (filter : KubernetesResourceFilter M) × (lookup resource_kind
              (pre_handle_resource_filter M filters)
            ≡ some filter)
          × (add_flag M filter name ≡ (
              not (any_eq name ("events" ∷ "pods" ∷ "endpointslices" ∷ []))
              && caller_flag resource_kind filters name))
    unfolding pre_handle_resource_filter
    pre_handle_resource_filter_lem =
        joined_lem resource_kind ("events" ∷ "pods" ∷ "endpointslices" ∷ [])
