-- ===== src/KubeAgent/ResourceTree/Emptied.antt =====
-- What `filtrateResource` leaves in the caller's slice.
use mathlib.Core.List.{append_assoc}
use boxroom_cloud_native.Base.{
  ℕ, zero, suc, ◌+◌, ◌≤◌, Bool, true, false, not, List, [], ◌∷◌, ◌++◌, map, ◌≡◌, refl, ap, subst,
  ◌∙◌, arith, inl, inr, Bool-cases,
}
use boxroom_cloud_native.Base.Slice.{
  length, remove_at, select, get_elem?-append, remove_at-append, length-append,
}
use boxroom_cloud_native.Filter.{MapSet, KubernetesResourceFilter, add_flag}
use boxroom_cloud_native.KubeAgent.Cluster.{ApiResource, ApiResourceList}
use boxroom_cloud_native.KubeAgent.Filters.Laws.{filtrate_items-eq-select}
use boxroom_cloud_native.KubeAgent.ResourceTree.{
  last_of, no_resources, remove_emptied, filtrate_list, filtrate_resource,
}

abbrev pub has_resources : ApiResourceList → Bool
has_resources list = not (no_resources list.api_resources)

length-last_of :
    (xs : List ApiResourceList) (y : ApiResourceList) (ys : List ApiResourceList)
    → length (last_of (xs ++ y ∷ ys)) ≡ 1
length-last_of [] y [] = refl
length-last_of [] y (z ∷ ys) = length-last_of [] z ys
length-last_of (x ∷ []) y ys = length-last_of [] y ys
length-last_of (x ∷ w ∷ xs) y ys = length-last_of (w ∷ xs) y ys

-- The loop at the place after `xs`: what it passes stays in order, and the slice keeps its length.
record Removed (result xs ys stale : List ApiResourceList) : Type 0 where
  rest : List ApiResourceList
  shape : result ≡ xs ++ (select has_resources ys ++ rest)
  size : length rest + length (select has_resources ys) ≡ length ys + length stale

at_end : (xs stale : List ApiResourceList) → Removed ((xs ++ []) ++ stale) xs [] stale
at_end xs stale = record { rest = stale; shape = append_assoc xs [] stale; size = omega arith }

passed :
    (result xs : List ApiResourceList) (y : ApiResourceList) (ys stale : List ApiResourceList)
    → has_resources y ≡ true
    → Removed result (xs ++ y ∷ []) ys stale
    → Removed result xs (y ∷ ys) stale
passed result xs y ys stale e r = record {
  rest = r.rest;
  shape = rw e (r.shape ∙ append_assoc xs (y ∷ []) (select has_resources ys ++ r.rest));
  size = rw e (omega (arith, r.size));
}

dropped :
    (result xs : List ApiResourceList) (y : ApiResourceList) (ys stale : List ApiResourceList)
    → has_resources y ≡ false
    → Removed result xs ys (last_of (xs ++ y ∷ ys) ++ stale)
    → Removed result xs (y ∷ ys) stale
dropped result xs y ys stale e r = record {
  rest = r.rest;
  shape = rw e r.shape;
  size =
      rw e (
        omega
          (arith, r.size, length-append (last_of (xs ++ y ∷ ys)) stale, length-last_of xs y ys));
}

remove_emptied-Removed :
    (fuel : ℕ) (xs ys stale : List ApiResourceList)
    → length ys ≤ fuel
    → Removed (remove_emptied fuel (length xs) (xs ++ ys) stale) xs ys stale
unfolding remove_emptied
remove_emptied-Removed zero xs [] stale h = at_end xs stale
remove_emptied-Removed zero xs (y ∷ ys) stale h = absurd (omega (arith, h))
remove_emptied-Removed (suc fuel) xs [] stale h =
    rw (get_elem?-append xs [], remove_emptied) (at_end xs stale)
remove_emptied-Removed (suc fuel) xs (y ∷ ys) stale h =
    elim (Bool-cases (no_resources y.api_resources)) [
      | inl e ↦
          rw (get_elem?-append xs (y ∷ ys), remove_emptied)
            (rw e (
              dropped
                (remove_emptied fuel (length xs) (remove_at (length xs) (xs ++ y ∷ ys))
                  (last_of (xs ++ y ∷ ys) ++ stale))
                xs y ys stale (ap not e)
                (rw (remove_at-append xs y ys) (
                  remove_emptied-Removed fuel xs ys (last_of (xs ++ y ∷ ys) ++ stale)
                    (omega (arith, h))))))
      | inr e ↦
          rw (get_elem?-append xs (y ∷ ys), remove_emptied)
            (rw e (
              passed (remove_emptied fuel (length xs + 1) (xs ++ y ∷ ys) stale) xs y ys stale
                (ap not e)
                (subst
                  (λ n.
                    Removed (remove_emptied fuel n (xs ++ y ∷ ys) stale) (xs ++ y ∷ []) ys stale)
                  (length-append xs (y ∷ []))
                  (subst
                    (λ l.
                      Removed (remove_emptied fuel (length (xs ++ y ∷ [])) l stale) (xs ++ y ∷ [])
                        ys stale)
                    (append_assoc xs (y ∷ []) ys)
                    (remove_emptied-Removed fuel (xs ++ y ∷ []) ys stale (omega (arith, h)))))))
    ]

module _ (M : MapSet) where
  -- A list with the resources whose names pass the filter.
  abbrev pub passing : KubernetesResourceFilter M → ApiResourceList → ApiResourceList
  passing f list = record list {
    api_resources = select (λ (api : ApiResource). add_flag M f api.name) list.api_resources;
  }

  filtrate_list-eq-passing :
      (f : KubernetesResourceFilter M) (lists : List ApiResourceList)
      → map (filtrate_list M f) lists ≡ map (passing f) lists
  unfolding filtrate_list
  filtrate_list-eq-passing f [] = refl
  filtrate_list-eq-passing f (l ∷ lists) =
      rw
        (
          filtrate_items-eq-select M (λ (api : ApiResource). api.name) f l.api_resources,
          filtrate_list-eq-passing f lists,
        )
        refl

  length-map :
      (f : KubernetesResourceFilter M) (lists : List ApiResourceList)
      → length (map (passing f) lists) ≡ length lists
  length-map f [] = refl
  length-map f (l ∷ lists) = ap suc (length-map f lists)

  -- After `filtrateResource` the caller's slice is as long as before. It starts with the lists that
  -- have a resource whose name passes the filter, in their order, each with these resources and no
  -- others; the places behind them hold what is left over.
  pub filtrate_resource-starts_with_passing :
      (lists : List ApiResourceList) (f : KubernetesResourceFilter M)
      → (length (filtrate_resource M lists f) ≡ length lists)
        × ((rest : List ApiResourceList) × (filtrate_resource M lists f
              ≡ select has_resources (map (passing f) lists) ++ rest))
  unfolding filtrate_resource
  filtrate_resource-starts_with_passing lists f =
      let cut = map (passing f) lists in
      let r = remove_emptied-Removed (length cut) [] cut [] (omega arith) in
      rw (filtrate_list-eq-passing f lists) (
        (ap length r.shape
            ∙ length-append (select has_resources cut) r.rest
            ∙ omega (arith, r.size)
            ∙ length-map f lists),
        (r.rest, r.shape),
      )
