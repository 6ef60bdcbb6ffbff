-- ===== src/StoreAgent/Filtrate/Laws.antt =====
-- What `filtrateResources` leaves of a stored tree, and when it returns.
use boxroom_cloud_native.Base.{
  String, Bool, true, false, not, ◌&&◌, Option, none, some, [], ◌∷◌, ◌==◌, ◌≡◌, refl, sym, ap, ◌∙◌,
  subst, arith, if◌then◌else◌, inl, inr, Bool-cases,
}
use boxroom_cloud_native.Base.Outcome.{done, panic, done-injective, done-ne-panic}
use boxroom_cloud_native.Base.Dict.{Dict}
use boxroom_cloud_native.Base.Walk.{remaining}
use boxroom_cloud_native.Tree.Shape.{at_option}
use boxroom_cloud_native.Tree.Immobile.{
  root_kind, group_kind, version_kind, resource_kind, namespace_kind, object_kind,
}
use boxroom_cloud_native.Tree.Object.{Object}
use boxroom_cloud_native.Tree.Root.{KubernetesRoot}
use boxroom_cloud_native.Tree.Paths.{IsRoot, root_at, find}
use boxroom_cloud_native.Filter.{MapSet, KubernetesResourceFilter, add_flag}
use boxroom_cloud_native.StoreAgent.Filtrate.{filtrate_resources}
use boxroom_cloud_native.StoreAgent.Filtrate.Paths.{
  VisitedRoot, keep_root, deep_filtrate_root-Visited,
}

and-true : (a b : Bool) → (a && b) ≡ true → (a ≡ true) × (b ≡ true)
and-true a b h = ground arith

module _ (M : MapSet) where
  -- An including filter accepts the names of its set, an excluding one the others.
  abbrev pub accepts : KubernetesResourceFilter M → String → Bool
  accepts f name =
      if f.resource_include
      then M.contains f.resource_filter_set name
      else not (M.contains f.resource_filter_set name)

  pub add_flag-eq-accepts :
      (f : KubernetesResourceFilter M) (name : String) → add_flag M f name ≡ accepts f name
  unfolding add_flag
  add_flag-eq-accepts f name = ground arith

  -- A filter judges the name at the level of its kind. Where it is about no level it keeps nothing.
  abbrev pub keeps :
      KubernetesResourceFilter M → String → String → String → String → String → String → Bool
  keeps f root g v r n o =
      if root_kind == f.kind
      then accepts f root
      else if group_kind == f.kind
      then accepts f g
      else if version_kind == f.kind
      then accepts f v
      else if resource_kind == f.kind
      then accepts f r
      else if namespace_kind == f.kind
      then accepts f n
      else if object_kind == f.kind
      then accepts f o
      else false

  abbrev pub all_keep :
      Dict (KubernetesResourceFilter M) → String → String → String → String → String → String → Bool
  all_keep [] root g v r n o = true
  all_keep ((k, f) ∷ fs) root g v r n o = keeps f root g v r n o && all_keep fs root g v r n o

  keep_root-eq-keeps :
      (f : KubernetesResourceFilter M) (root g v r n o : String)
      → keep_root M f root (g, (v, (r, (n, (o, tt))))) ≡ keeps f root g v r n o
  keep_root-eq-keeps f root g v r n o = simp add_flag-eq-accepts

  if_and :
      (a b : Bool) (x : Option Object)
      → (if b then (if a then x else none) else none) ≡ (if a && b then x else none)
  if_and a b x = ground arith

  visit_root :
      (filter : KubernetesResourceFilter M) (root : KubernetesRoot)
      → IsRoot root
      → VisitedRoot M filter root.name root tt
  visit_root filter root wf = deep_filtrate_root-Visited M filter root.name root tt refl wf tt

  filtrate_resources-nil : (root : KubernetesRoot) → filtrate_resources M root [] ≡ done root
  unfolding filtrate_resources
  filtrate_resources-nil root = refl

  -- One filter, whose visit to the root has the result `seen`.
  module _ (f : KubernetesResourceFilter M) (root : KubernetesRoot)
      (seen : VisitedRoot M f root.name root tt) where
    filtrate_resources-cons :
        (k : String) (fs : Dict (KubernetesResourceFilter M))
        → filtrate_resources M root ((k, f) ∷ fs)
          ≡ (if seen.gone then panic else filtrate_resources M seen.child fs)
    unfolding filtrate_resources
    filtrate_resources-cons k fs = rw seen.runs

    find-seen :
        (gone : Bool)
        → seen.gone ≡ gone
        → (g v r n o : String)
        → at_option root_at (remaining gone seen.child) (g, (v, (r, (n, (o, tt)))))
          ≡ (if keeps f root.name g v r n o then find root g v r n o else none)
    find-seen gone e g v r n o =
        subst
          (λ b.
            at_option root_at (remaining b seen.child) (g, (v, (r, (n, (o, tt)))))
            ≡ (if keeps f root.name g v r n o then find root g v r n o else none))
          e
          (seen.related (g, (v, (r, (n, (o, tt)))))
            ∙ ap (λ b. if b then find root g v r n o else none)
                (keep_root-eq-keeps f root.name g v r n o))

    -- The rest of the loop, after a root that went or stayed.
    panics :
        (k : String) (fs : Dict (KubernetesResourceFilter M))
        → seen.gone ≡ true
        → filtrate_resources M root ((k, f) ∷ fs) ≡ panic
    panics k fs e =
        filtrate_resources-cons k fs
        ∙ ap (λ b. if b then panic else filtrate_resources M seen.child fs) e

    goes_on :
        (k : String) (fs : Dict (KubernetesResourceFilter M))
        → seen.gone ≡ false
        → filtrate_resources M root ((k, f) ∷ fs) ≡ filtrate_resources M seen.child fs
    goes_on k fs e =
        filtrate_resources-cons k fs
        ∙ ap (λ b. if b then panic else filtrate_resources M seen.child fs) e

    find-cons :
        (k : String) (fs : Dict (KubernetesResourceFilter M)) (g v r n o : String)
        → seen.gone ≡ false
        → (if all_keep fs seen.child.name g v r n o then find seen.child g v r n o else none)
          ≡ (if all_keep ((k, f) ∷ fs) root.name g v r n o then find root g v r n o else none)
    find-cons k fs g v r n o e = rw seen.named (
        ap (λ x. if all_keep fs root.name g v r n o then x else none) (find-seen false e g v r n o)
        ∙ if_and (keeps f root.name g v r n o) (all_keep fs root.name g v r n o)
            (find root g v r n o))

    -- An object that the filter keeps holds the root.
    stays :
        (g v r n o : String) (object : Object)
        → find root g v r n o ≡ some object
        → keeps f root.name g v r n o ≡ true
        → (seen.gone ≡ false) × (find seen.child g v r n o ≡ some object)
    stays g v r n o object h k = elim (Bool-cases seen.gone) [
      | inl e ↦
          let lost : ◌≡◌ {A = Option Object} none (some object) =
            find-seen true e g v r n o ∙ rw k h in
          cc
      | inr e ↦ (e, find-seen false e g v r n o ∙ rw k h)
    ]

  -- If the tree is well formed and `filtrateResources` returns, its result is well formed and holds
  -- exactly the objects that every filter keeps, unchanged: a filter keeps an object if it accepts
  -- the name on the object's path at the level of the filter's kind.
  pub filtrate_resources-find :
      (root : KubernetesRoot) (filters : Dict (KubernetesResourceFilter M)) (root' : KubernetesRoot)
      → IsRoot root
      → filtrate_resources M root filters ≡ done root'
      → IsRoot root'
        × ((g v r n o : String)
            → find root' g v r n o
              ≡ (if all_keep filters root.name g v r n o then find root g v r n o else none))
  filtrate_resources-find root [] root' wf h =
      let e : root ≡ root' = done-injective (sym (filtrate_resources-nil root) ∙ h) in
      (subst IsRoot e wf, λ g v r n o. ap (λ t. find t g v r n o) (sym e))
  filtrate_resources-find root ((k, f) ∷ fs) root' wf h =
      let seen = visit_root f root wf in
      elim (Bool-cases seen.gone) [
        | inl e ↦ absurd (done-ne-panic (sym h ∙ panics f root seen k fs e))
        | inr e ↦
            let (wf', found) =
              filtrate_resources-find seen.child fs root' (seen.kept e)
                (sym (goes_on f root seen k fs e) ∙ h) in
            (wf', λ g v r n o. found g v r n o ∙ find-cons f root seen k fs g v r n o e)
      ]

  -- If the tree is well formed and some object of it is kept by every filter, `filtrateResources`
  -- returns, and the object is in its result.
  pub filtrate_resources-returns :
      (root : KubernetesRoot) (filters : Dict (KubernetesResourceFilter M)) (g v r n o : String)
      (object : Object)
      → IsRoot root
      → find root g v r n o ≡ some object
      → all_keep filters root.name g v r n o ≡ true
      → (root' : KubernetesRoot) × (filtrate_resources M root filters ≡ done root')
        × (find root' g v r n o ≡ some object)
  filtrate_resources-returns root [] g v r n o object wf h k =
      (root, filtrate_resources-nil root, h)
  filtrate_resources-returns root ((key, f) ∷ fs) g v r n o object wf h k =
      let seen = visit_root f root wf in
      let (ek, ea) = and-true (keeps f root.name g v r n o) (all_keep fs root.name g v r n o) k in
      let (e, found) = stays f root seen g v r n o object h ek in
      let (root', ran, last) =
        filtrate_resources-returns seen.child fs g v r n o object (seen.kept e) found
          (rw seen.named ea) in
      (root', goes_on f root seen key fs e ∙ ran, last)
