-- ===== src/StoreAgent/Filtrate/Level.antt =====
-- One level of `deepFiltrateResources`, for any kind of node: if the visits to the children end and
-- keep the paths that they should, so does the visit to the node.
use boxroom_cloud_native.Base.{
  String, Bool, true, false, not, Option, none, [], ◌∷◌, ◌==◌, ◌≡◌, refl, sym, ap, ◌∙◌, inl, inr,
  if◌then◌else◌, Bool-cases, subst,
}
use boxroom_cloud_native.Base.Outcome.{done, panic, Run, pure, ◌>>=◌}
use boxroom_cloud_native.Base.Dict.{Dict, lookup, keys, is_empty}
use boxroom_cloud_native.Base.Walk.{IsDict, Named, remaining, visit_children}
use boxroom_cloud_native.Base.Sweep.{Visited, Swept, sweep, sweep_children, lookup_of_is_empty}
use boxroom_cloud_native.Tree.Object.{Object}
use boxroom_cloud_native.Tree.Shape.{Shape, IsNode, at_option, at_child}
use boxroom_cloud_native.Filter.{MapSet, KubernetesResourceFilter, add_flag}
use boxroom_cloud_native.StoreAgent.Filtrate.{deep_filtrate_resources, no_children}

-- Below the key `k` exactly the objects at the paths that `keep` accepts are left.
abbrev pub Filtered :
    {N P : Type 0}
    → (N → P → Option Object)
    → (String → P → Bool)
    → String
    → Option N
    → Option N
    → Type 0
Filtered {P} at keep k x y =
    (p : P) → at_option at y p ≡ (if keep k p then at_option at x p else none)

abbrev pub Anything : Unit {0} → Type 0
Anything s = Unit

no_children-keys : {C : Type 0} (d : Dict C) → no_children (keys d) ≡ is_empty d
no_children-keys [] = refl
no_children-keys (e ∷ d) = refl

module _ (M : MapSet) (filter : KubernetesResourceFilter M) where
  abbrev pub keep_below : {P : Type 0} → String → (String → P → Bool) → String → String × P → Bool
  keep_below level keep k p = if level == filter.kind then add_flag M filter k else keep p.0 p.1

  module _ {N C P : Type 0} (s : Shape N C) (level : String) (child_name : C → String)
      (child_at : C → P → Option Object) (child_keep : String → P → Bool) (ChildIsNode : C → Type 0)
      (visit : String → C → Run (Unit {0}) (C × Bool)) where
    abbrev VisitedChild : String → C → Unit {0} → Type 0
    VisitedChild = Visited visit child_name ChildIsNode Anything (Filtered child_at child_keep)

    abbrev pub visit_level : String → N → Run (Unit {0}) (N × Bool)
    visit_level key =
        deep_filtrate_resources M filter s.kind s.name (λ n. keys (s.children n))
          λ n. do
            d ← visit_children visit child_name panic (keys (s.children n)) (s.children n)
            pure (s.write n d)

    abbrev VisitedNode : String → N → Unit {0} → Type 0
    VisitedNode =
        Visited visit_level s.name (IsNode s level child_name ChildIsNode) Anything
          (Filtered (at_child s child_at) (keep_below level child_keep))

    -- The filter is about this level: the node stays whole or goes whole.
    matched :
        (k : String) (n : N) (u : Unit {0})
        → s.name n ≡ k
        → IsNode s level child_name ChildIsNode n
        → (s.kind n == filter.kind) ≡ true
        → VisitedNode k n u
    unfolding deep_filtrate_resources
    matched k n u e wf m = record {
      child = n;
      gone = not (add_flag M filter (s.name n));
      state = u;
      runs = rw m;
      named = refl;
      kept = λ _. wf;
      inv = tt;
      related = λ p.
          rw (← e, (ap (λ x. x == filter.kind) (sym wf.0) ∙ m))
            (at_remaining (add_flag M filter (s.name n)) p);
    }
      where
        at_remaining :
            (b : Bool) (p : String × P)
            → at_option (at_child s child_at) (remaining (not b) n) p
              ≡ (if b then at_child s child_at n p else none)
        at_remaining true p = refl
        at_remaining false p = refl

    -- The filter is about another level: the children were visited, with the result `w`.
    visited :
        (k : String) (n : N) (u : Unit {0})
        → s.name n ≡ k
        → IsNode s level child_name ChildIsNode n
        → (s.kind n == filter.kind) ≡ false
        → (w : Swept visit child_name ChildIsNode Anything
            (Filtered child_at child_keep)
            (s.children n)
            u)
        → visit_children visit child_name panic (keys (s.children n)) (s.children n) u
          ≡ done (w.dict, w.state)
        → VisitedNode k n u
    unfolding deep_filtrate_resources
    visited k n u e wf m w ran = record {
      child = s.write n w.dict;
      gone = is_empty w.dict;
      state = w.state;
      runs = rw m (rw ran (rw (s.children-write n w.dict) (rw (no_children-keys w.dict))));
      named = s.name-write n w.dict;
      kept = λ _. (
        s.kind-write n w.dict ∙ wf.0,
        subst (λ d. IsDict d) (sym (s.children-write n w.dict)) w.is_dict,
        subst (λ d. Named child_name ChildIsNode d) (sym (s.children-write n w.dict)) w.named,
      );
      inv = tt;
      related = λ p.
          rw (ap (λ x. x == filter.kind) (sym wf.0) ∙ m)
            (left_over (is_empty w.dict) refl p ∙ w.related p.0 p.1);
    }
      where
        left_over :
            (b : Bool)
            → is_empty w.dict ≡ b
            → (p : String × P)
            → at_option (at_child s child_at) (remaining b (s.write n w.dict)) p
              ≡ at_option child_at (lookup p.0 w.dict) p.1
        left_over true h p = rw (lookup_of_is_empty w.dict p.0 h)
        left_over false h p = rw (s.children-write n w.dict)

    if_none : (b : Bool) → ◌≡◌ {A = Option Object} none (if b then none else none)
    if_none true = refl
    if_none false = refl

    -- A visit to the node ends, and leaves exactly the objects that the filter keeps.
    pub visit_level-Visited :
        ((k : String) (c : C) (u : Unit {0})
          → child_name c ≡ k
          → ChildIsNode c
          → Unit {0}
          → VisitedChild k c u)
        → (k : String) (n : N) (u : Unit {0}) → s.name n ≡ k
        → IsNode s level child_name ChildIsNode n
        → Unit {0}
        → VisitedNode k n u
    visit_level-Visited step k n u e wf _ = elim (Bool-cases (s.kind n == filter.kind)) [
      | inl m ↦ matched k n u e wf m
      | inr m ↦
          let w =
            sweep visit child_name ChildIsNode Anything (Filtered child_at child_keep) ChildIsNode
              step (λ j p. if_none (child_keep j p)) (s.children n) u wf.1 wf.2 tt in
          visited k n u e wf m w (
            sweep_children visit child_name ChildIsNode Anything (Filtered child_at child_keep)
              panic ChildIsNode step (s.children n) u wf.1 wf.2 tt
            ∙ w.runs)
    ]
