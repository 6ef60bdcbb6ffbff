-- ===== src/KubeAgent/Restore/Level.antt =====
-- One level of `compareGroupTree`, for any kind of node: a path has an object in what is left of the
-- backup if it has one in the backup and none in the cluster.
use boxroom_cloud_native.Base.{
  String, Bool, true, false, not, ◌&&◌, Option, none, some, ◌≡◌, refl, sym, ap, ◌∙◌, subst,
  Option-cases, inl, inr,
}
use boxroom_cloud_native.Base.Outcome.{Outcome, done, Run, pure, ◌>>=◌}
use boxroom_cloud_native.Base.Dict.{lookup, keys, is_empty}
use boxroom_cloud_native.Base.Walk.{IsDict, Named, remaining, visit_children}
use boxroom_cloud_native.Base.Sweep.{Visited, Swept, sweep, sweep_children, lookup_of_is_empty}
use boxroom_cloud_native.Tree.Object.{Object}
use boxroom_cloud_native.Tree.Shape.{Shape, IsNode, at_option, at_child}
use boxroom_cloud_native.Tree.Grow.{add_child}

abbrev pub present : {A : Type 0} → Option A → Bool
present none = false
present (some a) = true

-- What is left at a path, from the backup and the cluster.
abbrev pub Left :
    {N P : Type 0} → (N → P → Option Object) → (P → Bool) → Option N → Option N → Type 0
Left {P} at has x y =
    (p : P) → present (at_option at y p) ≡ (present (at_option at x p) && not (has p))

-- What the cluster has below the child `k`.
abbrev pub has_below :
    {N C P : Type 0} → Shape N C → (C → P → Option Object) → N → String → P → Bool
has_below s at current k p = present (at_child s at current (k, p))

pub Left-none : {N P : Type 0} (at : N → P → Option Object) (has : P → Bool) → Left at has none none
Left-none at has p = refl

-- The child that `AddChildren` returns has the objects that the cluster has below the key: a child
-- that it makes has none.
pub at-add_child :
    {U N P : Type 0} (s : Shape U N) (at : N → P → Option Object) (up : U) (k : String) (new : N)
    → ((p : P) → at new p ≡ none)
    → (p : P) → present (at (add_child s up k new).1 p) ≡ has_below s at up k p
at-add_child s at up k new bare p = elim (Option-cases (lookup k (s.children up))) [
  | inl missing ↦ rw (missing, add_child) (ap present (bare p))
  | inr (c, found) ↦ rw (found, add_child) refl
]

module _ {S N C P : Type 0} (s : Shape N C) (level : String) (child_name : C → String)
    (child_at : C → P → Option Object) (ChildIsNode : C → Type 0) (J : S → Type 0)
    (visit : N → String → C → Run S (C × Bool)) where
  abbrev Below : N → String → Option C → Option C → Type 0
  Below current k = Left child_at (has_below s child_at current k)

  abbrev pub VisitedBelow : N → String → C → S → Type 0
  VisitedBelow current = Visited (visit current) child_name ChildIsNode J (Below current)

  abbrev pub restore_level : N → N → Run S N
  restore_level backup current = do
    d ←
        visit_children (visit current) child_name (done tt) (keys (s.children backup))
          (s.children backup)
    pure (s.write backup d)

  -- A loop over the children of a node of the backup ends, and leaves what the cluster lacks.
  pub record Restored (backup current : N) (st : S) : Type 0 where
    pub node : N
    pub state : S
    pub runs : restore_level backup current st ≡ done (node, state)
    pub named : s.name node ≡ s.name backup
    pub kept : IsNode s level child_name ChildIsNode node
    pub inv : J state
    pub related :
        (p : String × P)
        → present (at_child s child_at node p) ≡ (
            present (at_child s child_at backup p) && not (present (at_child s child_at current p)))

  Restored-by :
      (backup current : N) (st : S)
      → IsNode s level child_name ChildIsNode backup
      → (w : Swept (visit current) child_name ChildIsNode J (Below current) (s.children backup) st)
      → visit_children
          (visit current)
          child_name
          (done tt)
          (keys (s.children backup))
          (s.children backup)
          st
        ≡ done (w.dict, w.state)
      → Restored backup current st
  Restored-by backup current st wf w ran = record {
    node = s.write backup w.dict;
    state = w.state;
    runs = rw ran;
    named = s.name-write backup w.dict;
    kept = (
      s.kind-write backup w.dict ∙ wf.0,
      subst (λ d. IsDict d) (sym (s.children-write backup w.dict)) w.is_dict,
      subst (λ d. Named child_name ChildIsNode d) (sym (s.children-write backup w.dict)) w.named,
    );
    inv = w.inv;
    related = λ p. rw (s.children-write backup w.dict) (w.related p.0 p.1);
  }

  pub restore_level-Restored :
      ((current : N) (k : String) (c : C) (st : S)
        → child_name c ≡ k
        → ChildIsNode c
        → J st
        → VisitedBelow current k c st)
      → (backup current : N) (st : S) → IsNode s level child_name ChildIsNode backup
      → J st
      → Restored backup current st
  restore_level-Restored step backup current st wf i =
      let w =
        sweep (visit current) child_name ChildIsNode J (Below current) ChildIsNode (step current)
          (λ j. Left-none child_at (has_below s child_at current j)) (s.children backup) st wf.1
          wf.2 i in
      Restored-by backup current st wf w (
        sweep_children (visit current) child_name ChildIsNode J (Below current) (done tt)
          ChildIsNode (step current) (s.children backup) st wf.1 wf.2 i
        ∙ w.runs)

  -- The body of the loop one level up, for the child that `AddChildren` returns.
  abbrev pub visit_with : N → N → Run S (N × Bool)
  visit_with current backup = do
    left ← restore_level backup current
    pure (left, is_empty (s.children left))

  pub record Done (has : String × P → Bool) (backup : N) (run : Outcome ((N × Bool) × S))
      : Type 0 where
    pub child : N
    pub gone : Bool
    pub state : S
    pub runs : run ≡ done ((child, gone), state)
    pub named : s.name child ≡ s.name backup
    pub kept : gone ≡ false → IsNode s level child_name ChildIsNode child
    pub inv : J state
    pub related : Left (at_child s child_at) has (some backup) (remaining gone child)

  left_over :
      (n : N) (b : Bool)
      → is_empty (s.children n) ≡ b
      → (p : String × P)
      → at_option (at_child s child_at) (remaining b n) p ≡ at_child s child_at n p
  left_over n true h p = rw (lookup_of_is_empty (s.children n) p.0 h)
  left_over n false h p = refl

  pub visit_with-Done :
      (has : String × P → Bool) (backup current : N) (st : S)
      → ((p : String × P) → present (at_child s child_at current p) ≡ has p)
      → Restored backup current st
      → Done has backup (visit_with current backup st)
  visit_with-Done has backup current st same w = record {
    child = w.node;
    gone = is_empty (s.children w.node);
    state = w.state;
    runs = rw w.runs;
    named = w.named;
    kept = λ _. w.kept;
    inv = w.inv;
    related = λ p.
        ap present (left_over w.node (is_empty (s.children w.node)) refl p)
        ∙ w.related p
        ∙ ap (λ b. present (at_child s child_at backup p) && not b) (same p);
  }

  -- The visit of the loop one level up, if it goes into the child that `AddChildren` returns.
  pub Done-Visited :
      {U : Type 0} (up : Shape U N) (visit_up : String → N → Run S (N × Bool)) (above : U)
      (k : String) (backup new : N) (st : S)
      → ((p : String × P) → at_child s child_at new p ≡ none)
      → visit_up k backup st ≡ visit_with (add_child up above k new).1 backup st
      → Restored backup (add_child up above k new).1 st
      → Visited visit_up s.name
          (IsNode s level child_name ChildIsNode)
          J
          (λ j. Left (at_child s child_at) (has_below up (at_child s child_at) above j))
          k
          backup
          st
  Done-Visited up visit_up above k backup new st bare same w =
      let v =
        visit_with-Done (has_below up (at_child s child_at) above k) backup
          (add_child up above k new).1 st (at-add_child up (at_child s child_at) above k new bare)
          w in
      record {
        child = v.child;
        gone = v.gone;
        state = v.state;
        runs = same ∙ v.runs;
        named = v.named;
        kept = v.kept;
        inv = v.inv;
        related = v.related;
      }
