-- ===== src/Tree/Deepen.antt =====
-- The chain of `AddChildren` and writes below a node: what it does to the objects at the paths.
use boxroom_cloud_native.Base.{
  String, Bool, false, ◌&&◌, Option, none, some, ◌==◌, ◌≡◌, refl, sym, ap, ◌∙◌, inl, inr, eq_iff,
  if◌then◌else◌, Bool-cases, Option-cases,
}
use boxroom_cloud_native.Base.Dict.{Dict, lookup, set, lookup-set}
use boxroom_cloud_native.Tree.Object.{Object}
use boxroom_cloud_native.Tree.Shape.{Shape, at_option, at_child}
use boxroom_cloud_native.Tree.Grow.{add_child}

module _ {N C P : Type 0} (s : Shape N C) (at : C → P → Option Object) (k : String) (new : C) where
  -- A child is added, and changed through its pointer.
  abbrev pub deepen : (C → C) → N → N
  deepen f n =
      let (grown, child) = add_child s n k new in s.write grown (set k (f child) (s.children grown))

  -- The object at a path of the child that `AddChildren` returns.
  pub at-add_child :
      (n : N) (p : P) → at new p ≡ none → at (add_child s n k new).1 p ≡ at_child s at n (k, p)
  at-add_child n p h = elim (Option-cases (lookup k (s.children n))) [
    | inl missing ↦ rw (missing, add_child) h
    | inr (c, found) ↦ rw (found, add_child) refl
  ]

  lookup-grown :
      (n : N) (k' : String)
      → (k == k') ≡ false
      → lookup k' (s.children (add_child s n k new).0) ≡ lookup k' (s.children n)
  lookup-grown n k' e = elim (Option-cases (lookup k (s.children n))) [
    | inl missing ↦
        rw (missing, add_child) (rw (s.children-write n) (lookup-set k k' new _ ∙ rw e refl))
    | inr (c, found) ↦ rw (found, add_child) refl
  ]

  -- The changed child is the one under its key.
  pub at_child-deepen :
      (f : C → C) (n : N) (k' : String) (p : P)
      → at_child s at (deepen f n) (k', p)
        ≡ (if k == k' then at (f (add_child s n k new).1) p else at_child s at n (k', p))
  at_child-deepen f n k' p =
      let grown = (add_child s n k new).0 in
      let child = (add_child s n k new).1 in
      ap (λ (d : Dict C). at_option at (lookup k' d) p) (s.children-write grown _)
      ∙ ap (λ (c : Option C). at_option at c p) (lookup-set k k' (f child) (s.children grown))
      ∙ elim (Bool-cases (k == k')) [
        | inl e ↦ rw e refl
        | inr e ↦ rw e (ap (λ (c : Option C). at_option at c p) (lookup-grown n k' e))
      ]

  -- One step of a chain: what `f` does below the child, `deepen f` does below the node.
  pub deepen-changes :
      (same : P → Bool) (q : P) (h : Option Object → Object) (f : C → C)
      → ((c : C) (p : P) → at (f c) p ≡ (if same p then some (h (at c q)) else at c p))
      → ((p : P) → at new p ≡ none)
      → (n : N) (k' : String) (p : P)
      → at_child s at (deepen f n) (k', p)
        ≡ (if k == k' && same p then some (h (at_child s at n (k, q))) else at_child s at n (k', p))
  deepen-changes same q h f changes fresh n k' p =
      at_child-deepen f n k' p ∙ elim (Bool-cases (k == k')) [
        | inr e ↦ rw e refl
        | inl e ↦
            rw
              (
                e,
                changes (add_child s n k new).1 p,
                at-add_child n q (fresh q),
                at-add_child n p (fresh p),
                sym ((eq_iff k k').0 e),
              )
              refl
      ]
