-- ===== src/Base/Prune.antt =====
-- A loop that deletes the empty children of a node:
-- `for _, child := range m { if len(child) == 0 && !node.DeleteChildren(child) { return error } }`.
use mathlib.Core.Path.{◌≡◌, refl, sym, ap, subst, ◌∙◌}
use mathlib.Core.Logic.{inl, inr}
use mathlib.Core.Bool.{Bool, true, false, ◌&&◌, not}
use mathlib.Core.Option.{Option, none, some}
use mathlib.Core.List.{List, [], ◌∷◌, ◌++◌, append_assoc}
use Prim.Native.String.{String}
use native.Mathlib.Omega.{arith}
use text.Mathlib.Text.{◌==◌}
use text.Mathlib.TextEquality.{eq_iff}
use boxroom_cloud_native.Base.Core.{if◌then◌else◌, Bool-cases}
use boxroom_cloud_native.Base.Dict.{Dict, lookup, contains, delete, keys, lookup_of_not-contains}
use boxroom_cloud_native.Base.Walk.{
  IsDict, Named, fresh, lookup_middle, delete_middle, contains-append,
}

module _ {C : Type 0} (empty : C → Bool) (name : C → String) where
  -- The keys are those that the loop still has to visit; `none` is the error.
  unfoldable pub prune_children : List String → Dict C → Option (Dict C)
  prune_children [] d = some d
  prune_children (k ∷ ks) d = elim (lookup k d) [
    | none ↦ prune_children ks d
    | some c ↦ elim (empty c && not (contains (name c) d)) [
      | true ↦ none
      | false ↦ prune_children ks (if empty c then delete (name c) d else d)
    ]
  ]

  -- The entries that are not empty.
  abbrev pub drop_empty : Dict C → Dict C
  drop_empty [] = []
  drop_empty ((k, c) ∷ d) = let rest = drop_empty d in if empty c then rest else (k, c) ∷ rest

  contains_middle : (k : String) (c : C) (p d : Dict C) → contains k (p ++ (k, c) ∷ d) ≡ true
  unfolding contains
  contains_middle k c p d = contains-append k c k p ((k, c) ∷ d) ∙ ground (arith, eq_iff k k)

  prune_children-append :
      (P : C → Type 0) (p d : Dict C)
      → IsDict (p ++ d)
      → Named name P d
      → prune_children (keys d) (p ++ d) ≡ some (p ++ drop_empty d)
  unfolding prune_children
  prune_children-append P p [] h n = refl
  prune_children-append P p ((k, c) ∷ d) h n =
      let (first, last, joined, swapped) = fresh k c p d h in
      rw (lookup_middle k c p d first, prune_children)
        (rw n.0 (
          rw (contains_middle k c p d) elim (Bool-cases (empty c)) [
            | inl e ↦ rw e (
                rw n.0 (
                  rw (delete_middle k c p d first last)
                    (rw e (prune_children-append P p d joined n.2))))
            | inr e ↦ rw e (
                rw e (
                  ap (prune_children (keys d)) (sym (append_assoc p ((k, c) ∷ []) d))
                  ∙ prune_children-append P (p ++ (k, c) ∷ []) d
                      (rw (append_assoc p ((k, c) ∷ []) d) h) n.2
                  ∙ ap some (append_assoc p ((k, c) ∷ []) (drop_empty d))))
          ]))

  -- On a map with each child under its name the loop returns, without the empty children.
  pub prune_children-eq-drop_empty :
      (P : C → Type 0) (d : Dict C)
      → IsDict d
      → Named name P d
      → prune_children (keys d) d ≡ some (drop_empty d)
  prune_children-eq-drop_empty P d h n = prune_children-append P [] d h n

-- What is left of a node.
abbrev pub not_empty : {C : Type 0} → (C → Bool) → Option C → Option C
not_empty empty none = none
not_empty empty (some c) = if empty c then none else some c

module _ {C : Type 0} (empty : C → Bool) (name : C → String) where
  contains-drop_empty :
      (k : String) (d : Dict C)
      → contains k d ≡ false
      → contains k (drop_empty empty name d) ≡ false
  unfolding contains
  contains-drop_empty k [] h = refl
  contains-drop_empty k ((j, c) ∷ d) h = ground (arith, contains-drop_empty k d)

  pub drop_empty-IsDict : (d : Dict C) → IsDict d → IsDict (drop_empty empty name d)
  drop_empty-IsDict [] h = h
  drop_empty-IsDict ((k, c) ∷ d) h = elim (Bool-cases (empty c)) [
    | inl e ↦ rw e (drop_empty-IsDict d h.1)
    | inr e ↦ rw e (contains-drop_empty k d h.0, drop_empty-IsDict d h.1)
  ]

  pub drop_empty-Named :
      (P : C → Type 0) (d : Dict C) → Named name P d → Named name P (drop_empty empty name d)
  drop_empty-Named P [] h = h
  drop_empty-Named P ((k, c) ∷ d) h = elim (Bool-cases (empty c)) [
    | inl e ↦ rw e (drop_empty-Named P d h.2)
    | inr e ↦ rw e (h.0, h.1, drop_empty-Named P d h.2)
  ]

  pub lookup-drop_empty :
      (k : String) (d : Dict C)
      → IsDict d
      → lookup k (drop_empty empty name d) ≡ not_empty empty (lookup k d)
  unfolding lookup
  lookup-drop_empty k [] h = refl
  lookup-drop_empty k ((j, c) ∷ d) h = elim (Bool-cases (j == k)) [
    | inl here ↦ rw here elim (Bool-cases (empty c)) [
      | inl e ↦ rw e (
          lookup_of_not-contains k _ (
            subst (λ x. contains x (drop_empty empty name d) ≡ false) ((eq_iff j k).0 here)
              (contains-drop_empty j d h.0)))
      | inr e ↦ rw e (rw here)
    ]
    | inr there ↦ rw there elim (Bool-cases (empty c)) [
      | inl e ↦ rw e (lookup-drop_empty k d h.1)
      | inr e ↦ rw e (rw there (lookup-drop_empty k d h.1))
    ]
  ]
