-- ===== src/Tree/Grow.antt =====
-- `AddChildren` and writes to a child keep a node well formed.
use boxroom_cloud_native.Base.{
  String, Bool, true, false, none, some, [], ◌∷◌, ◌==◌, ◌≡◌, refl, sym, ◌∙◌, inl, inr, arith,
  eq_iff, if◌then◌else◌, Bool-cases, Option-cases,
}
use boxroom_cloud_native.Base.Dict.{
  Dict, lookup, contains, set, delete, contains-set, contains-delete,
}
use boxroom_cloud_native.Base.Walk.{IsDict, Named}
use boxroom_cloud_native.Base.Sweep.{lookup-Named}
use boxroom_cloud_native.Tree.Shape.{Shape, IsNode}

pub set-IsDict : {C : Type 0} (k : String) (c : C) (d : Dict C) → IsDict d → IsDict (set k c d)
unfolding set contains
set-IsDict k c [] h = (refl, tt)
set-IsDict k c ((j, v) ∷ d) h = elim (Bool-cases (j == k)) [
  | inl e ↦ rw e h
  | inr e ↦
      rw e (contains-set k j c d ∙ ground (arith, eq_iff j k, eq_iff k j), set-IsDict k c d h.1)
]

pub set-Named :
    {C : Type 0} (name : C → String) (P : C → Type 0) (k : String) (c : C) (d : Dict C)
    → name c ≡ k
    → P c
    → Named name P d
    → Named name P (set k c d)
unfolding set
set-Named name P k c [] e p h = (e, p, tt)
set-Named name P k c ((j, v) ∷ d) e p h = elim (Bool-cases (j == k)) [
  | inl here ↦ rw here (e ∙ sym ((eq_iff j k).0 here), p, h.2)
  | inr there ↦ rw there (h.0, h.1, set-Named name P k c d e p h.2)
]

-- What every `AddChildren` does, with the child that it would make.
abbrev pub add_child : {N C : Type 0} → Shape N C → N → String → C → N × C
add_child s n k new = elim (lookup k (s.children n)) [
  | some child ↦ (n, child)
  | none ↦ (s.write n (set k new (s.children n)), new)
]

module _ {N C : Type 0} (s : Shape N C) (level : String) (name : C → String) (P : C → Type 0) where
  -- A child written back under its name.
  pub put-IsNode :
      (n : N) (k : String) (c : C)
      → name c ≡ k
      → P c
      → IsNode s level name P n
      → IsNode s level name P (s.write n (set k c (s.children n)))
  put-IsNode n k c e p h = (
    s.kind-write n _ ∙ h.0,
    rw (s.children-write n) (set-IsDict k c (s.children n) h.1),
    rw (s.children-write n) (set-Named name P k c (s.children n) e p h.2),
  )

  pub add_child-IsNode :
      (n : N) (k : String) (new : C)
      → name new ≡ k
      → P new
      → IsNode s level name P n
      → IsNode s level name P (add_child s n k new).0
        × (name (add_child s n k new).1 ≡ k)
        × P (add_child s n k new).1
  add_child-IsNode n k new e p h = elim (Option-cases (lookup k (s.children n))) [
    | inl missing ↦ rw (missing, add_child) (put-IsNode n k new e p h, e, p)
    | inr (c, found) ↦
        let (named, good) = lookup-Named name P (s.children n) k h.2 found in
        rw (found, add_child) (h, named, good)
  ]

  pub name-add_child : (n : N) (k : String) (new : C) → s.name (add_child s n k new).0 ≡ s.name n
  name-add_child n k new = elim (Option-cases (lookup k (s.children n))) [
    | inl missing ↦ rw (missing, add_child) (s.name-write n _)
    | inr (c, found) ↦ rw (found, add_child)
  ]

contains-delete_absent :
    {C : Type 0} (k j : String) (d : Dict C)
    → contains j d ≡ false
    → contains j (delete k d) ≡ false
contains-delete_absent k j d h = contains-delete k j d ∙ rw h (if_same (k == j))
  where
    if_same : (b : Bool) → (if b then false else false) ≡ false
    if_same true = refl
    if_same false = refl

pub delete-IsDict : {C : Type 0} (k : String) (d : Dict C) → IsDict d → IsDict (delete k d)
unfolding delete
delete-IsDict k [] h = h
delete-IsDict k ((j, v) ∷ d) h = elim (Bool-cases (j == k)) [
  | inl e ↦ rw e (delete-IsDict k d h.1)
  | inr e ↦ rw e (contains-delete_absent k j d h.0, delete-IsDict k d h.1)
]

pub delete-Named :
    {C : Type 0} (name : C → String) (P : C → Type 0) (k : String) (d : Dict C)
    → Named name P d
    → Named name P (delete k d)
unfolding delete
delete-Named name P k [] h = h
delete-Named name P k ((j, v) ∷ d) h = elim (Bool-cases (j == k)) [
  | inl e ↦ rw e (delete-Named name P k d h.2)
  | inr e ↦ rw e (h.0, h.1, delete-Named name P k d h.2)
]
