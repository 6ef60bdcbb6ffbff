-- ===== src/Tree/Shape.antt =====
-- What the kinds of nodes that have children share.
use boxroom_cloud_native.Base.{String, Option, none, some, ◌≡◌}
use boxroom_cloud_native.Base.Dict.{Dict, lookup}
use boxroom_cloud_native.Base.Walk.{IsDict, Named}
use boxroom_cloud_native.Tree.Object.{Object}

-- A node with named children.
pub record Shape (N C : Type 0) : Type 0 where
  pub kind : N → String
  pub name : N → String
  pub children : N → Dict C
  pub write : N → Dict C → N
  pub children-write : (n : N) (d : Dict C) → children (write n d) ≡ d
  pub kind-write : (n : N) (d : Dict C) → kind (write n d) ≡ kind n
  pub name-write : (n : N) (d : Dict C) → name (write n d) ≡ name n

-- A node has the kind of its level, and its children are well formed and stand under their names.
abbrev pub IsNode : {N C : Type 0} → Shape N C → String → (C → String) → (C → Type 0) → N → Type 0
IsNode s level name P n = (s.kind n ≡ level) × IsDict (s.children n) × Named name P (s.children n)

-- The object at a path below a node that may be missing.
abbrev pub at_option : {N P : Type 0} → (N → P → Option Object) → Option N → P → Option Object
at_option at none p = none
at_option at (some n) p = at n p

abbrev pub at_child :
    {N C P : Type 0} → Shape N C → (C → P → Option Object) → N → String × P → Option Object
at_child s at n p = at_option at (lookup p.0 (s.children n)) p.1
