-- ===== src/Base/Walk.antt =====
-- A loop over the children of a node: each child is visited, written back, and deleted from the
-- map if the visit says so. On a map that stores each child under its name the loop is a plain
-- recursion over the entries, `walk`.
use mathlib.Core.Path.{◌≡◌, refl, sym, ap, ◌∙◌}
use mathlib.Core.Bool.{Bool, true, false, ◌||◌}
use mathlib.Core.Option.{Option, none, some}
use mathlib.Core.List.{List, [], ◌∷◌, ◌++◌, append_assoc}
use Prim.Native.String.{String}
use native.Mathlib.Omega.{arith}
use text.Mathlib.TextEquality.{eq_iff}
use text.Mathlib.TextPositions.{eq_refl}
use boxroom_cloud_native.Base.Core.{if◌then◌else◌}
use boxroom_cloud_native.Base.Outcome.{
  Outcome, done, done, bind, Run, pure, bind_congr, bind_assoc, bind-done, ◌>>=◌,
}
use boxroom_cloud_native.Base.Dict.{Dict, lookup, contains, set, delete, keys, delete_absent}

-- No key stands twice.
abbrev pub IsDict {ℓ} : {V : Type ℓ} → Dict V → Type 0
IsDict [] = Unit
IsDict ((k, v) ∷ d) = (contains k d ≡ false) × IsDict d

module _ {C : Type 0} where
  -- Each child is stored under its own name, and `P` holds of it.
  abbrev pub Named : (C → String) → (C → Type 0) → Dict C → Type 0
  Named name P [] = Unit
  Named name P ((k, c) ∷ d) = (name c ≡ k) × P c × Named name P d

  abbrev pub remaining : Bool → C → Option C
  remaining gone c = if gone then none else some c

  -- The first visited entry of a map with the prefix `p`.
  module _ (k : String) (c : C) where
    pub contains-append :
        (j : String) (p d : Dict C) → contains j (p ++ d) ≡ (contains j p || contains j d)
    unfolding contains
    contains-append j [] d = refl
    contains-append j ((i, v) ∷ p) d = rw (contains-append j p d) (ground arith)

    pub fresh :
        (p d : Dict C)
        → IsDict (p ++ (k, c) ∷ d)
        → (contains k p ≡ false)
          × (contains k d ≡ false)
          × IsDict (p ++ d)
          × ((c' : C) → IsDict (p ++ (k, c') ∷ d))
    unfolding contains
    fresh [] d h = (refl, h.0, h.1, λ c'. h)
    fresh ((i, v) ∷ p) d h =
        let (a, b, joined, swapped) = fresh p d h.1 in
        let split = contains-append i p ((k, c) ∷ d) in
        (
          ground (arith, eq_iff i k, eq_iff k i, split),
          b,
          (contains-append i p d ∙ ground (arith, split), joined),
          λ c'. (contains-append i p ((k, c') ∷ d) ∙ ground (arith, split), swapped c'),
        )

    pub lookup_middle : (p d : Dict C) → contains k p ≡ false → lookup k (p ++ (k, c) ∷ d) ≡ some c
    unfolding contains lookup
    lookup_middle [] d h = rw eq_refl
    lookup_middle ((i, v) ∷ p) d h = ground (arith, lookup_middle p d)

    pub set_middle :
        (c' : C) (p d : Dict C)
        → contains k p ≡ false
        → set k c' (p ++ (k, c) ∷ d) ≡ p ++ (k, c') ∷ d
    unfolding contains set
    set_middle c' [] d h = rw eq_refl
    set_middle c' ((i, v) ∷ p) d h = ground (arith, set_middle c' p d)

    pub delete_middle :
        (p d : Dict C)
        → contains k p ≡ false
        → contains k d ≡ false
        → delete k (p ++ (k, c) ∷ d) ≡ p ++ d
    unfolding contains delete
    delete_middle [] d h g = rw (eq_refl, delete_absent k d g)
    delete_middle ((i, v) ∷ p) d h g = ground (arith, delete_middle p d)

module _ {S C : Type 0} (visit : String → C → Run S (C × Bool)) (name : C → String) where
  -- The loop over the keys. A key that is no longer there is `missing`: a `nil` child, on which
  -- the next method call panics, or an entry that `range` skips.
  unfoldable pub visit_children : Outcome (Unit {0}) → List String → Dict C → Run S (Dict C)
  visit_children missing [] d = pure d
  visit_children missing (k ∷ ks) d = elim (lookup k d) [
    | none ↦ λ s. bind missing (λ _. visit_children missing ks d s)
    | some c ↦ do
      (c', gone) ← visit k c
      visit_children missing ks (if gone then delete (name c') (set k c' d) else set k c' d)
  ]

  unfoldable pub walk : Dict C → Run S (Dict C)
  walk [] = pure []
  walk ((k, c) ∷ d) = do
    (c', gone) ← visit k c
    rest ← walk d
    pure (if gone then rest else (k, c') ∷ rest)

  -- A visit does not rename what it visits, and keeps `J` of the state.
  abbrev pub KeepsName : (C → Type 0) → (S → Type 0) → Type 0
  KeepsName P J =
      (k : String) (c : C) (s : S) (c' : C) (gone : Bool) (s' : S)
      → name c ≡ k
      → P c
      → J s
      → visit k c s ≡ done ((c', gone), s')
      → (name c' ≡ name c) × J s'

  module _ {P : C → Type 0} {J : S → Type 0} (missing : Outcome (Unit {0}))
      (keeps : KeepsName P J) where
    abbrev leave : String → Dict C → C → Bool → Dict C
    leave k d c' gone = if gone then delete (name c') (set k c' d) else set k c' d

    round :
        (k : String) (ks : List String) (d : Dict C) (c : C) (s : S)
        → lookup k d ≡ some c
        → visit_children missing (k ∷ ks) d s
          ≡ bind (visit k c s) (λ r. visit_children missing ks (leave k d r.0.0 r.0.1) r.1)
    unfolding visit_children
    round k ks d c s e = rw (e, visit_children)

    leave_middle :
        (k : String) (c c' : C) (p d : Dict C)
        → IsDict (p ++ (k, c) ∷ d)
        → name c' ≡ k
        → (leave k (p ++ (k, c) ∷ d) c' true ≡ p ++ d)
          × (leave k (p ++ (k, c) ∷ d) c' false ≡ (p ++ (k, c') ∷ []) ++ d)
    leave_middle k c c' p d h e =
        let (first, last, joined, swapped) = fresh k c p d h in
        let written = set_middle k c c' p d first in
        (
          rw (written, e) (delete_middle k c' p d first last),
          written ∙ sym (append_assoc p ((k, c') ∷ []) d),
        )

    finish :
        (k : String) (c c' : C) (p d : Dict C) (s' : S) (gone : Bool)
        → IsDict (p ++ (k, c) ∷ d)
        → name c' ≡ k
        → ((p' : Dict C)
            → IsDict (p' ++ d)
            → visit_children missing (keys d) (p' ++ d) s'
              ≡ bind (walk d s') (λ r. done (p' ++ r.0, r.1)))
        → visit_children missing (keys d) (leave k (p ++ (k, c) ∷ d) c' gone) s'
          ≡ bind {A = Dict C × S}
              (bind (walk d s') (λ r. done (if gone then r.0 else (k, c') ∷ r.0, r.1)))
              (λ r. done (p ++ r.0, r.1))
    finish k c c' p d s' true h e rec =
        rw (leave_middle k c c' p d h e).0
          (rec p (fresh k c p d h).2 ∙ sym (bind_assoc (walk d s') _ _))
    finish k c c' p d s' false h e rec = rw (leave_middle k c c' p d h e).1 (
        rec (p ++ (k, c') ∷ []) (rw (append_assoc p ((k, c') ∷ []) d) ((fresh k c p d h).3 c'))
        ∙ bind_congr (walk d s') _ _
            (λ r _. ap (λ (l : Dict C). done (l, r.1)) (append_assoc p ((k, c') ∷ []) r.0))
        ∙ sym (bind_assoc (walk d s') _ _))

    visit_children-walk_from :
        (p d : Dict C) (s : S)
        → IsDict (p ++ d)
        → Named name P d
        → J s
        → visit_children missing (keys d) (p ++ d) s ≡ bind (walk d s) (λ r. done (p ++ r.0, r.1))
    unfolding visit_children walk
    visit_children-walk_from p [] s h n i = refl
    visit_children-walk_from p ((k, c) ∷ d) s h n i =
        round k (keys d) (p ++ (k, c) ∷ d) c s (lookup_middle k c p d (fresh k c p d h).0)
        ∙ bind_congr (visit k c s) _ _ (λ r e.
          let (named, inv) = keeps k c s r.0.0 r.0.1 r.1 n.0 n.1 i e in
          finish k c r.0.0 p d r.1 r.0.1 h (named ∙ n.0)
            (λ p' h'. visit_children-walk_from p' d r.1 h' n.2 inv))
        ∙ sym (bind_assoc (visit k c s) _ _)

    -- On a map with each child under its own name the loop is `walk`.
    pub visit_children-eq-walk :
        (d : Dict C) (s : S)
        → IsDict d
        → Named name P d
        → J s
        → visit_children missing (keys d) d s ≡ walk d s
    visit_children-eq-walk d s h n i = visit_children-walk_from [] d s h n i ∙ bind-done (walk d s)
