-- ===== src/Base/Sweep.antt =====
-- What a loop over the children of a node leaves behind, entry by entry.
use mathlib.Core.Path.{◌≡◌, refl, sym, ap, subst, ◌∙◌}
use mathlib.Core.Logic.{inl, inr}
use mathlib.Core.Bool.{Bool, true, false}
use mathlib.Core.Option.{Option, none, some}
use mathlib.Core.List.{[], ◌∷◌}
use Prim.Native.String.{String}
use native.Mathlib.Omega.{arith}
use text.Mathlib.Text.{◌==◌}
use text.Mathlib.TextEquality.{eq_iff}
use text.Mathlib.TextPositions.{eq_refl}
use boxroom_cloud_native.Base.Core.{if◌then◌else◌, Bool-cases}
use boxroom_cloud_native.Base.Outcome.{Outcome, done, Run}
use boxroom_cloud_native.Base.Dict.{Dict, lookup, contains, keys, is_empty, lookup_of_not-contains}
use boxroom_cloud_native.Base.Walk.{
  IsDict, Named, remaining, walk, visit_children, KeepsName, visit_children-eq-walk,
}

pub is_empty_of_lookup :
    {V : Type 0} (d : Dict V) → ((k : String) → lookup k d ≡ none) → is_empty d ≡ true
unfolding lookup
is_empty_of_lookup [] h = refl
is_empty_of_lookup ((k, v) ∷ d) h = absurd (ground (arith, h k, eq_refl k))

pub lookup_of_is_empty :
    {V : Type 0} (d : Dict V) (k : String) → is_empty d ≡ true → lookup k d ≡ none
unfolding lookup
lookup_of_is_empty [] k h = refl
lookup_of_is_empty (e ∷ d) k h = cc

-- What is found in a map of named children has its key for a name.
pub lookup-Named :
    {C : Type 0} (name : C → String) (P : C → Type 0) (d : Dict C) (k : String) {c : C}
    → Named name P d
    → lookup k d ≡ some c
    → (name c ≡ k) × P c
unfolding lookup
lookup-Named name P [] k n h = cc
lookup-Named name P ((j, v) ∷ d) k {c} n h = elim (Bool-cases (j == k)) [
  | inl here ↦
      let e : v ≡ c = ground arith in
      let p : j ≡ k = (eq_iff j k).0 here in (ap name (sym e) ∙ n.0 ∙ p, subst P e n.1)
  | inr there ↦ lookup-Named name P d k n.2 (ground arith)
]

module _ {S C : Type 0} (visit : String → C → Run S (C × Bool)) (name : C → String) (Q : C → Type 0)
    (J : S → Type 0) (R : String → Option C → Option C → Type 0) where
  -- A visit ends: it keeps the name, the child that stays satisfies `Q`, the state `J`, and `R`
  -- relates the child before to the child after.
  pub record Visited (k : String) (c : C) (s : S) : Type 0 where
    pub child : C
    pub gone : Bool
    pub state : S
    pub runs : visit k c s ≡ done ((child, gone), state)
    pub named : name child ≡ name c
    pub kept : gone ≡ false → Q child
    pub inv : J state
    pub related : R k (some c) (remaining gone child)

  -- The walk ends, and the same holds of every key.
  pub record Swept (d : Dict C) (s : S) : Type 0 where
    pub dict : Dict C
    pub state : S
    pub runs : walk visit name d s ≡ done (dict, state)
    pub is_dict : IsDict dict
    pub named : Named name Q dict
    pub inv : J state
    pub related : (j : String) → R j (lookup j d) (lookup j dict)
    pub absent : (j : String) → contains j d ≡ false → contains j dict ≡ false

  related-cons :
      (k j : String) (c c' : C) (gone : Bool) (d rest : Dict C)
      → contains k rest ≡ false
      → R k (some c) (remaining gone c')
      → R j (lookup j d) (lookup j rest)
      → R j (lookup j ((k, c) ∷ d)) (lookup j (if gone then rest else (k, c') ∷ rest))
  unfolding lookup
  related-cons k j c c' true d rest fresh r later = elim (Bool-cases (k == j)) [
    | inl here ↦
        let e = (eq_iff k j).0 here in
        rw here (
          rw (lookup_of_not-contains j rest (subst (λ x. contains x rest ≡ false) e fresh))
            (subst (λ x. R x (some c) none) e r))
    | inr there ↦ rw there later
  ]
  related-cons k j c c' false d rest fresh r later = elim (Bool-cases (k == j)) [
    | inl here ↦ rw here (subst (λ x. R x (some c) (some c')) ((eq_iff k j).0 here) r)
    | inr there ↦ rw there later
  ]

  sweep-cons :
      (k : String) (c : C) (d : Dict C) (s : S)
      → (contains k d ≡ false)
      → name c ≡ k
      → (v : Visited k c s) → (w : Swept d v.state) → Swept ((k, c) ∷ d) s
  unfolding walk contains
  sweep-cons k c d s fresh e v w = build v.gone refl
    where
      build : (gone : Bool) → v.gone ≡ gone → Swept ((k, c) ∷ d) s
      build true g = record {
        dict = w.dict;
        state = w.state;
        runs = rw v.runs (rw w.runs (rw g));
        is_dict = w.is_dict;
        named = w.named;
        inv = w.inv;
        related = λ j.
            related-cons k j c v.child true d w.dict (w.absent k fresh)
              (subst (λ b. R k (some c) (remaining b v.child)) g v.related) (w.related j);
        absent = λ j h. w.absent j (ground arith);
      }
      build false g = record {
        dict = (k, v.child) ∷ w.dict;
        state = w.state;
        runs = rw v.runs (rw w.runs (rw g));
        is_dict = (w.absent k fresh, w.is_dict);
        named = (v.named ∙ e, v.kept g, w.named);
        inv = w.inv;
        related = λ j.
            related-cons k j c v.child false d w.dict (w.absent k fresh)
              (subst (λ b. R k (some c) (remaining b v.child)) g v.related) (w.related j);
        absent = λ j h. ground (arith, w.absent j);
      }

  -- Total correctness of a walk, from that of a visit.
  pub sweep :
      (P : C → Type 0)
      → ((k : String) (c : C) (s : S) → name c ≡ k → P c → J s → Visited k c s)
      → ((j : String) → R j none none)
      → (d : Dict C) (s : S) → IsDict d
      → Named name P d
      → J s
      → Swept d s
  unfolding walk lookup
  sweep P step base [] s h n inv = record {
    dict = [];
    state = s;
    runs = refl;
    is_dict = tt;
    named = tt;
    inv = inv;
    related = base;
    absent = λ j a. a;
  }
  sweep P step base ((k, c) ∷ d) s h n inv =
      let v = step k c s n.0 n.1 inv in
      sweep-cons k c d s h.0 n.0 v (sweep P step base d v.state h.1 n.2 v.inv)

  -- The loop of the code, from the same premises.
  pub sweep_children :
      (missing : Outcome (Unit {0})) (P : C → Type 0)
      → ((k : String) (c : C) (s : S) → name c ≡ k → P c → J s → Visited k c s)
      → (d : Dict C) (s : S) → IsDict d
      → Named name P d
      → J s
      → visit_children visit name missing (keys d) d s ≡ walk visit name d s
  sweep_children missing P step d s h n i =
      visit_children-eq-walk visit name missing keeps d s h n i
    where
      keeps : KeepsName visit name P J
      keeps k c s c' gone s' e p i r = kept_by (step k c s e p i)
        where
          kept_by : Visited k c s → (name c' ≡ name c) × J s'
          kept_by v =
              let same : Path (Outcome ((C × Bool) × S)) (done ((c', gone), s'))
                  (done ((v.child, v.gone), v.state)) =
                sym r ∙ v.runs in
              let there : v.state ≡ s' = cc in (cc (v.named), subst J there v.inv)
