-- ===== src/Storage/Dir/RoundTrip/Levels.antt =====
-- One level of a tree: the objects of the children's files, and the child that holds the object.
use boxroom_cloud_native.Base.{
  String, Bool, true, false, ◌&&◌, Option, none, some, List, [], ◌∷◌, ◌++◌, map, ◌==◌, ◌≡◌, refl,
  sym, ap, ◌∙◌, arith, if◌then◌else◌, Bool-cases, inl, inr, eq_iff,
}
use boxroom_cloud_native.Base.Dict.{Dict, lookup, contains}
use boxroom_cloud_native.Base.Walk.{IsDict, Named}
use boxroom_cloud_native.Tree.Object.{Object}
use boxroom_cloud_native.Tree.Shape.{at_option}
use boxroom_cloud_native.Tree.Json.{Json}
use boxroom_cloud_native.Storage.Dir.Write.Located.{concat_map, Located}
use boxroom_cloud_native.Storage.Dir.Load.Laws.{
  or_else, or_else-none, decode, object_if_at, find_stored,
}
use boxroom_cloud_native.Storage.Dir.RoundTrip.{Each, directories, object_files}

abbrev pub fold : {C : Type 0} → (C → Option Object) → Dict C → Option Object
fold F [] = none
fold F ((k, c) ∷ d) = or_else (fold F d) (F c)

lookup-absent :
    {C : Type 0} (k k' : String) (d : Dict C)
    → contains k d ≡ false
    → (k == k') ≡ true
    → lookup k' d ≡ none
unfolding lookup contains
lookup-absent k k' [] h e = refl
lookup-absent k k' ((j, c) ∷ d) h e =
    ground (arith, lookup-absent k k' d, eq_iff k k', eq_iff j k, eq_iff j k')

-- `b` says whether the path leads to the node of the children, and `k'` is its next part.
module _ {C P : Type 0} (at : C → P → Option Object) (p : P) (F : C → Option Object) where
  pub fold-lookup :
      (name : C → String) (G Q : C → Type 0) (b : Bool) (k' : String)
      → ((c : C) → G c → Q c → F c ≡ (if b && name c == k' then at c p else none))
      → (d : Dict C) → IsDict d
      → Named name G d
      → Each Q d
      → fold F d ≡ (if b then at_option at (lookup k' d) p else none)
  unfolding lookup
  fold-lookup name G Q true k' one [] u n q = refl
  fold-lookup name G Q false k' one [] u n q = refl
  fold-lookup name G Q false k' one ((k, c) ∷ d) u n q =
      rw (one c n.1 q.0) (or_else-none (fold F d) ∙ fold-lookup name G Q false k' one d u.1 n.2 q.1)
  fold-lookup name G Q true k' one ((k, c) ∷ d) u n q =
      let below = fold-lookup name G Q true k' one d u.1 n.2 q.1 in
      let F-eq : F c ≡ (if k == k' then at c p else none) =
        one c n.1 q.0 ∙ ap (λ (j : String). if j == k' then at c p else none) n.0 in
      elim (Bool-cases (k == k')) [
        | inl e ↦ rw (below, lookup-absent k k' d u.0 e, F-eq, e) refl
        | inr e ↦ rw (F-eq, e) (or_else-none (fold F d) ∙ below)
      ]

module _ (json : Json) (g v r n o : String) where
  abbrev pub found_in : List Located → Option Object
  found_in objects = find_stored json (directories json objects) g v r n o

  or_else_assoc : (a b c : Option Object) → or_else a (or_else b c) ≡ or_else (or_else a b) c
  or_else_assoc (some x) b c = refl
  or_else_assoc none b c = refl

  found_in-append :
      (xs ys : List Located) → found_in (xs ++ ys) ≡ or_else (found_in ys) (found_in xs)
  found_in-append [] ys = sym (or_else-none (found_in ys))
  found_in-append (x ∷ xs) ys =
      ap (λ a. or_else a (object_if_at json (decode json (object_files json x.1)) g v r n o))
        (found_in-append xs ys)
      ∙ sym (
          or_else_assoc (found_in ys) (found_in xs)
            (object_if_at json (decode json (object_files json x.1)) g v r n o))

  pub found_in-concat_map :
      {C : Type 0} (below : C → List Located) (d : Dict C)
      → found_in (concat_map (λ e. below e.1) d) ≡ fold (λ c. found_in (below c)) d
  found_in-concat_map below [] = refl
  found_in-concat_map below ((k, c) ∷ d) =
      found_in-append (below c) (concat_map (λ e. below e.1) d)
      ∙ ap (λ a. or_else a (found_in (below c))) (found_in-concat_map below d)

  pub found_in-objects :
      (dir : String) (d : Dict Object)
      → found_in (map (λ e. (dir, e.1)) d)
        ≡ fold (λ object. object_if_at json (decode json (object_files json object)) g v r n o) d
  found_in-objects dir [] = refl
  found_in-objects dir ((k, c) ∷ d) =
      ap
        (λ (a : Option Object).
          or_else a (object_if_at json (decode json (object_files json c)) g v r n o))
        (found_in-objects dir d)

abbrev pub All : {A : Type 0} → (A → Type 0) → List A → Type 0
All P [] = Unit {0}
All P (x ∷ xs) = P x × All P xs

All-append : {A : Type 0} (P : A → Type 0) (xs ys : List A) → All P xs → All P ys → All P (xs ++ ys)
All-append P [] ys h k = k
All-append P (x ∷ xs) ys h k = (h.0, All-append P xs ys h.1 k)

-- What holds of the objects of each child holds of the objects of the children.
module _ (P : Located → Type 0) where
  pub All-concat_map :
      {C : Type 0} (below : C → List Located) (name : C → String) (G Q : C → Type 0)
      → ((c : C) → G c → Q c → All P (below c))
      → (d : Dict C) → Named name G d
      → Each Q d
      → All P (concat_map (λ e. below e.1) d)
  All-concat_map below name G Q one [] n q = tt
  All-concat_map below name G Q one ((k, c) ∷ d) n q =
      All-append P (below c) (concat_map (λ e. below e.1) d) (one c n.1 q.0)
        (All-concat_map below name G Q one d n.2 q.1)

  pub All-objects :
      (dir : String) (name : Object → String) (G Q : Object → Type 0)
      → ((o : Object) → G o → Q o → P (dir, o))
      → (d : Dict Object) → Named name G d
      → Each Q d
      → All P (map (λ e. (dir, e.1)) d)
  All-objects dir name G Q one [] n q = tt
  All-objects dir name G Q one ((k, c) ∷ d) n q =
      (one c n.1 q.0, All-objects dir name G Q one d n.2 q.1)
