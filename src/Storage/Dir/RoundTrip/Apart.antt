-- ===== src/Storage/Dir/RoundTrip/Apart.antt =====
-- One level of a tree: the directories of the objects of its children are told apart if a directory
-- tells the name of the child.
use boxroom_cloud_native.Base.{
  String, false, ◌||◌, List, [], ◌∷◌, ◌++◌, ◌==◌, ◌≡◌, refl, sym, ap, ◌∙◌, arith, inl, inr, eq_iff,
  Bool-cases,
}
use mathlib.Core.Bool.{true≢false}
use boxroom_cloud_native.Base.Dict.{Dict, contains}
use boxroom_cloud_native.Base.Walk.{IsDict, Named}
use boxroom_cloud_native.Tree.Json.{Json}
use boxroom_cloud_native.Storage.Dir.Write.Located.{concat_map, Located}
use boxroom_cloud_native.Storage.Dir.RoundTrip.{Each, directory_key, directories}
use boxroom_cloud_native.Storage.Dir.RoundTrip.Levels.{All, All-concat_map}

pub All-weaken :
    {A : Type 0} (P Q : A → Type 0) → ((a : A) → P a → Q a) → (xs : List A) → All P xs → All Q xs
All-weaken P Q f [] h = tt
All-weaken P Q f (x ∷ xs) h = (f x h.0, All-weaken P Q f xs h.1)

apart_from : (k j i : String) → (j == k) ≡ false → i ≡ j → (k == i) ≡ false
apart_from k j i h e = ground (arith, h, e, eq_iff j k, eq_iff k i)

module _ (json : Json) where
  contains-append :
      (y : String) (xs ys : List Located)
      → contains y (directories json (xs ++ ys))
        ≡ (contains y (directories json xs) || contains y (directories json ys))
  unfolding contains
  contains-append y [] ys = refl
  contains-append y (x ∷ xs) ys = ground (arith, contains-append y xs ys)

  abbrev IsAway : List Located → Located → Type 0
  IsAway ys e = contains (directory_key e) (directories json ys) ≡ false

  IsDict-append :
      (xs ys : List Located)
      → IsDict (directories json xs)
      → IsDict (directories json ys)
      → All (IsAway ys) xs
      → IsDict (directories json (xs ++ ys))
  unfolding contains
  IsDict-append [] ys u w h = w
  IsDict-append (x ∷ xs) ys u w h = (
    contains-append (directory_key x) xs ys ∙ ground (arith, u.0, h.0),
    IsDict-append xs ys u.1 w h.1,
  )

  -- `T e k`: the object stands below the child `k`.
  module _ (T : Located → String → Type 0)
      (inj : (e e' : Located) (k k' : String)
        → T e k
        → T e' k'
        → directory_key e ≡ directory_key e'
        → k ≡ k') where
    away :
        (e : Located) (k k' : String) (xs : List Located)
        → T e k
        → (k == k') ≡ false
        → All (λ x. T x k') xs
        → IsAway xs e
    unfolding contains
    away e k k' [] t apart h = refl
    away e k k' (x ∷ xs) t apart h =
        let rest = away e k k' xs t apart h.1 in
        elim (Bool-cases (directory_key x == directory_key e)) [
          | inr other ↦ ground (arith, other, rest)
          | inl same ↦ absurd (
              true≢false (
                sym (
                  (eq_iff k k').1 (
                    inj e x k k' t h.0 (sym ((eq_iff (directory_key x) (directory_key e)).0 same))))
                ∙ apart))
        ]

    module _ {C : Type 0} (below : C → List Located) (name : C → String) (G Q : C → Type 0)
        (one : (c : C)
          → G c
          → Q c
          → All (λ e. T e (name c)) (below c) × IsDict (directories json (below c))) where
      absent :
          (e : Located) (k : String) (d : Dict C)
          → T e k
          → contains k d ≡ false
          → Named name G d
          → Each Q d
          → IsAway (concat_map (λ x. below x.1) d) e
      unfolding contains
      absent e k [] t u n q = refl
      absent e k ((j, c) ∷ d) t u n q =
          let here : IsAway (below c) e =
            away e k (name c) (below c) t (apart_from k j (name c) (ground (arith, u)) n.0)
              (one c n.1 q.0).0 in
          let rest = absent e k d t (ground (arith, u)) n.2 q.1 in
          contains-append (directory_key e) (below c) (concat_map (λ x. below x.1) d)
          ∙ ground (arith, here, rest)

      level_dict :
          (d : Dict C)
          → IsDict d
          → Named name G d
          → Each Q d
          → IsDict (directories json (concat_map (λ x. below x.1) d))
      level_dict [] u n q = tt
      level_dict ((k, c) ∷ d) u n q =
          let (placed, own) = one c n.1 q.0 in
          IsDict-append (below c) (concat_map (λ x. below x.1) d) own (level_dict d u.1 n.2 q.1) (
            All-weaken (λ e. T e (name c)) (IsAway (concat_map (λ x. below x.1) d))
              (λ e t. absent e (name c) d t (ap (λ i. contains i d) n.0 ∙ u.0) n.2 q.1) (below c)
              placed)

      -- The objects of all children.
      pub level :
          (d : Dict C)
          → IsDict d
          → Named name G d
          → Each Q d
          → All (λ e. (k : String) × T e k) (concat_map (λ x. below x.1) d)
            × IsDict (directories json (concat_map (λ x. below x.1) d))
      level d u n q = (
        All-concat_map (λ e. (k : String) × T e k) below name G Q
            (λ c g h.
              All-weaken (λ e. T e (name c)) (λ e. (k : String) × T e k) (λ e t. (name c, t))
                (below c) (one c g h).0)
            d n q,
        level_dict d u n q,
      )
