-- ===== src/Base/Dict.antt =====
-- A Go `map[string]V` as an association list. Its order stands for the order of a `range` loop,
-- which Go leaves open: what is proved for every list holds for every order.
use mathlib.Core.Path.{◌≡◌, refl}
use mathlib.Core.Bool.{Bool, true, false, ◌||◌}
use mathlib.Core.Option.{Option, none, some}
use mathlib.Core.List.{List, [], ◌∷◌}
use Prim.Native.String.{String}
use native.Mathlib.Omega.{arith}
use text.Mathlib.Text.{◌==◌}
use text.Mathlib.TextEquality.{eq_iff}
use mathlib.Core.Logic.{inl, inr}
use boxroom_cloud_native.Base.Core.{if◌then◌else◌, Bool-cases}

abbrev pub Dict {ℓ} : Type ℓ → Type ℓ
Dict V = List (String × V)

module _ {ℓ} {V : Type ℓ} where
  -- `m[k]`, with the second result of `v, ok := m[k]`
  unfoldable pub lookup : String → Dict V → Option V
  lookup k [] = none
  lookup k ((j, v) ∷ d) = if j == k then some v else lookup k d

  -- `_, ok := m[k]`
  unfoldable pub contains : String → Dict V → Bool
  contains k [] = false
  contains k ((j, v) ∷ d) = j == k || contains k d

  -- `m[k] = v`
  unfoldable pub set : String → V → Dict V → Dict V
  set k v [] = (k, v) ∷ []
  set k v ((j, w) ∷ d) = if j == k then (j, v) ∷ d else (j, w) ∷ set k v d

  -- `delete(m, k)`
  unfoldable pub delete : String → Dict V → Dict V
  delete k [] = []
  delete k ((j, v) ∷ d) = let rest = delete k d in if j == k then rest else (j, v) ∷ rest

  abbrev pub keys : Dict V → List String
  keys [] = []
  keys ((k, v) ∷ d) = k ∷ keys d

  -- `len(m) == 0`
  abbrev pub is_empty : Dict V → Bool
  is_empty [] = true
  is_empty (e ∷ d) = false

  pub lookup-set :
      (k j : String) (v : V) (d : Dict V)
      → lookup j (set k v d) ≡ (if k == j then some v else lookup j d)
  unfolding lookup set
  lookup-set k j v [] = refl
  lookup-set k j v ((i, w) ∷ d) =
      ground (arith, eq_iff k j, eq_iff i k, eq_iff i j, lookup-set k j v d)

  pub lookup-delete :
      (k j : String) (d : Dict V) → lookup j (delete k d) ≡ (if k == j then none else lookup j d)
  unfolding lookup delete
  lookup-delete k j [] = ground arith
  lookup-delete k j ((i, w) ∷ d) =
      ground (arith, eq_iff k j, eq_iff i k, eq_iff i j, lookup-delete k j d)

  pub contains-set :
      (k j : String) (v : V) (d : Dict V) → contains j (set k v d) ≡ (k == j || contains j d)
  unfolding contains set
  contains-set k j v [] = refl
  contains-set k j v ((i, w) ∷ d) =
      ground (arith, eq_iff k j, eq_iff i k, eq_iff i j, contains-set k j v d)

  pub contains-delete :
      (k j : String) (d : Dict V)
      → contains j (delete k d) ≡ (if k == j then false else contains j d)
  unfolding contains delete
  contains-delete k j [] = ground arith
  contains-delete k j ((i, w) ∷ d) =
      ground (arith, eq_iff k j, eq_iff i k, eq_iff i j, contains-delete k j d)

  pub lookup_of_not-contains : (k : String) (d : Dict V) → contains k d ≡ false → lookup k d ≡ none
  unfolding lookup contains
  lookup_of_not-contains k [] h = refl
  lookup_of_not-contains k ((j, v) ∷ d) h = ground (arith, lookup_of_not-contains k d)

  pub lookup_of_contains :
      (k : String) (d : Dict V) → contains k d ≡ true → (v : V) × (lookup k d ≡ some v)
  unfolding lookup contains
  lookup_of_contains k [] h = cc
  lookup_of_contains k ((j, v) ∷ d) h = elim (Bool-cases (j == k)) [
    | inl here ↦ (v, rw here)
    | inr there ↦ let (w, found) = lookup_of_contains k d (ground arith) in (w, rw there found)
  ]

  pub delete_absent : (k : String) (d : Dict V) → contains k d ≡ false → delete k d ≡ d
  unfolding delete contains
  delete_absent k [] h = refl
  delete_absent k ((j, v) ∷ d) h = ground (arith, delete_absent k d)
