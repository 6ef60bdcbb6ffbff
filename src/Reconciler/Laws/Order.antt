-- ===== src/Reconciler/Laws/Order.antt =====
-- `sortPodList` puts the oldest pod first, and loses and invents none.
use boxroom_cloud_native.Base.{
  ℕ, zero, suc, ◌-◌, ◌<◌, ◌≤◌, Bool, true, false, List, [], ◌∷◌, ◌≡◌, refl, sym, subst, ◌∙◌, arith,
  if◌then◌else◌, Bool-cases, inl, inr,
}
use boxroom_cloud_native.Base.Slice.{length}
use boxroom_cloud_native.StorageLocation.{Pod}
use boxroom_cloud_native.Reconciler.Sort.{after, sort_pass, sort_passes, sort_pod_list}

-- How many pods of a list pass a test.
abbrev pub count : (Pod → Bool) → List Pod → ℕ
count test [] = 0
count test (p ∷ pods) = if test p then suc (count test pods) else count test pods

abbrev pub created : Pod → ℕ
created p = p.meta.creation_timestamp

-- Nothing in the list is older than `t`.
abbrev pub NotBefore : ℕ → List Pod → Type 0
NotBefore t [] = Unit
NotBefore t (p ∷ pods) = (t ≤ created p) × NotBefore t pods

-- Each pod is at least as old as all that follow.
abbrev pub IsSorted : List Pod → Type 0
IsSorted [] = Unit
IsSorted (p ∷ pods) = NotBefore (created p) pods × IsSorted pods

after-true : (p q : Pod) → after p q ≡ true → created q < created p
after-true p q h = ground arith

after-false : (p q : Pod) → after p q ≡ false → created p ≤ created q
after-false p q h = ground arith

count-sort_pass :
    (test : Pod → Bool) (j : ℕ) (pods : List Pod) → count test (sort_pass j pods) ≡ count test pods
unfolding sort_pass
count-sort_pass test zero pods = refl
count-sort_pass test (suc j) [] = refl
count-sort_pass test (suc j) (p ∷ []) = refl
count-sort_pass test (suc j) (p ∷ q ∷ pods) =
    ground (arith, count-sort_pass test j (p ∷ pods), count-sort_pass test j (q ∷ pods))

count-sort_passes :
    (test : Pod → Bool) (j : ℕ) (pods : List Pod)
    → count test (sort_passes j pods) ≡ count test pods
unfolding sort_passes
count-sort_passes test zero pods = refl
count-sort_passes test (suc j) pods =
    count-sort_passes test j (sort_pass (suc j) pods) ∙ count-sort_pass test (suc j) pods

abbrev drop : ℕ → List Pod → List Pod
drop zero pods = pods
drop (suc k) [] = []
drop (suc k) (p ∷ pods) = drop k pods

-- From the place `k` on the pods are sorted, and none of them is older than one before that place.
abbrev Settled : ℕ → List Pod → Type 0
Settled zero pods = IsSorted pods
Settled (suc k) [] = Unit
Settled (suc k) (p ∷ pods) = NotBefore (created p) (drop k pods) × Settled k pods

-- A pass moves the newest of the first pods to the place where it stops.
NotBefore-sort_pass :
    (t j : ℕ) (p : Pod) (pods : List Pod)
    → t ≤ created p
    → NotBefore t (drop j pods)
    → NotBefore t (drop j (sort_pass j (p ∷ pods)))
unfolding sort_pass
NotBefore-sort_pass t zero p pods h n = (h, n)
NotBefore-sort_pass t (suc zero) p [] h n = tt
NotBefore-sort_pass t (suc (suc j)) p [] h n = tt
NotBefore-sort_pass t (suc j) p (q ∷ pods) h n = elim (Bool-cases (after p q)) [
  | inl newer ↦ rw newer (NotBefore-sort_pass t j p pods h n)
  | inr older ↦
      rw older (NotBefore-sort_pass t j q pods (omega (arith, h, after-false p q older)) n)
]

sort_pass-Settled : (j : ℕ) (pods : List Pod) → Settled (suc j) pods → Settled j (sort_pass j pods)
unfolding sort_pass
sort_pass-Settled zero [] h = tt
sort_pass-Settled zero (p ∷ pods) h = h
sort_pass-Settled (suc j) [] h = tt
sort_pass-Settled (suc zero) (p ∷ []) h = h
sort_pass-Settled (suc (suc j)) (p ∷ []) h = (h.0, tt)
sort_pass-Settled (suc j) (p ∷ q ∷ pods) h = elim (Bool-cases (after p q)) [
  | inl newer ↦ rw newer (
    NotBefore-sort_pass (created q) j p pods (omega (arith, after-true p q newer)) h.1.0,
    sort_pass-Settled j (p ∷ pods) (h.0, h.1.1),
  )
  | inr older ↦ rw older (
    NotBefore-sort_pass (created p) j q pods (after-false p q older) h.0,
    sort_pass-Settled j (q ∷ pods) h.1,
  )
]

sort_passes-IsSorted :
    (j : ℕ) (pods : List Pod) → Settled (suc j) pods → IsSorted (sort_passes j pods)
unfolding sort_passes
sort_passes-IsSorted zero [] h = tt
sort_passes-IsSorted zero (p ∷ pods) h = h
sort_passes-IsSorted (suc j) pods h =
    sort_passes-IsSorted j (sort_pass (suc j) pods) (sort_pass-Settled (suc j) pods h)

drop_all : (pods : List Pod) → drop (length pods) pods ≡ []
drop_all [] = refl
drop_all (p ∷ pods) = drop_all pods

Settled-length : (pods : List Pod) → Settled (length pods) pods
Settled-length [] = tt
Settled-length (p ∷ pods) =
    (subst (NotBefore (created p)) (sym (drop_all pods)) tt, Settled-length pods)

-- `sortPodList` orders the pods by creation time, the oldest first, and every test of a pod passes for
-- as many pods after it as before: no pod is lost, added or doubled.
pub sort_pod_list-IsSorted :
    (pods : List Pod)
    → IsSorted (sort_pod_list pods)
      × ((test : Pod → Bool) → count test (sort_pod_list pods) ≡ count test pods)
unfolding sort_pod_list
sort_pod_list-IsSorted [] = (sort_passes-IsSorted 0 [] tt, λ test. count-sort_passes test 0 [])
sort_pod_list-IsSorted (p ∷ pods) =
    let one_less : suc (length pods) - 1 ≡ length pods = omega arith in
    rw one_less (
      sort_passes-IsSorted (length pods) (p ∷ pods) (Settled-length (p ∷ pods)),
      λ test. count-sort_passes test (length pods) (p ∷ pods),
    )
