-- ===== src/Reconciler/Sort.antt =====
-- `sortPodList` of internal/controller/storagelocations_controller.go.
use boxroom_cloud_native.Base.{ltb, ℕ, zero, suc, ◌-◌, Bool, List, [], ◌∷◌, if◌then◌else◌}
use boxroom_cloud_native.Base.Slice.{length}
use boxroom_cloud_native.StorageLocation.{Pod}

-- `p.CreationTimestamp.Time.After(q.CreationTimestamp.Time)`
abbrev pub after : Pod → Pod → Bool
after p q = ltb q.meta.creation_timestamp p.meta.creation_timestamp

-- The inner loop: the first `j` neighbours are compared, and swapped where the earlier one is newer.
unfoldable pub sort_pass : ℕ → List Pod → List Pod
sort_pass zero pods = pods
sort_pass (suc j) [] = []
sort_pass (suc j) (p ∷ []) = p ∷ []
sort_pass (suc j) (p ∷ q ∷ pods) =
    let swapped = sort_pass j (p ∷ pods) in
    let kept = sort_pass j (q ∷ pods) in if after p q then q ∷ swapped else p ∷ kept

-- The outer loop, of which the inner loop compares one neighbour less each time.
unfoldable pub sort_passes : ℕ → List Pod → List Pod
unfolding sort_pass
sort_passes zero pods = pods
sort_passes (suc j) pods = sort_passes j (sort_pass (suc j) pods)

unfoldable pub sort_pod_list : List Pod → List Pod
unfolding sort_passes
sort_pod_list pods = sort_passes (length pods - 1) pods
