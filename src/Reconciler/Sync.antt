-- ===== src/Reconciler/Sync.antt =====
-- `syncChildPodList`: the number of pods is brought to the number of replicas.
use boxroom_cloud_native.Base.{
  leb, ltb, ℕ, zero, suc, ◌+◌, ◌-◌, String, Option, none, some, List, [], ◌∷◌, ◌==◌, if◌then◌else◌,
}
use Prim.Native.Nat.{◌^◌}
use Prim.Native.String.{compare as compare_text}
use text.Mathlib.Text.{is_le}
use boxroom_cloud_native.Base.Slice.{length}
use boxroom_cloud_native.StorageLocation.{ℤ, pos, negsuc, StorageLocations, Pod}
use boxroom_cloud_native.KubeAgent.Restore.{ApiError}
use boxroom_cloud_native.Reconciler.Progress.{Process, pure, crash, exhausted, ◌>>=◌, ◌>>◌}
use boxroom_cloud_native.Reconciler.Server.{Server, State}
use boxroom_cloud_native.Reconciler.Children.{
  get_storage_location_child_pod_list, create_child_pod, delete_child_pod,
}

-- `v1.PodRunning`
abbrev pub pod_running : String
pod_running = "Running"

-- The result of a subtraction of Go's `int`, of 64 bits, that is `- 1 - n`: below the least `int`
-- it wraps around.
abbrev pub wrapped_negsuc : ℕ → ℤ
wrapped_negsuc n = if ltb n (2 ^ 63) then negsuc n else pos (2 ^ 64 - 1 - n)

-- `n - l` of an `int` and a length, which is none too small for a number that is not negative.
abbrev pub difference : ℤ → ℕ → ℤ
difference (pos n) l = if leb l n then pos (n - l) else negsuc (l - n - 1)
difference (negsuc n) l = wrapped_negsuc (n + l)

-- `sort.Strings`
abbrev pub insert_text : String → List String → List String
insert_text t [] = t ∷ []
insert_text t (u ∷ us) =
    let rest = insert_text t us in if is_le (compare_text t u) then t ∷ u ∷ us else u ∷ rest

abbrev pub sort_texts : List String → List String
sort_texts [] = []
sort_texts (t ∷ ts) = insert_text t (sort_texts ts)

-- A slice that `append` has built: no element is nil.
abbrev pub appended : List String → Option (List String)
appended [] = none
appended (t ∷ ts) = some (t ∷ ts)

-- `runningPodNum` and `endPoints`
unfoldable pub count_running : List Pod → ℕ
count_running [] = 0
count_running (pod ∷ pods) =
    let rest = count_running pods in if pod.status.phase == pod_running then suc rest else rest

unfoldable pub endpoints : List Pod → List String
endpoints [] = []
endpoints (pod ∷ pods) = pod.status.pod_ip ∷ endpoints pods

module _ (server : Server) where
  -- `n > 0`: one creation after the other until `n` have succeeded.
  unfoldable pub create_pods : ℕ → ℕ → StorageLocations → Process (State server) (Unit {0})
  unfolding create_child_pod
  create_pods fuel zero location = pure tt
  create_pods zero (suc n) location = exhausted
  create_pods (suc fuel) (suc n) location = do
    err ← create_child_pod server location
    elim err [ none ↦ create_pods fuel n location | some e ↦ create_pods fuel (suc n) location ]

  -- `n < 0`: the first pod of the list is deleted, which is the oldest one, until it works.
  unfoldable pub delete_pods : ℕ → ℕ → List Pod → Process (State server) (Unit {0})
  unfolding delete_child_pod
  delete_pods fuel zero pods = pure tt
  delete_pods zero (suc n) pods = exhausted
  delete_pods (suc fuel) (suc n) [] = crash
  delete_pods (suc fuel) (suc n) (pod ∷ pods) = do
    err ← delete_child_pod server pod
    elim err [
      | none ↦ λ s.
          delete_pods fuel n pods
            (record s { deleted_pods = server.add_deleted pod.meta.name s.deleted_pods })
      | some e ↦ delete_pods fuel (suc n) (pod ∷ pods)
    ]

  -- The loop, by the sign of `n`.
  unfoldable pub adjust_pods :
      ℕ → ℤ → StorageLocations → List Pod → Process (State server) (Unit {0})
  unfolding create_pods delete_pods
  adjust_pods fuel (pos n) location pods = create_pods fuel n location
  adjust_pods fuel (negsuc n) location pods = delete_pods fuel (suc n) pods

  -- The status is written in place: the result holds the location after the call.
  unfoldable pub sync_child_pod_list :
      ℕ → StorageLocations → Process (State server) (StorageLocations × Option ApiError)
  unfolding adjust_pods get_storage_location_child_pod_list count_running endpoints
  sync_child_pod_list fuel location = do
    (pods, err) ← get_storage_location_child_pod_list server location
    elim err [
      | some e ↦ pure (location, some e)
      | none ↦ elim location.spec.container_spec [
        | none ↦ crash
        | some container ↦ do
          adjust_pods fuel (difference container.replicas (length pods)) location pods
          (left, err) ← get_storage_location_child_pod_list server location
          elim err [
            | some e ↦ pure (location, some e)
            | none ↦
                let status = record location.status {
                  replicas = pos (count_running left);
                  pods = appended (sort_texts (endpoints left));
                } in
                pure (record location { status = status }, none)
          ]
      ]
    ]
