-- ===== src/Reconciler/Laws.antt =====
-- What the reconciler does to the children of a storage location.
pub mod Order
pub mod Selection
pub mod Recognition
pub mod Replicas
use boxroom_cloud_native.Base.{
  ℕ, zero, suc, ◌+◌, ◌≤◌, String, Bool, true, false, not, ◌&&◌, ◌||◌, Option, none, some, List, [],
  ◌∷◌, ◌++◌, ◌==◌, ◌≡◌, refl, sym, ap, ◌∙◌, arith, if◌then◌else◌, Bool-cases, Option-cases, inl,
  inr,
}
use boxroom_cloud_native.Base.Slice.{length}
use boxroom_cloud_native.StorageLocation.{StorageLocations, Pod, get_pod}
use boxroom_cloud_native.Base.Outcome.{done}
use boxroom_cloud_native.KubeAgent.Restore.{ApiError}
use boxroom_cloud_native.Reconciler.Progress.{Progress, ended, panicked, running}
use boxroom_cloud_native.Reconciler.Server.{NamespacedName, Server, State}
use boxroom_cloud_native.Reconciler.Children.{create_child_pod, delete_child_pod, not_deleting}
use boxroom_cloud_native.Reconciler.Sync.{create_pods, delete_pods}
use boxroom_cloud_native.Reconciler.Reconcile.{
  not_found, get_storage_location, read_name, reconcile,
}

-- The answer to a read of a location that is not there, or is on its way out.
abbrev pub is_gone : StorageLocations × Option ApiError → Bool
is_gone answer = elim answer.1 [
  | none ↦ not (not_deleting answer.0.meta)
  | some e ↦ elim e.reason [ none ↦ false | some reason ↦ reason == not_found ]
]

get_storage_location-gone :
    (server : Server) (request : NamespacedName) (s : State server)
    → is_gone (server.get request s.world).0 ≡ true
    → get_storage_location server request s
      ≡ ended (none, record s { world = (server.get request s.world).1 })
unfolding get_storage_location
get_storage_location-gone server request s gone =
    let (answer, w) = server.get request s.world in
    elim (Option-cases answer.1) [
      | inl ok ↦
          let leaving : not_deleting answer.0.meta ≡ false = ground (arith, gone, ok) in
          rw (ok, get_storage_location) (rw leaving refl)
      | inr (e, failed) ↦ elim (Option-cases e.reason) [
        | inl unknown ↦ absurd (ground (arith, gone, failed, unknown))
        | inr (reason, known) ↦
            let missing : (reason == not_found) ≡ true = ground (arith, gone, failed, known) in
            rw (failed, get_storage_location) (rw known (rw missing refl))
      ]
    ]

-- `Reconcile` panics on every request whose location the API server does not find, or finds with a
-- deletion timestamp, whatever the fuel: `deleteBehaviour` is not reached.
pub reconcile-deleted :
    (server : Server) (retries fuel : ℕ) (request : NamespacedName) (s : State server)
    → is_gone (server.get request s.world).0 ≡ true
    → reconcile server retries fuel request s ≡ panicked
unfolding reconcile read_name
reconcile-deleted server retries fuel request s gone =
    rw (get_storage_location-gone server request s gone) refl

-- The state after a pod is deleted, and noted in the cache.
abbrev pub remove_pod : (server : Server) → Pod → State server → State server
remove_pod server pod s = record {
  world = (server.delete_pod pod s.world).1;
  deleted_pods = server.add_deleted pod.meta.name s.deleted_pods;
}

-- The first `n` pods, deleted in their order.
abbrev pub remove_first : (server : Server) → ℕ → List Pod → State server → State server
remove_first server zero pods s = s
remove_first server (suc n) [] s = s
remove_first server (suc n) (pod ∷ pods) s = remove_first server n pods (remove_pod server pod s)

-- If the server deletes every pod that it is asked to, then on a list of at least `n` pods the
-- deleting loop of `syncChildPodList` ends with as much fuel as pods to delete, and has deleted the
-- first `n` pods of the list, in their order, each once, and noted each in the cache.
pub delete_pods-removes_first :
    (server : Server)
    → ((pod : Pod) (w : server.World) → (server.delete_pod pod w).0 ≡ none)
    → (fuel n : ℕ) (pods : List Pod) (s : State server) → n ≤ fuel
    → n ≤ length pods
    → delete_pods server fuel n pods s ≡ ended (tt, remove_first server n pods s)
unfolding delete_pods delete_child_pod
delete_pods-removes_first server works fuel zero pods s h l = refl
delete_pods-removes_first server works zero (suc n) pods s h l = absurd (omega (arith, h))
delete_pods-removes_first server works (suc fuel) (suc n) [] s h l = absurd (omega (arith, l))
delete_pods-removes_first server works (suc fuel) (suc n) (pod ∷ pods) s h l =
    rw (works pod s.world) (
      delete_pods-removes_first server works fuel n pods (remove_pod server pod s)
        (omega (arith, h)) (omega (arith, l)))

-- If the location's pod can be built and the server refuses every pod, then the creating loop of
-- `syncChildPodList` with a pod left to create has not ended after any number of rounds.
pub create_pods-runs_on :
    (server : Server)
    → ((pod : Pod) (w : server.World) → (e : ApiError) × ((server.create_pod pod w).0 ≡ some e))
    → (fuel n : ℕ) (location : StorageLocations) (pod : Pod) (s : State server)
    → get_pod location ≡ done pod
    → create_pods server fuel (suc n) location s ≡ running
unfolding create_pods create_child_pod
create_pods-runs_on server refuses zero n location pod s built = refl
create_pods-runs_on server refuses (suc fuel) n location pod s built =
    let (e, refused) = refuses pod s.world in
    rw built (
      rw refused (
        create_pods-runs_on server refuses fuel n location pod
          (record s { world = (server.create_pod pod s.world).1 }) built))
