-- ===== src/Tests/Replicas.antt =====
-- The reconciler against a server that refuses a number of requests first.
use boxroom_cloud_native.Base.{
  ℕ, zero, suc, ◌+◌, ◌≤◌, Option, none, some, [], ◌≡◌, ◌⊎◌, refl, arith,
}
use boxroom_cloud_native.StorageLocation.{pos, negsuc, pod_of, get_pod}
use boxroom_cloud_native.KubeAgent.Restore.{ApiError}
use boxroom_cloud_native.Reconciler.Progress.{ended, panicked}
use boxroom_cloud_native.Reconciler.Server.{Server, State}
use boxroom_cloud_native.Reconciler.Sync.{difference, adjust_pods}
use boxroom_cloud_native.Reconciler.Laws.Replicas.{
  IsCounted, adjust_pods-reaches_replicas, adjust_pods-negative_panics,
}
use boxroom_cloud_native.Tests.Reconciler.{
  container, storage, config, location, three_pods, refused, server,
}

-- The refusals to come, the pods created and the pods deleted.
abbrev Counters : Type 0
Counters = ℕ × ℕ × ℕ

abbrev create : Counters → Option ApiError × Counters
create (zero, made, gone) = (none, (zero, suc made, gone))
create (suc left, made, gone) = (some refused, (left, made, gone))

abbrev delete : Counters → Option ApiError × Counters
delete (zero, made, gone) = (none, (zero, made, suc gone))
delete (suc left, made, gone) = (some refused, (left, made, gone))

abbrev busy : Server
busy = record server {
  World = Counters;
  get = λ request w. ((location, none), w);
  list_pods = λ namespace w. ((three_pods, none), w);
  list_services = λ namespace w. (([], none), w);
  create_pod = λ pod. create;
  delete_pod = λ pod. delete;
  create_service = λ service w. (none, w);
  delete_service = λ service w. (none, w);
  update = λ l w. (none, w);
}

create-IsCounted : IsCounted create (λ w. w.1) (λ w. w.2) (λ w. w.0)
create-IsCounted = record { works = works; fails = fails }
  where
    works :
        (w : Counters)
        → (create w).0 ≡ none
        → ((create w).1.1 ≡ suc w.1) × ((create w).1.2 ≡ w.2) × ((create w).1.0 ≤ w.0)
    works (zero, made, gone) ok = (refl, refl, omega arith)
    works (suc left, made, gone) ok = absurd (ground (arith, ok))

    fails :
        (w : Counters) (e : ApiError)
        → (create w).0 ≡ some e
        → ((create w).1.1 ≡ w.1) × ((create w).1.2 ≡ w.2) × (suc (create w).1.0 ≤ w.0)
    fails (zero, made, gone) e bad = absurd (ground (arith, bad))
    fails (suc left, made, gone) e bad = (refl, refl, omega arith)

delete-IsCounted : IsCounted delete (λ w. w.2) (λ w. w.1) (λ w. w.0)
delete-IsCounted = record { works = works; fails = fails }
  where
    works :
        (w : Counters)
        → (delete w).0 ≡ none
        → ((delete w).1.2 ≡ suc w.2) × ((delete w).1.1 ≡ w.1) × ((delete w).1.0 ≤ w.0)
    works (zero, made, gone) ok = (refl, refl, omega arith)
    works (suc left, made, gone) ok = absurd (ground (arith, ok))

    fails :
        (w : Counters) (e : ApiError)
        → (delete w).0 ≡ some e
        → ((delete w).1.2 ≡ w.2) × ((delete w).1.1 ≡ w.1) × (suc (delete w).1.0 ≤ w.0)
    fails (zero, made, gone) e bad = absurd (ground (arith, bad))
    fails (suc left, made, gone) e bad = (refl, refl, omega arith)

abbrev calm_soon : State busy
calm_soon = record { world = (1, 0, 0); deleted_pods = "" }

adjust_pods-reaches_replicas_example :
    (s' : State busy) × (adjust_pods busy 3 (difference (pos 1) 3) location three_pods calm_soon
      ≡ ended (tt, s'))
    × (3 + s'.world.1 + 0 ≡ 1 + s'.world.2 + 0)
    × ((s'.world.1 ≡ 0) ⊎ (s'.world.2 ≡ 0))
unfolding get_pod
adjust_pods-reaches_replicas_example =
    adjust_pods-reaches_replicas busy (λ w. w.1) (λ w. w.2) (λ w. w.0) (λ pod. create-IsCounted)
      (λ pod. delete-IsCounted) 3 1 location (pod_of location container config storage) three_pods
      calm_soon refl (omega arith)

adjust_pods-negative_panics_example :
    adjust_pods busy 5 (difference (negsuc 0) 3) location three_pods calm_soon ≡ panicked
adjust_pods-negative_panics_example =
    adjust_pods-negative_panics busy (λ w. w.1) (λ w. w.2) (λ w. w.0) (λ pod. create-IsCounted)
      (λ pod. delete-IsCounted) 5 0 location three_pods calm_soon (omega arith) refl
