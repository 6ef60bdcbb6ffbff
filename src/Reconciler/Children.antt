-- ===== src/Reconciler/Children.antt =====
-- The pods and the services of a storage location, and the calls that make and delete them.
use boxroom_cloud_native.Base.{
  String, Bool, true, false, ◌&&◌, Option, none, some, List, [], ◌∷◌, ◌==◌, if◌then◌else◌,
}
use boxroom_cloud_native.Base.Dict.{Dict, lookup}
use boxroom_cloud_native.StorageLocation.{
  StorageLocations, ObjectMeta, Pod, Service, get_pod, get_service,
}
use boxroom_cloud_native.KubeAgent.Restore.{ApiError}
use boxroom_cloud_native.Reconciler.Progress.{Process, ended, pure, crash, lift, ◌>>=◌}
use boxroom_cloud_native.Reconciler.Server.{Server, State}
use boxroom_cloud_native.Reconciler.Sort.{sort_pod_list}

-- `labels[key]`, with the zero value for a missing key
abbrev pub label : Dict String → String → String
label labels key = elim (lookup key labels) [ none ↦ "" | some v ↦ v ]

abbrev pub not_deleting : ObjectMeta → Bool
not_deleting meta = elim meta.deletion_timestamp [ none ↦ true | some t ↦ false ]

-- The condition on the labels and the owner. An object with the label and no owner panics.
unfoldable pub is_child : {S : Type 0} → StorageLocations → ObjectMeta → Process S Bool
unfolding lookup
is_child location meta =
    if label meta.labels "workload-kind" == "storagelocations"
    then elim meta.owner_references [
      | [] ↦ crash
      | owner ∷ owners ↦
          pure (
            owner.name == location.meta.name && owner.uid == location.meta.uid && not_deleting meta)
    ]
    else pure false

module _ (server : Server) where
  unfoldable pub select_pods : StorageLocations → List Pod → Process (State server) (List Pod)
  unfolding is_child
  select_pods location [] = pure []
  select_pods location (pod ∷ pods) = do
    alive ← λ s.
        let (hit, cache) = server.is_deleted pod.meta.name s.deleted_pods in
        ended (hit, record s { deleted_pods = cache })
    mine ← if alive then pure false else is_child location pod.meta
    rest ← select_pods location pods
    pure (if mine then pod ∷ rest else rest)

  unfoldable pub select_services :
      StorageLocations → List Service → Process (State server) (List Service)
  unfolding is_child
  select_services location [] = pure []
  select_services location (service ∷ services) = do
    mine ← is_child location service.meta
    rest ← select_services location services
    pure (if mine then service ∷ rest else rest)

  unfoldable pub get_storage_location_child_pod_list :
      StorageLocations → Process (State server) (List Pod × Option ApiError)
  unfolding select_pods sort_pod_list
  get_storage_location_child_pod_list location s =
      let (answer, w) = server.list_pods location.meta.namespace s.world in
      elim answer.1 [
        | some err ↦ ended (([], some err), record s { world = w })
        | none ↦
            (do pods ← select_pods location answer.0; pure (sort_pod_list pods, none))
              (record s { world = w })
      ]

  unfoldable pub get_storage_location_child_service_list :
      StorageLocations → Process (State server) (List Service × Option ApiError)
  unfolding select_services
  get_storage_location_child_service_list location s =
      let (answer, w) = server.list_services location.meta.namespace s.world in
      elim answer.1 [
        | some err ↦ ended (([], some err), record s { world = w })
        | none ↦
            (do services ← select_services location answer.0; pure (services, none))
              (record s { world = w })
      ]

  -- A write to the world.
  abbrev pub call :
      (server.World → Option ApiError × server.World) → Process (State server) (Option ApiError)
  call request s = let (err, w) = request s.world in ended (err, record s { world = w })

  unfoldable pub create_child_pod : StorageLocations → Process (State server) (Option ApiError)
  unfolding get_pod
  create_child_pod location = do pod ← lift (get_pod location); call (server.create_pod pod)

  unfoldable pub delete_child_pod : Pod → Process (State server) (Option ApiError)
  delete_child_pod pod = call (server.delete_pod pod)

  unfoldable pub create_child_service : StorageLocations → Process (State server) (Option ApiError)
  unfolding get_service
  create_child_service location = call (server.create_service (get_service location))

  unfoldable pub delete_child_service : Service → Process (State server) (Option ApiError)
  delete_child_service service = call (server.delete_service service)
