-- ===== src/Reconciler/Events.antt =====
-- The event handlers of `EnqueueRequestForStorageLocationChildren`: an event on a labelled object
-- queues a request for its first owner. The queue is `workqueue.RateLimitingInterface`, here the list
-- of what was added to it.
use boxroom_cloud_native.Base.{not, Option, none, some, List, [], ◌∷◌, ◌++◌, ◌==◌, if◌then◌else◌}
use boxroom_cloud_native.Base.Outcome.{Outcome, done, bind}
use boxroom_cloud_native.StorageLocation.{ObjectMeta, deref}
use boxroom_cloud_native.Reconciler.Server.{NamespacedName}
use boxroom_cloud_native.Reconciler.Children.{label}

unfoldable pub get_storage_location_request_from_object : ObjectMeta → Option NamespacedName
get_storage_location_request_from_object object = elim object.owner_references [
  | [] ↦ none
  | owner ∷ owners ↦ some (record { name = owner.name; namespace = object.namespace })
]

-- The nil request of an object without an owner is dereferenced.
unfoldable pub enqueue : ObjectMeta → List NamespacedName → Outcome (List NamespacedName)
unfolding get_storage_location_request_from_object
enqueue object queue =
    if not (label object.labels "workload-kind" == "storagelocations")
    then done queue
    else bind (deref (get_storage_location_request_from_object object))
        λ request. done (queue ++ request ∷ [])

unfoldable pub create : ObjectMeta → List NamespacedName → Outcome (List NamespacedName)
unfolding enqueue
create object queue = enqueue object queue

-- The request is that of the new object.
unfoldable pub update :
    ObjectMeta → ObjectMeta → List NamespacedName → Outcome (List NamespacedName)
unfolding enqueue
update object_old object_new queue = enqueue object_new queue

unfoldable pub delete : ObjectMeta → List NamespacedName → Outcome (List NamespacedName)
unfolding enqueue
delete object queue = enqueue object queue

unfoldable pub generic : ObjectMeta → List NamespacedName → Outcome (List NamespacedName)
unfolding enqueue
generic object queue = enqueue object queue
