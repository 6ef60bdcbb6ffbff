-- ===== src/Reconciler/Laws/Recognition.antt =====
-- The children that `GetPod` and `GetService` describe are children of their location.
use boxroom_cloud_native.Base.{true, some, ◌≡◌, refl, eq_refl}
use boxroom_cloud_native.Base.Outcome.{done}
use boxroom_cloud_native.Base.Dict.{lookup}
use boxroom_cloud_native.StorageLocation.{
  StorageLocations, StoragePluginContainerSpec, StoragePluginConfigSpec, StorageLocationSpecConfig,
  Pod, pod_of, get_pod, get_service,
}
use boxroom_cloud_native.Reconciler.Progress.{ended}
use boxroom_cloud_native.Reconciler.Children.{is_child}

-- If the container and the storage of a location are specified, `GetPod` describes a pod, in the
-- namespace of the location, that passes the test that the reconciler selects the
-- children of the location with, and so does the service that `GetService` describes.
pub get_pod-get_service-belong :
    {S : Type 0} (s : S) (location : StorageLocations) (container : StoragePluginContainerSpec)
    (config : StoragePluginConfigSpec) (storage : StorageLocationSpecConfig)
    → location.spec.container_spec ≡ some container
    → location.spec.config_spec ≡ some config
    → config.storage_config ≡ some storage
    → ((pod : Pod) × (get_pod location ≡ done pod)
        × (pod.meta.namespace ≡ location.meta.namespace)
        × (is_child location pod.meta s ≡ ended (true, s)))
      × ((get_service location).meta.namespace ≡ location.meta.namespace)
      × (is_child location (get_service location).meta s ≡ ended (true, s))
unfolding get_pod get_service lookup is_child
get_pod-get_service-belong s location container config storage c f e =
    let pod = pod_of location container config storage in
    ((pod, simp (c, f, e), refl, simp eq_refl), refl, simp eq_refl)
