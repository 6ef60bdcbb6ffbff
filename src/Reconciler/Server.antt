-- ===== src/Reconciler/Server.antt =====
-- What the reconciler asks of the API server (`client.Client` of controller-runtime) and of the LRU
-- cache of deleted pods (`lru.Cache` of groupcache). Both are outside this repository. Every call may
-- change the world: others write to the cluster between two calls.
use boxroom_cloud_native.Base.{String, Bool, Option, List}
use boxroom_cloud_native.StorageLocation.{StorageLocations, Pod, Service}
use boxroom_cloud_native.KubeAgent.Restore.{ApiError}

-- `types.NamespacedName`
pub record NamespacedName : Type 0 where
  pub namespace : String
  pub name : String

pub record Server : Type 1 where
  pub World : Type 0
  -- what the object that is passed holds after the call, and the error
  pub get : NamespacedName → World → (StorageLocations × Option ApiError) × World
  pub list_pods : String → World → (List Pod × Option ApiError) × World
  pub list_services : String → World → (List Service × Option ApiError) × World
  pub create_pod : Pod → World → Option ApiError × World
  pub delete_pod : Pod → World → Option ApiError × World
  pub create_service : Service → World → Option ApiError × World
  pub delete_service : Service → World → Option ApiError × World
  pub update : StorageLocations → World → Option ApiError × World
  pub Cache : Type 0
  pub add_deleted : String → Cache → Cache
  -- a lookup makes the entry the most recent one
  pub is_deleted : String → Cache → Bool × Cache

module _ (server : Server) where
  -- The world and `deletedPodCache`.
  pub record State : Type 0 where
    pub world : server.World
    pub deleted_pods : server.Cache
