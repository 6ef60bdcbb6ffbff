-- ===== src/StoreAgent.antt =====
-- kubernetes/storage/store-agent: the agent that reads trees from the object store and writes
-- trees to it, and the agent that stores the logs of a mission. Here: the interface `Agent` of
-- kubernetes/resource/tree/interface.go.
pub mod Filtrate
pub mod Core
pub mod Assist
use boxroom_cloud_native.Base.{Bool}
use boxroom_cloud_native.Base.Dict.{Dict}
use boxroom_cloud_native.Base.Action.{Act}
use boxroom_cloud_native.Tree.Root.{KubernetesRoot}
use boxroom_cloud_native.Tree.Status.{MissionStatus}
use boxroom_cloud_native.Filter.{MapSet, KubernetesResourceFilter}

-- What the code puts in a `context.Context`: whether there is a file logger, and the status, which
-- the agents write through a pointer.
pub record Context : Type 0 where
  pub file_logger : Bool
  pub mission_status : MissionStatus

-- The tree that comes back is the one of the caller's pointer.
pub record Agent (W : Type 0) (M : MapSet) : Type 0 where
  pub get_resource_tree :
      KubernetesRoot → Dict (KubernetesResourceFilter M) → Context → Act W KubernetesRoot
  pub apply_resource_tree : KubernetesRoot → Context → Act W (KubernetesRoot × MissionStatus)
