-- ===== src/Controller/Cluster.antt =====
-- The Kubernetes agent as a `tree.Agent`: `GetResourceTree` and `ApplyResourceTree` of
-- kubernetes/kubernetes/k8s-agent/agent.go, which the controller calls through the interface.
use boxroom_cloud_native.Base.{String, Bool, true, false, Option, none, some}
use boxroom_cloud_native.Base.Outcome.{Outcome, done, panic}
use boxroom_cloud_native.Base.Action.{Step, ok, err, crashed}
use boxroom_cloud_native.Tree.Root.{KubernetesRoot}
use boxroom_cloud_native.Tree.Status.{MissionStatus}
use boxroom_cloud_native.Filter.{MapSet}
use boxroom_cloud_native.KubeAgent.Cluster.{Cluster}
use boxroom_cloud_native.KubeAgent.Restore.{Client, Mission}
use boxroom_cloud_native.KubeAgent.ResourceTree
use boxroom_cloud_native.StoreAgent.{Agent}

-- The model of the agent keeps no texts of its errors.
abbrev pub agent_failed : String
agent_failed = "the kubernetes agent failed"

abbrev pub collected : {W : Type 0} → Option KubernetesRoot → W → Step W KubernetesRoot
collected none w = err agent_failed w
collected (some root) w = ok root w

module _ (client : Client) where
  abbrev pub applied :
      Outcome ((KubernetesRoot × Bool) × Mission client)
      → Step client.World (KubernetesRoot × MissionStatus)
  applied panic = crashed
  applied (done ((root, true), mission)) = ok (root, mission.status) mission.world
  applied (done ((root, false), mission)) = err agent_failed mission.world

  -- `cluster` is what the agent reads of the world.
  unfoldable pub kubernetes_agent : (M : MapSet) → (client.World → Cluster) → Agent client.World M
  unfolding ResourceTree.get_resource_tree ResourceTree.apply_resource_tree
  kubernetes_agent M cluster = record {
    get_resource_tree = λ root filters ctx w.
        collected (ResourceTree.get_resource_tree M (cluster w) ctx.file_logger root filters).0 w;
    apply_resource_tree = λ root ctx w. applied (
        ResourceTree.apply_resource_tree M (cluster w) client ctx.file_logger root
          (record { world = w; status = ctx.mission_status }));
  }
