-- ===== src/KubeAgent/Restore/Laws.antt =====
-- What `compareGroupTree` leaves of a backup, and that it ends.
pub mod Objects
pub mod Levels
pub mod Groups
use boxroom_cloud_native.Base.{String, not, ◌&&◌, ◌≡◌}
use boxroom_cloud_native.Base.Outcome.{done}
use boxroom_cloud_native.Tree.Root.{KubernetesRoot}
use boxroom_cloud_native.Tree.Paths.{find}
use boxroom_cloud_native.Tree.Group
use boxroom_cloud_native.KubeAgent.Restore.{Client, Mission, compare_group_tree}
use boxroom_cloud_native.KubeAgent.Restore.Level.{present}
use boxroom_cloud_native.KubeAgent.Restore.Laws.Objects.{Answers, IsStoredRoot, IsTold}
use boxroom_cloud_native.KubeAgent.Restore.Laws.Groups.{compare_group_tree-Restored}

-- `compareGroupTree` ends, whatever the cluster answers, if every error on a creation is an answer
-- of the API server and every object of the backup has its metadata and its resource. What is left
-- of the backup is again such a tree, and has an object at exactly the paths where the backup has
-- one and the cluster has none. If the mission was told of failures (a failure is recorded exactly
-- when the status is PartialFailed) before, it is so after.
pub compare_group_tree-leaves_missing :
    (client : Client)
    → Answers client
    → (backup current : KubernetesRoot) (s : Mission client) → IsStoredRoot backup
    → IsTold client s
    → (left : KubernetesRoot) × (s' : Mission client) × (compare_group_tree client backup current s
        ≡ done (left, s'))
      × IsStoredRoot left
      × IsTold client s'
      × ((g v r n o : String)
          → present (find left g v r n o)
            ≡ (present (find backup g v r n o) && not (present (find current g v r n o))))
unfolding compare_group_tree Group.get_name
compare_group_tree-leaves_missing client answers backup current s stored i =
    let w = compare_group_tree-Restored client answers backup current s stored i in
    (w.node, w.state, w.runs, w.kept, w.inv, λ g v r n o. w.related (g, (v, (r, (n, (o, tt))))))
