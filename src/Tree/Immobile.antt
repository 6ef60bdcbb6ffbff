-- ===== src/Tree/Immobile.antt =====
-- The constants of kubernetes/resource/immobile/immobile.go.
use boxroom_cloud_native.Base.{String}

abbrev pub root_kind : String
root_kind = "ClusterRoot"

abbrev pub cluster_kind : String
cluster_kind = "ClusterKind"

abbrev pub group_kind : String
group_kind = "GroupKind"

abbrev pub version_kind : String
version_kind = "VersionKind"

abbrev pub resource_kind : String
resource_kind = "ResourceKind"

abbrev pub namespace_kind : String
namespace_kind = "NamespaceKind"

abbrev pub object_kind : String
object_kind = "ObjectKind"

abbrev pub cluster_level_namespace : String
cluster_level_namespace = "cluster"

abbrev pub root_name : String
root_name = "k8s-cluster-a-1"

abbrev pub tree_backup_kind : String
tree_backup_kind = "backup"

abbrev pub tree_restore_kind : String
tree_restore_kind = "restore"

abbrev pub tree_name : String
tree_name = "treeName"
