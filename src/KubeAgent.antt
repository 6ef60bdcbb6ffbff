-- ===== src/KubeAgent.antt =====
-- kubernetes/kubernetes/k8s-agent: the agent that reads a tree from a cluster and applies one to it.
pub mod Config
pub mod Cluster
pub mod Filters
pub mod Build
pub mod Prepare
pub mod Restore
pub mod ResourceTree
