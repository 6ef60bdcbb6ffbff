-- ===== src/Tree.antt =====
-- kubernetes/resource: the tree of what a cluster holds, root, group, version, resource,
-- namespace, object, and the constants of kubernetes/resource/immobile.
pub mod Immobile
pub mod Definition
pub mod Resources
pub mod Object
pub mod Namespace
pub mod Resource
pub mod Version
pub mod Group
pub mod Root
pub mod Status
pub mod Json
pub mod Shape
pub mod Paths
pub mod Grow
pub mod Deepen
