-- ===== src/KubeAgent/Build/Laws.antt =====
-- Building a tree keeps its invariant, and fails on an unreadable group and version only.
pub mod Objects
pub mod Resources
pub mod Versions
