-- ===== src/Tests.antt =====
-- Concrete sets, trees, clusters and servers, and the theorems at them.
pub mod Data
pub mod Trees
pub mod Filters
pub mod Restore
pub mod Reconciler
pub mod Replicas
pub mod Machines
pub mod Shop
pub mod Storage
pub mod Missions
pub mod Controllers
