-- ===== src/Reconciler.antt =====
-- internal/controller/storagelocations_controller.go.
pub mod Progress
pub mod Sort
pub mod Server
pub mod Children
pub mod Sync
pub mod Reconcile
pub mod Laws
pub mod Events
