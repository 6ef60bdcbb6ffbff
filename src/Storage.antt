-- ===== src/Storage.antt =====
-- kubernetes/storage: where stored trees stand, in files and in the object store.
pub mod Client
pub mod Dir
